-- ===== src/Plotter/Scoops.antt =====
-- The helix on whole scoops.
use pocx.Base.{
  ℕ, ◌+◌, ◌*◌, ◌≤◌, ◌<◌, ◌≡◌, ◌⊎◌, ◌∙◌, ap, ap₂, sym, List, length, get_or, bit_xor, run, IsTurns,
  list-ext, length-slice, arith,
}
use native.Mathlib.Nat.{mul-le-mul}
use pocx.Nonce.Layout.{get_or-slice}
use pocx.Nonce.Shuffle.{scoop_offset}
use pocx.Nonce.Cache.{scoop_at}
use pocx.Quality.{xor_bytes}
use pocx.Quality.Scoop.{length-xor_bytes}
use pocx.Quality.Xor.{get_or-xor_bytes}
use pocx.Plotter.{
  dim, warp_size, cell, both_bytes, helix_row, put_over, helix_compress, helix_compress_xor,
}
use pocx.Plotter.Helix.{helix-in, helix-out, helix-Sized}

-- A scoop is 64 bytes, those of its cells.
module _ (warps : ℕ) (t : List ℕ) (size : length t ≡ warps * warp_size) (n y : ℕ)
    (hn : n < warps * dim) (hy : y < dim) where
  pub length-scoop_at : length (scoop_at t (warps * dim) n y) ≡ 64
  length-scoop_at =
      length-slice t _ _ (
        omega (
          arith,
          size,
          mul-le-mul {n₁ = y} {m₁ = warps} {n₂ = 4095} {m₂ = warps} (omega arith) (omega arith),
        ))
      ∙ omega arith

  pub get_or-scoop_at :
      (z : ℕ) → z < 64 → get_or (scoop_at t (warps * dim) n y) z 0 ≡ get_or t (cell warps y n z) 0
  get_or-scoop_at z hz =
      get_or-slice t _ _ z (omega arith)
      ∙ ap (λ i. get_or t i 0) {x = scoop_offset (warps * dim) 0 n y + z} {y = cell warps y n z}
          (omega arith)

module _ (source : List ℕ) (sw tw warp_offset output_len : ℕ)
    (source_size : length source ≡ sw * warp_size) (pairs : 2 * output_len ≤ sw)
    (room : warp_offset + output_len ≤ tw) (order : List ℕ) (turns : IsTurns dim order) (t : List ℕ)
    (size : length t ≡ tw * warp_size) where
  module _ (put : ℕ → ℕ → ℕ) where
    after : List ℕ
    after = run (helix_row put source warp_offset output_len) order t

    after-Sized : length after ≡ tw * warp_size
    unfolding after
    after-Sized =
        helix-Sized put source sw tw warp_offset output_len source_size pairs room order turns t
          size

    after-out :
        (n y : ℕ)
        → n < tw * dim
        → y < dim
        → (n < warp_offset * dim) ⊎ ((warp_offset + output_len) * dim ≤ n)
        → scoop_at after (tw * dim) n y ≡ scoop_at t (tw * dim) n y
    unfolding after
    after-out n y hn hy side =
        list-ext 0 _ _
          (length-scoop_at tw after after-Sized n y hn hy
            ∙ sym (length-scoop_at tw t size n y hn hy))
          (λ z hz.
            get_or-scoop_at tw after after-Sized n y hn hy z
              (omega (arith, length-scoop_at tw after after-Sized n y hn hy))
            ∙ helix-out put source sw tw warp_offset output_len source_size pairs room order turns y
                n z hy hn (omega (arith, length-scoop_at tw after after-Sized n y hn hy)) side t
                size
            ∙ sym (
                get_or-scoop_at tw t size n y hn hy z
                  (omega (arith, length-scoop_at tw after after-Sized n y hn hy))))

  -- The part of a pair's helix that stands in scoop `y` of nonce `x`: the scoop with its mirror image.
  abbrev pub folded : ℕ → ℕ → ℕ → List ℕ
  folded w x y =
      xor_bytes (scoop_at source (sw * dim) (x + w * dim * 2) y)
        (scoop_at source (sw * dim) (w * dim * 2 + dim + y) x)

  module _ (w x y : ℕ) (hw : w < output_len) (hx : x < dim) (hy : y < dim) where
    abbrev n : ℕ
    n = (warp_offset + w) * dim + x

    length-near : length (scoop_at source (sw * dim) (x + w * dim * 2) y) ≡ 64
    length-near = length-scoop_at sw source source_size (x + w * dim * 2) y (omega arith) hy

    length-far : length (scoop_at source (sw * dim) (w * dim * 2 + dim + y) x) ≡ 64
    length-far = length-scoop_at sw source source_size (w * dim * 2 + dim + y) x (omega arith) hx

    length-folded : length (folded w x y) ≡ 64
    length-folded =
        length-xor_bytes (scoop_at source (sw * dim) (x + w * dim * 2) y) _ ∙ length-near

    get_or-folded :
        (z : ℕ)
        → z < 64
        → get_or (folded w x y) z 0
          ≡ both_bytes source (cell sw y (x + w * dim * 2) z) (cell sw x (w * dim * 2 + dim + y) z)
    get_or-folded z hz =
        get_or-xor_bytes (scoop_at source (sw * dim) (x + w * dim * 2) y) _ z
          (length-near ∙ sym length-far)
        ∙ ap₂ bit_xor
            (get_or-scoop_at sw source source_size (x + w * dim * 2) y (omega arith) hy z hz)
            (get_or-scoop_at sw source source_size (w * dim * 2 + dim + y) x (omega arith) hx z hz)

    after-in :
        (put : ℕ → ℕ → ℕ) (z : ℕ)
        → z < 64
        → get_or (scoop_at (after put) (tw * dim) n y) z 0
          ≡ put (get_or (scoop_at t (tw * dim) n y) z 0) (get_or (folded w x y) z 0)
    unfolding after
    after-in put z hz =
        get_or-scoop_at tw (after put) (after-Sized put) n y (omega arith) hy z hz
        ∙ helix-in put source sw tw warp_offset output_len source_size pairs room y x w z hy hx hw
            hz order turns t size
        ∙ ap₂ put (sym (get_or-scoop_at tw t size n y (omega arith) hy z hz))
            (sym (get_or-folded z hz))

    -- A call of `helix_compress` leaves in each scoop of its warps that of the first nonce of the pair
    -- with the mirrored one of the second, whatever the order of the threads and the target's bytes, if
    -- the buffers have whole warps and room for the call.
    pub helix_compress-folded :
        scoop_at (helix_compress order source t warp_offset output_len) (tw * dim) n y
        ≡ folded w x y
    unfolding helix_compress after
    helix_compress-folded =
        list-ext 0 _ _
          (length-scoop_at tw (after put_over) (after-Sized put_over) n y (omega arith) hy
            ∙ sym length-folded)
          (λ z hz. after-in put_over z (
            omega (
              arith,
              length-scoop_at tw (after put_over) (after-Sized put_over) n y (omega arith) hy,
            )))

    -- A call of `helix_compress_xor` adds the same to what each scoop of its warps held, if the
    -- buffers have whole warps and room for the call.
    pub helix_compress_xor-folded :
        scoop_at (helix_compress_xor order source t warp_offset output_len) (tw * dim) n y
        ≡ xor_bytes (scoop_at t (tw * dim) n y) (folded w x y)
    unfolding helix_compress_xor after
    helix_compress_xor-folded =
        list-ext 0 _ _
          (length-scoop_at tw (after bit_xor) (after-Sized bit_xor) n y (omega arith) hy
            ∙ sym (
                length-xor_bytes (scoop_at t (tw * dim) n y) _
                ∙ length-scoop_at tw t size n y (omega arith) hy))
          (λ z hz.
            after-in bit_xor z (
              omega (
                arith,
                length-scoop_at tw (after bit_xor) (after-Sized bit_xor) n y (omega arith) hy,
              ))
            ∙ sym (
                get_or-xor_bytes (scoop_at t (tw * dim) n y) (folded w x y) z
                  (length-scoop_at tw t size n y (omega arith) hy ∙ sym length-folded)))

  pub helix_compress-Sized :
      length (helix_compress order source t warp_offset output_len) ≡ tw * warp_size
  unfolding helix_compress after
  helix_compress-Sized = after-Sized put_over

  pub helix_compress_xor-Sized :
      length (helix_compress_xor order source t warp_offset output_len) ≡ tw * warp_size
  unfolding helix_compress_xor after
  helix_compress_xor-Sized = after-Sized bit_xor

  module _ (n y : ℕ) (hn : n < tw * dim) (hy : y < dim)
      (side : (n < warp_offset * dim) ⊎ ((warp_offset + output_len) * dim ≤ n)) where
    pub helix_compress-other :
        scoop_at (helix_compress order source t warp_offset output_len) (tw * dim) n y
        ≡ scoop_at t (tw * dim) n y
    unfolding helix_compress after
    helix_compress-other = after-out put_over n y hn hy side

    -- Outside its warps a call of `helix_compress_xor` changes no scoop, if the buffers have whole warps
    -- and room for the call.
    pub helix_compress_xor-other :
        scoop_at (helix_compress_xor order source t warp_offset output_len) (tw * dim) n y
        ≡ scoop_at t (tw * dim) n y
    unfolding helix_compress_xor after
    helix_compress_xor-other = after-out bit_xor n y hn hy side
