-- ===== src/Plotter/Warp.antt =====
-- The passes over one warp of a write buffer, and the compressed scoops that they add up to.
use pocx.Base.{
  Bool-cases, length-replicate, ℕ, suc, ◌+◌, ◌*◌, ◌/◌, ◌%◌, ◌≤◌, ◌<◌, ◌≡◌, ◌≢◌, ◌⊎◌, inl, inr, refl,
  ◌∙◌, ap, ap₂, sym, List, length, replicate, Below, u64_mod, IsTurns, ◌==◌, arith,
}
use pocx.Nonce.{scoop_size}
use pocx.Nonce.Chain.{base}
use pocx.Nonce.Cache.{nonce_scoop, scoop_at}
use pocx.Quality.{xor_bytes, scoop_x, nonce_x, pow2}
use pocx.Quality.Scoop.{xor_blocks, contribution, compressed_scoop, length-xor_bytes}
use pocx.Quality.Xor.{xor_bytes_zero, xor_bytes_assoc, xor_blocks-suc, length-xor_blocks}
use pocx.Plotter.{compress_pass, dim, compress_batch, warp_size, helix_compress, helix_compress_xor}
use pocx.Plotter.Hash.{IsHashed}
use pocx.Plotter.Scoops.{
  helix_compress-folded, helix_compress_xor-folded, helix_compress-other, helix_compress_xor-other,
  helix_compress-Sized, helix_compress_xor-Sized, length-scoop_at,
}

-- What `done` passes of a warp add up to in scoop `y` of nonce `x`.
abbrev pub partial_scoop : List ℕ → List ℕ → ℕ → ℕ → ℕ → ℕ → ℕ → List ℕ
partial_scoop payload seed passes warp done x y =
    xor_blocks (contribution payload seed y (warp * dim + x) (2 * passes)) (2 * done) 0
      (replicate scoop_size 0)

pub partial_scoop-compressed_scoop :
    (payload seed : List ℕ) (passes warp compression x y : ℕ)
    → pow2 compression ≡ 2 * passes
    → partial_scoop payload seed passes warp passes x y
      ≡ compressed_scoop payload seed y (warp * dim + x) compression
unfolding compressed_scoop
partial_scoop-compressed_scoop payload seed passes warp compression x y e =
    ap
      (λ n.
        xor_blocks (contribution payload seed y (warp * dim + x) n) n 0 (replicate scoop_size 0))
      (sym e)

module _ (payload seed : List ℕ) (len_payload : length payload ≡ 20) (len_seed : length seed ≡ 32)
    (b_payload : Below 256 payload) (b_seed : Below 256 seed) (passes warp : ℕ) where
  module _ (pass : ℕ) (no_wrap : (warp * passes + pass) * compress_batch + compress_batch ≤ u64_mod)
      (source : List ℕ)
      (h : IsHashed payload seed ((warp * passes + pass) * compress_batch) source) where
    abbrev start : ℕ
    start = (warp * passes + pass) * compress_batch

    source-Sized : length source ≡ 2 * warp_size
    source-Sized = h.size ∙ omega arith

    module _ (x y : ℕ) (hx : x < dim) (hy : y < dim) where
      abbrev part : ℕ → List ℕ
      part = contribution payload seed y (warp * dim + x) (2 * passes)

      warp_of : (warp * dim + x) / dim ≡ warp
      warp_of = omega arith

      even : y ≡ scoop_x y (warp * dim + x) (2 * pass)
      even = ground arith

      odd : x ≡ scoop_x y (warp * dim + x) (2 * pass + 1)
      odd = ground arith

      even_nonce : start + (x + 0 * dim * 2) ≡ nonce_x y (warp * dim + x) (2 * passes) (2 * pass)
      even_nonce = sym (
          ground arith
          ∙ ap (λ w. ((2 * passes * w + 2 * pass) * dim + x) % u64_mod) warp_of
          ∙ omega arith)

      odd_nonce :
          start + (0 * dim * 2 + dim + y) ≡ nonce_x y (warp * dim + x) (2 * passes) (2 * pass + 1)
      odd_nonce = sym (
          ground arith
          ∙ ap (λ w. ((2 * passes * w + (2 * pass + 1)) * dim + y) % u64_mod) warp_of
          ∙ omega arith)

      near : scoop_at source (2 * dim) (x + 0 * dim * 2) y ≡ part (2 * pass)
      near =
          h.scoops (x + 0 * dim * 2) y (omega arith) hy
          ∙ ap₂ (λ n s. nonce_scoop (base payload seed n) s) even_nonce even

      far : scoop_at source (2 * dim) (0 * dim * 2 + dim + y) x ≡ part (2 * pass + 1)
      far =
          h.scoops (0 * dim * 2 + dim + y) x (omega arith) hx
          ∙ ap₂ (λ n s. nonce_scoop (base payload seed n) s) odd_nonce odd

      length-part : (i : ℕ) → (i ≡ 2 * pass) ⊎ (i ≡ 2 * pass + 1) → length (part i) ≡ 64
      length-part i (inl e) =
          ap (λ j. length (part j)) e
          ∙ ap length (sym near)
          ∙ length-scoop_at 2 source source-Sized (x + 0 * dim * 2) y (omega arith) hy
      length-part i (inr e) =
          ap (λ j. length (part j)) e
          ∙ ap length (sym far)
          ∙ length-scoop_at 2 source source-Sized (0 * dim * 2 + dim + y) x (omega arith) hx

      -- One more pass is two more contributions.
      partial_scoop-suc :
          partial_scoop payload seed passes warp (suc pass) x y
          ≡ xor_bytes
              (partial_scoop payload seed passes warp pass x y)
              (xor_bytes (part (2 * pass)) (part (2 * pass + 1)))
      partial_scoop-suc =
          ap (λ n. xor_blocks part n 0 (replicate scoop_size 0)) {x = 2 * suc pass}
            {y = suc (suc (2 * pass))} (omega arith)
          ∙ xor_blocks-suc part (suc (2 * pass)) 0 (2 * pass + 1) _ (omega arith)
          ∙ ap (λ b. xor_bytes b (part (2 * pass + 1)))
              (xor_blocks-suc part (2 * pass) 0 (2 * pass) _ (omega arith))
          ∙ xor_bytes_assoc (partial_scoop payload seed passes warp pass x y) (part (2 * pass))
              (part (2 * pass + 1))
              (length-xor_blocks part (2 * pass) 0 (replicate scoop_size 0)
                ∙ length-replicate {A = ℕ} 64 0
                ∙ sym (length-part (2 * pass) (inl refl)))

      partial_scoop-first :
          pass ≡ 0
          → xor_bytes (part (2 * pass)) (part (2 * pass + 1))
            ≡ partial_scoop payload seed passes warp (suc pass) x y
      partial_scoop-first e = sym (
          partial_scoop-suc
          ∙ ap
              (λ n.
                xor_bytes (xor_blocks part n 0 (replicate scoop_size 0))
                  (xor_bytes (part (2 * pass)) (part (2 * pass + 1))))
              {x = 2 * pass} {y = 0} (omega arith)
          ∙ unfold xor_blocks in
            xor_bytes_zero 64 _
              (length-xor_bytes (part (2 * pass)) _ ∙ length-part (2 * pass) (inl refl)))

    module _ (order target : List ℕ) (turns : IsTurns dim order) (slots slot : ℕ)
        (size : length target ≡ slots * warp_size) (room : slot + 1 ≤ slots) where
      pub compress_pass-Sized :
          length (compress_pass order source target slot pass) ≡ slots * warp_size
      unfolding compress_pass
      compress_pass-Sized = elim (Bool-cases (pass == 0)) [
        | inl e ↦ rw e (
            helix_compress-Sized source 2 slots slot 1 source-Sized (omega arith) room order turns
              target size)
        | inr e ↦ rw e (
            helix_compress_xor-Sized source 2 slots slot 1 source-Sized (omega arith) room order
              turns target size)
      ]

      -- The warps in the other slots stay.
      pub compress_pass-other :
          (n y : ℕ)
          → n < slots * dim
          → y < dim
          → (n < slot * dim) ⊎ ((slot + 1) * dim ≤ n)
          → scoop_at (compress_pass order source target slot pass) (slots * dim) n y
            ≡ scoop_at target (slots * dim) n y
      unfolding compress_pass
      compress_pass-other n y hn hy side = elim (Bool-cases (pass == 0)) [
        | inl e ↦ rw e (
            helix_compress-other source 2 slots slot 1 source-Sized (omega arith) room order turns
              target size n y hn hy side)
        | inr e ↦ rw e (
            helix_compress_xor-other source 2 slots slot 1 source-Sized (omega arith) room order
              turns target size n y hn hy side)
      ]

      -- A pass over what the passes before it have left adds its own part.
      pub compress_pass-partial :
          (x y : ℕ)
          → x < dim
          → y < dim
          → (pass ≡ 0)
            ⊎ (scoop_at target (slots * dim) (slot * dim + x) y
                ≡ partial_scoop payload seed passes warp pass x y)
          → scoop_at (compress_pass order source target slot pass) (slots * dim) (slot * dim + x) y
            ≡ partial_scoop payload seed passes warp (suc pass) x y
      unfolding compress_pass
      compress_pass-partial x y hx hy before = elim (Bool-cases (pass == 0)) [
        | inl e ↦ rw e (
            here (helix_compress order source target slot 1)
            ∙ helix_compress-folded source 2 slots slot 1 source-Sized (omega arith) room order
                turns target size 0 x y (omega arith) hx hy
            ∙ ap₂ xor_bytes (near x y hx hy) (far x y hx hy)
            ∙ partial_scoop-first x y hx hy (ground (arith, e)))
        | inr e ↦ rw e (
            here (helix_compress_xor order source target slot 1)
            ∙ helix_compress_xor-folded source 2 slots slot 1 source-Sized (omega arith) room order
                turns target size 0 x y (omega arith) hx hy
            ∙ ap₂ xor_bytes (sym (here target) ∙ held (ground (arith, e)) before)
                (ap₂ xor_bytes (near x y hx hy) (far x y hx hy))
            ∙ sym (partial_scoop-suc x y hx hy))
      ]
        where
          here :
              (t : List ℕ)
              → scoop_at t (slots * dim) (slot * dim + x) y
                ≡ scoop_at t (slots * dim) ((slot + 0) * dim + x) y
          here t =
              ap (λ n. scoop_at t (slots * dim) n y) {x = slot * dim + x} {y = (slot + 0) * dim + x}
                (omega arith)

          held :
              pass ≢ 0
              → (pass ≡ 0)
                ⊎ (scoop_at target (slots * dim) (slot * dim + x) y
                    ≡ partial_scoop payload seed passes warp pass x y)
              → scoop_at target (slots * dim) (slot * dim + x) y
                ≡ partial_scoop payload seed passes warp pass x y
          held ne (inl e) = absurd (ne e)
          held ne (inr e) = e
