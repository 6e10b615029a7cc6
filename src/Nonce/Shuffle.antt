-- ===== src/Nonce/Shuffle.antt =====
-- The scoops of a target after `unpack_shuffle_scatter` are those that
-- `extract_scoop_from_interleaved` reads from the source buffer.
use pocx.Base.{
  ℕ, ◌+◌, ◌-◌, ◌*◌, ◌/◌, ◌%◌, ◌≤◌, ◌<◌, ◌≡◌, ◌⊎◌, refl, ◌∙◌, ap, sym, List, length, slice, arith,
  list-ext, length-slice,
}
use native.Mathlib.Nat.{mul-le-mul_right}
use native.Mathlib.Decide.{dec_lt}
use pocx.Nonce.{
  data_offset, buffer_offset, unpack_shuffle_scatter, nonce_size, extract_scoop_from_interleaved,
  num_scoops, scoop_size,
}
use pocx.Nonce.Layout.{byte, row, data_offset-row, Fits, get_or-slice}
use pocx.Nonce.Extract.{length-extract, extract-first, extract-second}
use pocx.Nonce.Scatter.{scatter-stays, scatter-hits, scatter-Sized}

-- Where scoop `scoop` of lane `lane` starts in a target for `ts` nonces.
abbrev pub scoop_offset : ℕ → ℕ → ℕ → ℕ → ℕ
scoop_offset ts to lane scoop = scoop * scoop_size * ts + (lane + to) * scoop_size

module _ (source target : List ℕ) (to vs lane scoop : ℕ) (out : List ℕ)
    (f : Fits source (length target) (length target / nonce_size) to vs) (in_lane : lane < vs)
    (hs : scoop < num_scoops) (len : length out ≡ 64) where
  abbrev ts : ℕ
  ts = length target / nonce_size

  abbrev pub scattered : List ℕ
  scattered = unpack_shuffle_scatter source target to vs

  pub length-scattered : length scattered ≡ length target
  unfolding unpack_shuffle_scatter
  length-scattered = scatter-Sized source (length target) ts to vs f target refl

  arrived :
      (i t r : ℕ)
      → i < 8192
      → t < 8
      → r < 4
      → byte scattered (data_offset ts to i (t * 4) lane + r)
        ≡ byte source (buffer_offset vs i (t * 4) lane + r)
  unfolding unpack_shuffle_scatter
  arrived i t r hi ht hr =
      scatter-hits source (length target) ts to vs f i t lane r hi ht in_lane hr target refl

  first_offset :
      (t : ℕ) → data_offset ts to (2 * scoop) (t * 4) lane ≡ scoop_offset ts to lane scoop + t * 4
  first_offset t =
      omega
        (arith, data_offset-row ts to (2 * scoop) (t * 4) lane, ap (λ (n : ℕ). n * ts) row_first)
    where
      row_first : row (2 * scoop) ≡ scoop
      row_first = ground arith

  second_offset :
      (t : ℕ)
      → data_offset ts to ((4095 - scoop) * 2 + 1) (t * 4) lane
        ≡ scoop_offset ts to lane scoop + 32 + t * 4
  second_offset t = omega (
    arith,
    data_offset-row ts to ((4095 - scoop) * 2 + 1) (t * 4) lane,
    ap (λ (n : ℕ). n * ts) row_second,
  )
    where
      row_second : row ((4095 - scoop) * 2 + 1) ≡ scoop
      row_second = ground arith

  abbrev extracted : List ℕ
  extracted = extract_scoop_from_interleaved source vs lane scoop out

  start : ℕ
  start = scoop_offset ts to lane scoop

  start-fits : start + 64 ≤ length target
  unfolding start
  start-fits =
      omega (arith, f.room, f.inside, mul-le-mul_right {m = scoop} {n = 4095} ts (omega arith))

  bytes-agree : (i : ℕ) → i < 64 → byte scattered (start + i) ≡ byte extracted i
  unfolding start
  bytes-agree i h = elim (dec_lt i 32) [
    | yes p ↦
        ap (byte scattered) {x = start + i}
          {y = data_offset ts to (2 * scoop) (i / 4 * 4) lane + i % 4}
          (omega (arith, first_offset (i / 4)))
        ∙ arrived (2 * scoop) (i / 4) (i % 4) (omega arith) (omega arith) (omega arith)
        ∙ sym (
            extract-first source vs lane f.lanes in_lane scoop hs out len (i / 4) (i % 4)
              (omega arith) (omega arith))
        ∙ ap (byte extracted) {x = i / 4 * 4 + i % 4} {y = i} (omega arith)
    | no np ↦
        ap (byte scattered) {x = start + i}
          {y = data_offset ts to ((4095 - scoop) * 2 + 1) ((i - 32) / 4 * 4) lane + (i - 32) % 4}
          (omega (arith, second_offset ((i - 32) / 4)))
        ∙ arrived ((4095 - scoop) * 2 + 1) ((i - 32) / 4) ((i - 32) % 4) (omega arith) (omega arith)
            (omega arith)
        ∙ sym (
            extract-second source vs lane f.lanes in_lane scoop hs out len ((i - 32) / 4)
              ((i - 32) % 4) (omega arith) (omega arith))
        ∙ ap (byte extracted) {x = 32 + (i - 32) / 4 * 4 + (i - 32) % 4} {y = i} (omega arith)
  ]

  -- After the scatter, the target holds in each scoop of each lane exactly the 64 bytes that the
  -- extraction of this scoop reads from the interleaved buffer, if the buffers have their sizes.
  pub slice-unpack_shuffle_scatter :
      slice
        (unpack_shuffle_scatter source target to vs)
        (scoop_offset (length target / nonce_size) to lane scoop)
        (scoop_offset (length target / nonce_size) to lane scoop + scoop_size)
      ≡ extract_scoop_from_interleaved source vs lane scoop out
  unfolding start
  slice-unpack_shuffle_scatter =
      list-ext 0 _ _ (full ∙ sym (length-extract source vs lane f.lanes in_lane scoop hs out len))
        (λ i h. get_or-slice scattered start (start + 64) i (small i h) ∙ bytes-agree i (less i h))
    where
      full : length (slice scattered start (start + 64)) ≡ 64
      full =
          length-slice scattered start (start + 64) (omega (arith, start-fits, length-scattered))
          ∙ omega arith

      less : (i : ℕ) → i < length (slice scattered start (start + 64)) → i < 64
      less i h = omega (arith, full)

      small : (i : ℕ) → i < length (slice scattered start (start + 64)) → i < start + 64 - start
      small i h = omega (arith, full)

-- The scoops of the nonces that a call does not fill stay.
pub slice-unpack_shuffle_scatter_other :
    (source target : List ℕ) (to vs nonce scoop : ℕ)
    → Fits source (length target) (length target / nonce_size) to vs
    → nonce < length target / nonce_size
    → (nonce < to) ⊎ (to + vs ≤ nonce)
    → scoop < num_scoops
    → slice
        (unpack_shuffle_scatter source target to vs)
        (scoop_offset (length target / nonce_size) 0 nonce scoop)
        (scoop_offset (length target / nonce_size) 0 nonce scoop + scoop_size)
      ≡ slice target
          (scoop_offset (length target / nonce_size) 0 nonce scoop)
          (scoop_offset (length target / nonce_size) 0 nonce scoop + scoop_size)
unfolding unpack_shuffle_scatter
slice-unpack_shuffle_scatter_other source target to vs nonce scoop f in_target other hs =
    list-ext 0 _ _
      (length-slice scattered start (start + 64) (omega (arith, fits, sized))
        ∙ sym (length-slice target start (start + 64) fits))
      (λ i h.
        get_or-slice scattered start (start + 64) i (small i h)
        ∙ ap (byte scattered) {x = start + i} {y = 64 * (scoop * ts) + 64 * nonce + i} (omega arith)
        ∙ scatter-stays source (length target) ts to vs f scoop nonce i in_target
            (omega (arith, small i h)) other target refl
        ∙ ap (byte target) {x = 64 * (scoop * ts) + 64 * nonce + i} {y = start + i} (omega arith)
        ∙ sym (get_or-slice target start (start + 64) i (small i h)))
  where
    ts : ℕ
    ts = length target / nonce_size

    scattered : List ℕ
    scattered = unpack_shuffle_scatter source target to vs

    start : ℕ
    start = scoop_offset ts 0 nonce scoop

    sized : length scattered ≡ length target
    sized = scatter-Sized source (length target) ts to vs f target refl

    fits : start + 64 ≤ length target
    fits =
        omega (arith, f.room, in_target, mul-le-mul_right {m = scoop} {n = 4095} ts (omega arith))

    small : (i : ℕ) → i < length (slice scattered start (start + 64)) → i < start + 64 - start
    small i h =
        omega (arith, length-slice scattered start (start + 64) (omega (arith, fits, sized)))
