-- ===== src/Quality/Outcome.antt =====
-- The outcomes of the entry points that compute qualities, errors included.
use pocx.Base.{
  ℕ, zero, suc, ◌+◌, ◌-◌, ◌*◌, ◌≤◌, ◌<◌, ◌≡◌, ◌⊎◌, inl, inr, refl, ◌∙◌, ap, subst, List, ◌++◌,
  length, slice, min, take-all, Below, Below-append, u32_mod, u64_max, gt→leb, lt→ltb, le→ltb,
  get_or-Below, words_of, words_of-Below, arith, Bool-cases, leb→gt, leb, if◌then◌else◌,
}
use native.Mathlib.Decide.{dec_lt}
use pocx.Shabal.Hash.{shabal256_lite}
use pocx.Shabal.Lite.{first_u64}
use pocx.Nonce.{num_scoops, scoop_size}
use pocx.Nonce.Chain.{shabal256_message}
use pocx.Nonce.Messages.{message-Digest}
use pocx.Quality.{
  ok, err, invalid_input, ◌>>=◌, quality_at, find_best_quality_32, calculate_quality_raw,
  calculate_scoop, calculate_quality_from_height, best_in_range, calculate_best_quality_in_range,
  generate_scoop,
}
use pocx.Quality.Best.{find_best_quality_32-IsBest}
use pocx.Quality.Scoop.{compressed_scoop, generate_scoop-compressed_scoop, compressed_scoop-Sized}
use pocx.Quality.Messages.{shabal256_lite-message, calculate_scoop-lt}

-- The quality of a scoop by the rules: the first `u64` of a hash.
unfoldable pub quality_of : List ℕ → List ℕ → ℕ
quality_of scoop_bytes gensig = first_u64 (shabal256_message (gensig ++ scoop_bytes))

first_u64-lt :
    (digest : List ℕ) → length digest ≡ 32 → Below 256 digest → first_u64 digest ≤ u64_max
first_u64-lt digest h b =
    let ws = words_of-Below 8 digest b h in
    omega (
      arith,
      get_or-Below u32_mod (words_of digest) 0 (omega arith) ws,
      get_or-Below u32_mod (words_of digest) 1 (omega arith) ws,
    )

module _ (gensig : List ℕ) (len_gensig : length gensig ≡ 32) (b_gensig : Below 256 gensig) where
  pub quality_of-bound : (s : List ℕ) → Below 256 s → quality_of s gensig ≤ u64_max
  unfolding quality_of
  quality_of-bound s b =
      let d = message-Digest (gensig ++ s) (Below-append 256 gensig s b_gensig b) in
      first_u64-lt (shabal256_message (gensig ++ s)) d.0 d.1

  quality_at-quality_of :
      (s : List ℕ) (i : ℕ)
      → length s ≡ 64
      → Below 256 s
      → i ≡ 0
      → quality_at s gensig i ≡ quality_of s gensig
  unfolding quality_at quality_of
  quality_at-quality_of s i h b e =
      ap (λ k. shabal256_lite (slice s (k * scoop_size) (k * scoop_size + scoop_size)) gensig) e
      ∙ ap (λ t. shabal256_lite t gensig) (take-all 64 s (omega arith))
      ∙ shabal256_lite-message s gensig h len_gensig b b_gensig

  -- The search in one scoop computes its quality.
  pub find_best_quality_32-one :
      (s : List ℕ)
      → length s ≡ 64
      → Below 256 s
      → (find_best_quality_32 s 1 gensig).quality ≡ quality_of s gensig
  find_best_quality_32-one s h b =
      let best = find_best_quality_32-IsBest s gensig 1 in
      elim best.found [
        | inl (e, at_zero) ↦ omega (
          arith,
          e,
          best.lower 0 (omega arith) (omega arith),
          quality_at-quality_of s 0 h b refl,
          quality_of-bound s b,
        )
        | inr (lt, inside, e, first) ↦ e ∙ quality_at-quality_of s _ h b (omega arith)
      ]

module _ (payload seed gensig : List ℕ) (len_payload : length payload ≡ 20)
    (len_seed : length seed ≡ 32) (len_gensig : length gensig ≡ 32) (b_payload : Below 256 payload)
    (b_seed : Below 256 seed) (b_gensig : Below 256 gensig) (nonce : ℕ) where
  -- The quality by the rules of a compressed nonce.
  abbrev pub nonce_quality : ℕ → ℕ → ℕ
  nonce_quality compression scoop =
      quality_of (compressed_scoop payload seed scoop nonce compression) gensig

  scoop_quality :
      (compression scoop : ℕ)
      → scoop < num_scoops
      → (find_best_quality_32
          (compressed_scoop payload seed scoop nonce compression)
          1
          gensig).quality
        ≡ nonce_quality compression scoop
  scoop_quality compression scoop hs =
      let s =
        compressed_scoop-Sized payload seed len_payload len_seed b_payload b_seed scoop nonce hs
          compression in
      find_best_quality_32-one gensig len_gensig b_gensig _ s.0 s.1

  -- For a payload of 20 bytes, a seed and a generation signature of 32: a scoop number from 4096 on is
  -- an invalid input, and any other gives the quality by the rules of the compressed scoop.
  pub calculate_quality_raw-outcomes :
      (compression scoop : ℕ)
      → calculate_quality_raw payload seed nonce compression scoop gensig
        ≡ (if leb num_scoops scoop then err invalid_input else ok (nonce_quality compression scoop))
  unfolding calculate_quality_raw
  calculate_quality_raw-outcomes compression scoop = elim (Bool-cases (leb num_scoops scoop)) [
    | inl e ↦ rw e refl
    | inr e ↦ rw e (right (omega (arith, leb→gt num_scoops scoop e)))
  ]
    where
      right :
          scoop < num_scoops
          → (generate_scoop payload seed scoop nonce compression >>= λ s.
              ok (find_best_quality_32 s 1 gensig).quality)
            ≡ ok (nonce_quality compression scoop)
      right hs =
          ap (λ r. r >>= λ s. ok (find_best_quality_32 s 1 gensig).quality)
            (generate_scoop-compressed_scoop payload seed len_payload len_seed b_payload b_seed
              scoop nonce hs compression)
          ∙ ap ok (scoop_quality compression scoop hs)

  -- The quality at a height is always that by the rules of the height's scoop, for a payload of 20
  -- bytes, a seed and a generation signature of 32.
  pub calculate_quality_from_height-quality :
      (compression block_height : ℕ)
      → calculate_quality_from_height payload seed nonce compression block_height gensig
        ≡ ok (nonce_quality compression (calculate_scoop block_height gensig))
  unfolding calculate_quality_from_height
  calculate_quality_from_height-quality compression height =
      calculate_quality_raw-outcomes compression (calculate_scoop height gensig)
      ∙ rw (gt→leb num_scoops (calculate_scoop height gensig) (calculate_scoop-lt height gensig))
          refl

  module _ (scoop : ℕ) (hs : scoop < num_scoops) where
    -- What the loop over `n` compressions makes of the best quality before it.
    record IsLeast (n current before after : ℕ) : Type 0 where
      below : after ≤ before
      lower : (c : ℕ) → current ≤ c → c < current + n → after ≤ nonce_quality c scoop
      found :
          (after ≡ before)
          ⊎ ((c : ℕ) × (current ≤ c) × (c < current + n) × (after ≡ nonce_quality c scoop))

    best_in_range-IsLeast :
        (n current before : ℕ)
        → (after : ℕ) × (best_in_range payload seed nonce scoop gensig n current before ≡ ok after)
          × IsLeast n current before after
    unfolding best_in_range
    best_in_range-IsLeast zero current before = (
      before,
      refl,
      record { below = omega arith; lower = λ c lo hi. absurd (omega arith); found = inl refl },
    )
    best_in_range-IsLeast (suc n) current before =
        let q = nonce_quality current scoop in
        let (after, e, least) = best_in_range-IsLeast n (suc current) (min before q) in
        (
          after,
          ap
                (λ r. r >>= λ s.
                  best_in_range payload seed nonce scoop gensig n (suc current)
                    (min before (find_best_quality_32 s 1 gensig).quality))
                (generate_scoop-compressed_scoop payload seed len_payload len_seed b_payload b_seed
                  scoop nonce hs current)
              ∙ ap
                  (λ v.
                    best_in_range payload seed nonce scoop gensig n (suc current) (min before v))
                  (scoop_quality current scoop hs)
              ∙ e,
          record {
            below = omega (arith, least.below);
            lower = λ c lo hi. elim (dec_lt current c) [
              | yes p ↦ least.lower c (omega arith) (omega arith)
              | no np ↦
                  subst (λ k. after ≤ nonce_quality k scoop) {x = current} {y = c} (omega arith)
                    (omega (arith, least.below))
            ];
            found = elim least.found [
              | inl same ↦ elim (dec_lt before q) [
                | yes p ↦ inl (omega (arith, same))
                | no np ↦ inr (current, omega arith, omega arith, omega (arith, same))
              ]
              | inr (c, lo, hi, at_c) ↦ inr (c, omega arith, omega arith, at_c)
            ];
          },
        )

  -- An empty range of compressions is an invalid input. Otherwise the outcome is the least quality by
  -- the rules in the range, and one of them has it, for a payload of 20 bytes, a seed and a
  -- generation signature of 32.
  pub calculate_best_quality_in_range-outcomes :
      (min_compression max_compression block_height : ℕ)
      → (max_compression < min_compression
          → calculate_best_quality_in_range payload seed nonce min_compression max_compression
              block_height gensig
            ≡ err invalid_input)
        × (min_compression ≤ max_compression
            → (best : ℕ) × (calculate_best_quality_in_range payload seed nonce min_compression
                  max_compression block_height gensig
                ≡ ok best)
              × ((c : ℕ)
                  → min_compression ≤ c
                  → c ≤ max_compression
                  → best ≤ nonce_quality c (calculate_scoop block_height gensig))
              × ((c : ℕ) × (min_compression ≤ c)
                  × (c ≤ max_compression)
                  × (best ≡ nonce_quality c (calculate_scoop block_height gensig))))
  unfolding calculate_best_quality_in_range
  calculate_best_quality_in_range-outcomes lo hi height = (λ bad. rw (lt→ltb hi lo bad) refl, right)
    where
      scoop : ℕ
      scoop = calculate_scoop height gensig

      bounded : (c : ℕ) → nonce_quality c scoop ≤ u64_max
      bounded c =
          quality_of-bound gensig len_gensig b_gensig _
            (compressed_scoop-Sized payload seed len_payload len_seed b_payload b_seed scoop nonce
              (calculate_scoop-lt height gensig) c).1

      right :
          lo ≤ hi
          → (best : ℕ) × (calculate_best_quality_in_range payload seed nonce lo hi height gensig
              ≡ ok best)
            × ((c : ℕ) → lo ≤ c → c ≤ hi → best ≤ nonce_quality c scoop)
            × ((c : ℕ) × (lo ≤ c) × (c ≤ hi) × (best ≡ nonce_quality c scoop))
      right h =
          let (best, e, least) =
            best_in_range-IsLeast scoop (calculate_scoop-lt height gensig) (hi + 1 - lo) lo
              u64_max in
          (
            best,
            rw (le→ltb hi lo h) e,
            λ c l u. least.lower c l (omega arith),
            elim least.found [
              | inl same ↦ (
                lo,
                omega arith,
                h,
                omega (arith, same, bounded lo, least.lower lo (omega arith) (omega arith)),
              )
              | inr (c, l, u, at_c) ↦ (c, l, omega arith, at_c)
            ],
          )
