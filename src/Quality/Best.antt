-- ===== src/Quality/Best.antt =====
-- `find_best_quality_32`: the least quality, and the first scoop that has it.
use pocx.Base.{
  ℕ, suc, ◌+◌, ◌*◌, ◌≤◌, ◌<◌, ◌≡◌, ◌⊎◌, inl, inr, refl, subst, leb→le, ltb→lt, ltb→le, leb→gt, List,
  length, for_range-counts, u64_max, arith, Bool-cases, leb, ltb,
}
use native.Mathlib.Decide.{dec_lt}
use pocx.Nonce.{scoop_size}
use pocx.Quality.{BestQuality, quality_at, best_step, find_best_quality_32}

module _ (bytes gensig : List ℕ) where
  -- Scoop `i` lies in the data.
  abbrev pub Inside : ℕ → Type 0
  Inside i = i * scoop_size + scoop_size ≤ length bytes

  -- `best` is the outcome of a search through the scoops below `n`.
  pub record IsBest (n : ℕ) (best : BestQuality) : Type 0 where
    pub lower : (i : ℕ) → i < n → Inside i → best.quality ≤ quality_at bytes gensig i
    pub bounded : best.quality ≤ u64_max
    pub found :
        ((best.quality ≡ u64_max) × (best.offset ≡ 0))
        ⊎ ((best.offset < n)
            × Inside best.offset
            × (best.quality ≡ quality_at bytes gensig best.offset)
            × ((i : ℕ) → i < best.offset → Inside i → best.quality < quality_at bytes gensig i))

  lower-suc :
      (n q : ℕ)
      → ((i : ℕ) → i < n → Inside i → q ≤ quality_at bytes gensig i)
      → (Inside n → q ≤ quality_at bytes gensig n)
      → (i : ℕ) → i < suc n
      → Inside i
      → q ≤ quality_at bytes gensig i
  lower-suc n q below here i lt inside = elim (dec_lt i n) [
    | yes p ↦ below i p inside
    | no np ↦
        let e : n ≡ i = omega arith in
        subst (λ k. q ≤ quality_at bytes gensig k) e
          (here (subst Inside {x = i} {y = n} (omega arith) inside))
  ]

  keep-IsBest :
      (n : ℕ) (best : BestQuality)
      → (Inside n → best.quality ≤ quality_at bytes gensig n)
      → IsBest n best
      → IsBest (suc n) best
  keep-IsBest n best here h = record {
    lower = lower-suc n best.quality h.lower here;
    bounded = h.bounded;
    found = elim h.found [
      | inl nothing ↦ inl nothing
      | inr (lt, inside, e, first) ↦ inr (omega arith, inside, e, first)
    ];
  }

  better-IsBest :
      (n : ℕ) (best : BestQuality)
      → Inside n
      → quality_at bytes gensig n < best.quality
      → IsBest n best
      → IsBest (suc n) (record { quality = quality_at bytes gensig n; offset = n })
  better-IsBest n best inside lt h = record {
    lower = lower-suc n _ (λ i li ii. omega (arith, h.lower i li ii)) (λ _. omega arith);
    bounded = omega (arith, h.bounded);
    found = inr (omega arith, inside, refl, λ i li ii. omega (arith, h.lower i li ii));
  }

  best_step-IsBest :
      (n : ℕ) (best : BestQuality) → IsBest n best → IsBest (suc n) (best_step bytes gensig n best)
  unfolding best_step
  best_step-IsBest n best h = elim (Bool-cases (leb (n * scoop_size + scoop_size) (length bytes))) [
    | inl e ↦ elim (Bool-cases (ltb (quality_at bytes gensig n) best.quality)) [
      | inl better ↦ rw (e, better) (better-IsBest n best (leb→le _ _ e) (ltb→lt _ _ better) h)
      | inr worse ↦ rw (e, worse) (keep-IsBest n best (λ _. ltb→le _ _ worse) h)
    ]
    | inr e ↦ rw e (keep-IsBest n best (λ inside. absurd (leb→gt _ _ e inside)) h)
  ]

  -- The search returns the least quality of the scoops that lie in the data, and the first scoop that
  -- has it; `u64::MAX` and 0 if no scoop is below that.
  pub find_best_quality_32-IsBest :
      (number_of_nonces : ℕ)
      → IsBest number_of_nonces (find_best_quality_32 bytes number_of_nonces gensig)
  unfolding find_best_quality_32
  find_best_quality_32-IsBest n =
      for_range-counts IsBest _ n 0 n (omega arith) (λ k lo hi s. best_step-IsBest k s) _
        (record {
          lower = λ i li. absurd (omega arith);
          bounded = omega arith;
          found = inl (refl, refl);
        })
