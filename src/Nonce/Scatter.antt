-- ===== src/Nonce/Scatter.antt =====
-- `unpack_shuffle_scatter` as a whole: the word that each position of the target ends up with.
use pocx.Base.{
  ℕ, ◌+◌, ◌-◌, ◌*◌, ◌≤◌, ◌<◌, ◌≡◌, ◌≢◌, ◌⊎◌, inl, inr, refl, ◌∙◌, ap, List, length, for_range,
  for_range-keeps, for_range-hits, arith,
}
use native.Mathlib.Decide.{dec_lt}
use pocx.Nonce.{data_offset, buffer_offset, scatter_word}
use pocx.Nonce.Layout.{
  row, data_offset-row, product_unique, byte, data_offset_unique, Fits, length-scatter_word,
  scatter_word-in, scatter_word-out,
}

module _ (source : List ℕ) (size ts to vs : ℕ) (f : Fits source size ts to vs) where
  -- The three loops, from the innermost.
  abbrev lane_loop : ℕ → ℕ → List ℕ → List ℕ
  lane_loop i j t = for_range vs 0 (λ k t3. scatter_word source ts to vs i (j * 4) k t3) t

  abbrev word_loop : ℕ → List ℕ → List ℕ
  word_loop i t = for_range 8 0 (λ j t2. lane_loop i j t2) t

  abbrev Sized : List ℕ → Type 0
  Sized t = length t ≡ size

  lane_loop-Sized : (i j : ℕ) → i < 8192 → j < 8 → (t : List ℕ) → Sized t → Sized (lane_loop i j t)
  lane_loop-Sized i j hi hj =
      for_range-keeps Sized _ vs 0
        (λ k lo hk s q. length-scatter_word source size ts to vs f s q i j k hi hj (omega arith))

  word_loop-Sized : (i : ℕ) → i < 8192 → (t : List ℕ) → Sized t → Sized (word_loop i t)
  word_loop-Sized i hi =
      for_range-keeps Sized _ 8 0 (λ j lo hj s q. lane_loop-Sized i j hi (omega arith) s q)

  module _ (i0 j0 k0 r : ℕ) (hi : i0 < 8192) (hj : j0 < 8) (hk : k0 < vs) (hr : r < 4) where
    -- Byte `r` of one word has arrived.
    abbrev Arrived : List ℕ → Type 0
    Arrived t =
        byte t (data_offset ts to i0 (j0 * 4) k0 + r)
        ≡ byte source (buffer_offset vs i0 (j0 * 4) k0 + r)

    scatter_word-Arrived :
        (i j k : ℕ)
        → i < 8192
        → j < 8
        → k < vs
        → (t : List ℕ) → Sized t
        → Arrived t
        → Arrived (scatter_word source ts to vs i (j * 4) k t)
    scatter_word-Arrived i j k pi pj pk t q a = elim (dec_lt p o) [
      | yes h ↦ scatter_word-out source size ts to vs f t q i j k pi pj pk p (inl h) ∙ a
      | no nh ↦ elim (dec_lt p (o + 4)) [
        | yes h ↦ inside (omega arith) (omega arith)
        | no nh2 ↦
            scatter_word-out source size ts to vs f t q i j k pi pj pk p (inr (omega arith)) ∙ a
      ]
    ]
      where
        p : ℕ
        p = data_offset ts to i0 (j0 * 4) k0 + r

        o : ℕ
        o = data_offset ts to i (j * 4) k

        inside : o ≤ p → p < o + 4 → Arrived (scatter_word source ts to vs i (j * 4) k t)
        inside lo up =
            ap (byte (scatter_word source ts to vs i (j * 4) k t)) {x = p} {y = o + (p - o)}
              (omega arith)
            ∙ scatter_word-in source size ts to vs f t q i j k pi pj pk (p - o) (omega arith)
            ∙ λ d. byte source (buffer_offset vs (same.0 d) (same.1 d * 4) (same.2 d) + same.3 d)
          where
            same : (i ≡ i0) × (j ≡ j0) × (k ≡ k0) × (p - o ≡ r)
            same =
                data_offset_unique ts to i j k i0 j0 k0 (p - o) r pi hi pj hj (omega arith) hr
                  (omega (arith, f.inside)) (omega (arith, f.inside)) (omega arith)

    lane_loop-Arrived :
        (i j : ℕ)
        → i < 8192
        → j < 8
        → (t : List ℕ) → Sized t
        → Arrived t
        → Arrived (lane_loop i j t)
    lane_loop-Arrived i j pi pj t q a =
        (for_range-keeps (λ (s : List ℕ). Sized s × Arrived s) _ vs 0
          (λ k lo pk s h. (
            length-scatter_word source size ts to vs f s h.0 i j k pi pj (omega arith),
            scatter_word-Arrived i j k pi pj (omega arith) s h.0 h.1,
          ))
          t (q, a)).1

    word_loop-Arrived :
        (i : ℕ) → i < 8192 → (t : List ℕ) → Sized t → Arrived t → Arrived (word_loop i t)
    word_loop-Arrived i pi t q a =
        (for_range-keeps (λ (s : List ℕ). Sized s × Arrived s) _ 8 0
          (λ j lo pj s h. (
            lane_loop-Sized i j pi (omega arith) s h.0,
            lane_loop-Arrived i j pi (omega arith) s h.0 h.1,
          ))
          t (q, a)).1

    lane_loop-hits : (t : List ℕ) → Sized t → Arrived (lane_loop i0 j0 t)
    lane_loop-hits =
        for_range-hits Sized Arrived _ vs 0 k0 (omega arith) (omega arith)
          (λ k lo pk s q.
            length-scatter_word source size ts to vs f s q i0 j0 k hi hj (omega arith))
          (λ k lo pk s q a. scatter_word-Arrived i0 j0 k hi hj (omega arith) s q a)
          (λ s q. scatter_word-in source size ts to vs f s q i0 j0 k0 hi hj hk r hr)

    word_loop-hits : (t : List ℕ) → Sized t → Arrived (word_loop i0 t)
    word_loop-hits =
        for_range-hits Sized Arrived _ 8 0 j0 (omega arith) (omega arith)
          (λ j lo pj s q. lane_loop-Sized i0 j hi (omega arith) s q)
          (λ j lo pj s q a. lane_loop-Arrived i0 j hi (omega arith) s q a) lane_loop-hits

    pub scatter-hits : (t : List ℕ) → Sized t → Arrived (for_range 8192 0 word_loop t)
    scatter-hits =
        for_range-hits Sized Arrived word_loop 8192 0 i0 (omega arith) (omega arith)
          (λ i lo pi s q. word_loop-Sized i (omega arith) s q)
          (λ i lo pi s q a. word_loop-Arrived i (omega arith) s q a) word_loop-hits

  pub scatter-Sized : (t : List ℕ) → Sized t → Sized (for_range 8192 0 word_loop t)
  scatter-Sized =
      for_range-keeps Sized word_loop 8192 0 (λ i lo pi s q. word_loop-Sized i (omega arith) s q)

  -- The bytes of the other nonces in the target stay.
  module _ (row0 nonce0 q : ℕ) (hn : nonce0 < ts) (hq : q < 64)
      (other : (nonce0 < to) ⊎ (to + vs ≤ nonce0)) where
    abbrev position : ℕ
    position = 64 * (row0 * ts) + 64 * nonce0 + q

    scatter_word-stays :
        (i j k : ℕ)
        → i < 8192
        → j < 8
        → k < vs
        → (t : List ℕ) → Sized t
        → byte (scatter_word source ts to vs i (j * 4) k t) position ≡ byte t position
    scatter_word-stays i j k pi pj pk t len =
        scatter_word-out source size ts to vs f t len i j k pi pj pk position
          (apart (dec_lt position o) (dec_lt position (o + 4)))
      where
        o : ℕ
        o = data_offset ts to i (j * 4) k

        elsewhere : k + to ≢ nonce0
        elsewhere e = elim other [ inl h ↦ absurd (omega arith) | inr h ↦ absurd (omega arith) ]

        overlap : o ≤ position → position < o + 4 → ⊥
        overlap lo up =
            elsewhere
              (product_unique (row i) row0 (k + to) nonce0 ts (omega (arith, f.inside)) hn
                (omega (arith, data_offset-row ts to i (j * 4) k))).1

        apart : Dec (position < o) → Dec (position < o + 4) → (position < o) ⊎ (o + 4 ≤ position)
        apart (yes h) d = inl h
        apart (no h) (yes h') = absurd (overlap (omega arith) h')
        apart (no h) (no h') = inr (omega arith)

    pub scatter-stays :
        (t : List ℕ) → Sized t → byte (for_range 8192 0 word_loop t) position ≡ byte t position
    scatter-stays t0 len =
        (for_range-keeps Same word_loop 8192 0
          (λ i lo pi s h.
            for_range-keeps Same _ 8 0
              (λ j lo' pj s' h'.
                for_range-keeps Same _ vs 0
                  (λ k lo'' pk s'' h''. (
                    length-scatter_word source size ts to vs f s'' h''.0 i j k (omega arith)
                        (omega arith) (omega arith),
                    scatter_word-stays i j k (omega arith) (omega arith) (omega arith) s'' h''.0
                        ∙ h''.1,
                  ))
                  s' h')
              s h)
          t0 (len, refl)).1
      where
        Same : List ℕ → Type 0
        Same s = Sized s × (byte s position ≡ byte t0 position)
