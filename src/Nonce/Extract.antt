-- ===== src/Nonce/Extract.antt =====
-- What `extract_scoop_from_interleaved` reads: each byte of its output.
use pocx.Base.{
  ℕ, ◌+◌, ◌-◌, ◌*◌, ◌≤◌, ◌<◌, ◌≡◌, ◌⊎◌, inl, inr, refl, ◌∙◌, ap, subst, List, length,
  for_range-keeps, for_range-hits, arith,
}
use native.Mathlib.Nat.{mul-le-mul_right}
use native.Mathlib.Decide.{dec_lt}
use pocx.Nonce.{copy_word, copy_hash, nonce_size, extract_scoop_from_interleaved, num_scoops}
use pocx.Nonce.Layout.{byte, length-copy_word, copy_word-in, copy_word-out}

module _ (source : List ℕ) (vs lane : ℕ) (lanes : length source ≡ vs * nonce_size)
    (in_lane : lane < vs) where
  abbrev word_at : ℕ → ℕ → ℕ
  word_at h t = (h * 32 + t * 4) * vs + lane * 4

  word_at-fits : (h t : ℕ) → h < 8192 → t < 8 → word_at h t + 4 ≤ length source
  word_at-fits h t hh ht =
      omega (arith, lanes, mul-le-mul_right {m = h * 32 + t * 4} {n = 262140} vs (omega arith))

  module _ (h base : ℕ) (hh : h < 8192) (hb : base ≤ 32) where
    abbrev Full : List ℕ → Type 0
    Full out = length out ≡ 64

    one_word : ℕ → List ℕ → List ℕ
    one_word t out = copy_word source (word_at h t) out (base + t * 4)

    one_word-Full : (t : ℕ) → t < 8 → (out : List ℕ) → Full out → Full (one_word t out)
    unfolding one_word
    one_word-Full t ht out f =
        length-copy_word source _ out _ (word_at-fits h t hh ht) (omega arith) ∙ f

    copy_hash-Full : (out : List ℕ) → Full out → Full (copy_hash source vs lane h base out)
    unfolding copy_hash one_word
    copy_hash-Full =
        for_range-keeps Full one_word 8 0 (λ t lo ht out f. one_word-Full t (omega arith) out f)

    -- Bytes outside the 32 that are written stay.
    copy_hash-out :
        (out : List ℕ)
        → Full out
        → (p : ℕ) → (p < base) ⊎ (base + 32 ≤ p)
        → byte (copy_hash source vs lane h base out) p ≡ byte out p
    unfolding copy_hash one_word
    copy_hash-out out f p side =
        (for_range-keeps (λ (s : List ℕ). Full s × (byte s p ≡ byte out p)) one_word 8 0
          (λ t lo ht s q. (one_word-Full t (omega arith) s q.0, stays t (omega arith) s q.0 ∙ q.1))
          out (f, refl)).1
      where
        stays : (t : ℕ) → t < 8 → (s : List ℕ) → Full s → byte (one_word t s) p ≡ byte s p
        stays t ht s q =
            copy_word-out source _ s _ (word_at-fits h t hh ht) (omega arith) p (apart side)
          where
            apart : (p < base) ⊎ (base + 32 ≤ p) → (p < base + t * 4) ⊎ (base + t * 4 + 4 ≤ p)
            apart (inl a) = inl (omega arith)
            apart (inr a) = inr (omega arith)

    copy_hash-in :
        (t0 r : ℕ)
        → t0 < 8
        → r < 4
        → (out : List ℕ) → Full out
        → byte (copy_hash source vs lane h base out) (base + t0 * 4 + r)
          ≡ byte source (word_at h t0 + r)
    unfolding copy_hash one_word
    copy_hash-in t0 r ht hr =
        for_range-hits Full Arrived one_word 8 0 t0 (omega arith) (omega arith)
          (λ t lo up s q. one_word-Full t (omega arith) s q) keeps
          (λ s q. copy_word-in source _ s _ (word_at-fits h t0 hh ht) (omega arith) r hr)
      where
        Arrived : List ℕ → Type 0
        Arrived s = byte s (base + t0 * 4 + r) ≡ byte source (word_at h t0 + r)

        keeps :
            (t : ℕ) → 0 ≤ t → t < 0 + 8 → (s : List ℕ) → Full s → Arrived s → Arrived (one_word t s)
        keeps t lo up s q a = elim (dec_lt t t0) [
          | yes p ↦ other (inr (omega arith))
          | no np ↦ elim (dec_lt t0 t) [
            | yes p ↦ other (inl (omega arith))
            | no np2 ↦
                subst (λ k. Arrived (one_word k s)) {x = t0} {y = t} (omega arith)
                  (copy_word-in source _ s _ (word_at-fits h t0 hh ht) (omega arith) r hr)
          ]
        ]
          where
            other :
                (base + t0 * 4 + r < base + t * 4) ⊎ (base + t * 4 + 4 ≤ base + t0 * 4 + r)
                → Arrived (one_word t s)
            other side =
                copy_word-out source _ s _ (word_at-fits h t hh (omega arith)) (omega arith) _ side
                ∙ a

  module _ (scoop : ℕ) (hs : scoop < num_scoops) (out : List ℕ) (len : length out ≡ 64) where
    abbrev pub extract : List ℕ
    extract = extract_scoop_from_interleaved source vs lane scoop out

    pub length-extract : length extract ≡ 64
    unfolding extract_scoop_from_interleaved
    length-extract =
        copy_hash-Full ((4095 - scoop) * 2 + 1) 32 (omega arith) (omega arith) _
          (copy_hash-Full (2 * scoop) 0 (omega arith) (omega arith) out len)

    pub extract-first :
        (t r : ℕ)
        → t < 8
        → r < 4
        → byte extract (t * 4 + r) ≡ byte source (word_at (2 * scoop) t + r)
    unfolding extract_scoop_from_interleaved
    extract-first t r ht hr =
        copy_hash-out ((4095 - scoop) * 2 + 1) 32 (omega arith) (omega arith) _
          (copy_hash-Full (2 * scoop) 0 (omega arith) (omega arith) out len) (t * 4 + r)
          (inl (omega arith))
        ∙ ap (byte (copy_hash source vs lane (2 * scoop) 0 out)) {x = t * 4 + r} {y = 0 + t * 4 + r}
            (omega arith)
        ∙ copy_hash-in (2 * scoop) 0 (omega arith) (omega arith) t r ht hr out len

    pub extract-second :
        (t r : ℕ)
        → t < 8
        → r < 4
        → byte extract (32 + t * 4 + r) ≡ byte source (word_at ((4095 - scoop) * 2 + 1) t + r)
    unfolding extract_scoop_from_interleaved
    extract-second t r ht hr =
        copy_hash-in ((4095 - scoop) * 2 + 1) 32 (omega arith) (omega arith) t r ht hr _
          (copy_hash-Full (2 * scoop) 0 (omega arith) (omega arith) out len)
