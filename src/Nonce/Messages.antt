-- ===== src/Nonce/Messages.antt =====
-- The three ways in which the generator calls `shabal256`, as hashes of byte strings.
use pocx.Base.{
  ℕ, ◌+◌, ◌-◌, ◌*◌, ◌/◌, ◌<◌, ◌≡◌, ◌∙◌, ap, ap₂, sym, subst, List, [], ◌∷◌, ◌++◌, none, some,
  length, length-append, take, drop, take-append, drop-append, replicate, length-replicate,
  words_of, bytes_of, Below, words_of-append, words_of-Below, length-words_of, bytes_of-append,
  bytes_of-words_of, Below-append, take-Below, drop-Below, length-take, length-drop, u32_mod,
  append_assoc, take-append-drop, replicate-Below, arith,
}
use pocx.Shabal.{initial}
use pocx.Shabal.Hash.{shabal256, shabal256_state, absorb, absorb_pre_term, finish}
use pocx.Shabal.Sizes.{initial-IsValid, Words}
use pocx.Shabal.Cut.{absorb-append, shabal256-pre_term}
use pocx.Shabal.Digest.{shabal256-Digest}
use pocx.Nonce.Generate.{be_bytes, t1, t2, t3, pt2}
use pocx.Nonce.Chain.{shabal256_message, base}

-- Whole blocks and a rest.
pub message-split :
    (m : ℕ) (xs ys : List ℕ)
    → length xs ≡ 64 * m
    → length ys < 64
    → shabal256_message (xs ++ ys)
      ≡ shabal256 xs none (words_of (ys ++ 0x80 ∷ replicate (63 - length ys) 0))
unfolding shabal256_message
message-split m xs ys h small =
    (λ d.
      shabal256 (take (whole d) (xs ++ ys)) none
        (words_of (drop (whole d) (xs ++ ys) ++ 0x80 ∷ replicate (63 - rest d) 0)))
    ∙ ap₂ (λ us vs. shabal256 us none (words_of (vs ++ 0x80 ∷ replicate (63 - length ys) 0)))
        (take-append xs ys) (drop-append xs ys)
  where
    whole : 64 * (length (xs ++ ys) / 64) ≡ length xs
    whole = omega (arith, length-append xs ys)

    rest : length (xs ++ ys) - 64 * (length (xs ++ ys) / 64) ≡ length ys
    rest = omega (arith, length-append xs ys)

-- Bytes after the last whole block do not count.
shabal256-rest :
    (m : ℕ) (xs ys pre term : List ℕ)
    → length xs ≡ 64 * m
    → length ys < 64
    → Below 256 xs
    → shabal256 (xs ++ ys) (some pre) term ≡ shabal256 xs (some pre) term
unfolding shabal256 shabal256_state
shabal256-rest m xs ys pre term h small b =
    ap (λ s. bytes_of (take 8 (drop 8 (finish term (absorb_pre_term (some pre) s)).b)))
      (ap₂ (λ n ws. absorb n ws initial) {x = length (xs ++ ys) / 64} {y = m + 0}
          (omega (arith, length-append xs ys)) (words_of-append (16 * m) xs ys (omega arith))
        ∙ absorb-append m 0 (words_of xs) (words_of ys) initial
            (omega (arith, length-words_of (16 * m) xs (omega arith)))
            (words_of-Below (16 * m) xs b (omega arith)) initial-IsValid
        ∙ unfold absorb in
          ap (λ n. absorb n (words_of xs) initial) {x = m} {y = length xs / 64} (omega arith))

-- The last block, for a rest of `r` bytes.
last_block-length :
    (r : List ℕ) → length r < 64 → length (r ++ 0x80 ∷ replicate (63 - length r) 0) ≡ 64
last_block-length r h = omega (
  arith,
  length-append r (0x80 ∷ replicate (63 - length r) 0),
  length-replicate {A = ℕ} (63 - length r) 0,
)

last_block-Below : (r : List ℕ) → Below 256 r → Below 256 (r ++ 0x80 ∷ replicate (63 - length r) 0)
last_block-Below r b =
    Below-append 256 r _ b (omega arith, replicate-Below 256 (63 - length r) (omega arith))

pub message-Digest :
    (m : List ℕ)
    → Below 256 m
    → (length (shabal256_message m) ≡ 32) × Below 256 (shabal256_message m)
message-Digest m b =
    subst (λ d. (length d ≡ 32) × Below 256 d)
      (sym (
        ap shabal256_message (sym (take-append-drop whole m))
        ∙ message-split (length m / 64) (take whole m) r (omega (arith, length-take whole m))
            small))
      (shabal256-Digest (16 * (length m / 64)) (take whole m) none _
        (omega (arith, length-take whole m)) (take-Below 256 whole m b) tt
        (words_of-Below 16 _ (last_block-Below r (drop-Below 256 whole m b))
          (last_block-length r small)))
  where
    whole : ℕ
    whole = 64 * (length m / 64)

    r : List ℕ
    r = drop whole m

    small : length r < 64
    small = omega (arith, length-drop whole m)

module _ (payload seed : List ℕ) (nonce : ℕ) (len_payload : length payload ≡ 20)
    (len_seed : length seed ≡ 32) (b_payload : Below 256 payload) (b_seed : Below 256 seed) where
  abbrev id : List ℕ
  id = base payload seed nonce

  be_bytes-Below : Below 256 (be_bytes nonce)
  be_bytes-Below = omega arith

  pub base-Below : Below 256 id
  base-Below = Below-append 256 seed _ b_seed (Below-append 256 payload _ b_payload be_bytes-Below)

  pub length-base : length id ≡ 60
  length-base = omega (
    arith,
    length-append seed (payload ++ be_bytes nonce),
    length-append payload (be_bytes nonce),
  )

  t1-words : words_of (id ++ 0x80 ∷ 0 ∷ 0 ∷ 0 ∷ []) ≡ t1 payload seed nonce
  unfolding t1
  t1-words =
      ap words_of (
        append_assoc seed (payload ++ be_bytes nonce) _
        ∙ ap (◌++◌ seed) (append_assoc payload (be_bytes nonce) _))
      ∙ words_of-append 8 seed _ len_seed
      ∙ ap (◌++◌ (words_of seed)) (words_of-append 5 payload _ len_payload)

  t2-words : words_of ((payload ++ be_bytes nonce) ++ 0x80 ∷ replicate 35 0) ≡ t2 payload nonce
  unfolding t2
  t2-words =
      ap words_of (append_assoc payload (be_bytes nonce) _)
      ∙ words_of-append 5 payload _ len_payload

  -- Whole blocks, then the identification.
  pub hash-even :
      (m : ℕ) (xs : List ℕ)
      → length xs ≡ 64 * m
      → shabal256 xs none (t1 payload seed nonce) ≡ shabal256_message (xs ++ id)
  hash-even m xs h = sym (
      message-split m xs id h (omega (arith, length-base))
      ∙ ap (λ n. shabal256 xs none (words_of (id ++ 0x80 ∷ replicate n 0))) {x = 63 - length id}
          {y = 3} (omega (arith, length-base))
      ∙ ap (shabal256 xs none) t1-words)

  -- Whole blocks and one more hash, then the identification.
  pub hash-odd :
      (m : ℕ) (xs hash : List ℕ)
      → length xs ≡ 64 * m
      → length hash ≡ 32
      → Below 256 xs
      → Below 256 hash
      → shabal256 (xs ++ hash) (some (pt2 seed hash)) (t2 payload nonce)
        ≡ shabal256_message ((xs ++ hash) ++ id)
  unfolding pt2
  hash-odd m xs hash h hh bx bh =
      shabal256-rest m xs hash _ _ h (omega arith) bx
      ∙ shabal256-pre_term m xs (words_of hash ++ words_of seed) _ h bx pre-Words
      ∙ ap₂ (λ ms ws. shabal256 ms none ws) message (sym t2-words)
      ∙ sym (
          ap shabal256_message (sym (append_assoc (xs ++ hash) seed (payload ++ be_bytes nonce)))
          ∙ message-split (m + 1) ((xs ++ hash) ++ seed) (payload ++ be_bytes nonce)
              (omega (arith, length-append (xs ++ hash) seed, length-append xs hash))
              (omega (arith, len_rest))
          ∙ ap
              (λ n.
                shabal256 ((xs ++ hash) ++ seed) none
                  (words_of ((payload ++ be_bytes nonce) ++ 0x80 ∷ replicate n 0)))
              {x = 63 - length (payload ++ be_bytes nonce)} {y = 35} (omega (arith, len_rest)))
    where
      len_rest : length (payload ++ be_bytes nonce) ≡ 28
      len_rest = omega (arith, length-append payload (be_bytes nonce))

      message : xs ++ bytes_of (words_of hash ++ words_of seed) ≡ (xs ++ hash) ++ seed
      message =
          ap (◌++◌ xs) (
            bytes_of-append (words_of hash) (words_of seed)
            ∙ ap₂ ◌++◌ (bytes_of-words_of 8 hash hh bh) (bytes_of-words_of 8 seed len_seed b_seed))
          ∙ sym (append_assoc xs hash seed)

      pre-Words : Words 16 (words_of hash ++ words_of seed)
      pre-Words = (
        omega (
          arith,
          length-append (words_of hash) (words_of seed),
          length-words_of 8 hash hh,
          length-words_of 8 seed len_seed,
        ),
        Below-append u32_mod _ _ (words_of-Below 8 hash bh hh)
            (words_of-Below 8 seed b_seed len_seed),
      )

-- `hash_cap` bytes and nothing else.
pub hash-capped :
    (xs : List ℕ) → length xs ≡ 64 * 64 → shabal256 xs none t3 ≡ shabal256_message (xs ++ [])
hash-capped xs h = sym (message-split 64 xs [] h (omega arith))
