-- ===== src/Nonce/Refine.antt =====
-- `plot_nonce` computes the nonce of the plot format, whatever its buffer held before.
use pocx.Base.{
  ℕ, zero, suc, ◌+◌, ◌-◌, ◌*◌, ◌/◌, ◌%◌, ◌≤◌, ◌<◌, ◌≡◌, ◌≢◌, drop-all, refl, ◌∙◌, ap, ap₂, sym,
  subst, List, [], ◌++◌, none, some, length, inl, inr, Bool-cases, length-append, take, drop,
  take-all, slice, splice, length-splice, drop-splice, Below, length-take, append-nil, ==_iff, ◌==◌,
  arith,
}
use pocx.Shabal.Hash.{shabal256}
use pocx.Nonce.{nonce_size, hash_size, hash_cap}
use pocx.Nonce.Generate.{
  t1, t2, t3, pt2, short_round, long_round, rounds_down, hash_rounds, plot_nonce, xor_final,
  short_count, long_count,
}
use pocx.Nonce.Chain.{shabal256_message, base, newest, chain, nonce_bytes}
use pocx.Nonce.Hashes.{newest-Digest, newest-short, newest-long, chain-Sized, chain-last}
use pocx.Nonce.Messages.{base-Below, hash-even, hash-odd, hash-capped}

module _ (payload seed : List ℕ) (nonce : ℕ) (len_payload : length payload ≡ 20)
    (len_seed : length seed ≡ 32) (b_payload : Below 256 payload) (b_seed : Below 256 seed) where
  abbrev id : List ℕ
  id = base payload seed nonce

  id-Below : Below 256 id
  id-Below = base-Below payload seed nonce len_payload len_seed b_payload b_seed

  first : List ℕ
  first = shabal256 [] none (t1 payload seed nonce)

  first-newest : first ≡ newest id 0 (chain id 0)
  unfolding chain first
  first-newest =
      hash-even payload seed nonce len_payload len_seed b_payload b_seed 0 [] (omega arith)
      ∙ sym (newest-short id id-Below 0 (omega arith))

  first-chain : chain id 1 ≡ first
  unfolding chain
  first-chain = append-nil _ ∙ sym first-newest

  -- The buffer after `k` hashes.
  record Holds (k : ℕ) (buffer : List ℕ) : Type 0 where
    size : length buffer ≡ nonce_size
    hashes : drop (nonce_size - 32 * k) buffer ≡ chain id k

  -- Writing the next hash below the others.
  write-Holds :
      (k i : ℕ) (buffer hash : List ℕ)
      → Holds k buffer
      → k < 8192
      → i ≡ nonce_size - 32 * k
      → hash ≡ newest id k (chain id k)
      → Holds (suc k) (splice buffer (i - hash_size) hash)
  unfolding chain
  write-Holds k i buffer hash h lt at_i e = record {
    size = length-splice 0 buffer (i - hash_size) hash (omega (arith, len, h.size)) ∙ h.size;
    hashes =
        ap (λ n. drop n (splice buffer (i - hash_size) hash)) {x = nonce_size - 32 * suc k}
          {y = i - hash_size} (omega arith)
        ∙ drop-splice buffer (i - hash_size) hash (omega (arith, h.size))
        ∙ ap₂ ◌++◌ e (
            ap (λ n. drop n buffer) {x = i - hash_size + length hash} {y = nonce_size - 32 * k}
              (omega (arith, len))
            ∙ h.hashes);
  }
    where
      len : length hash ≡ 32
      len = ap length e ∙ (newest-Digest id id-Below k (chain id k) (chain-Sized id id-Below k).1).0

  slice-all :
      (k i : ℕ) (buffer : List ℕ)
      → Holds k buffer
      → k ≤ 8192
      → i ≡ nonce_size - 32 * k
      → slice buffer i nonce_size ≡ chain id k
  slice-all k i buffer h le at_i =
      ap (λ n. take (nonce_size - i) (drop n buffer)) at_i
      ∙ ap (take (nonce_size - i)) h.hashes
      ∙ take-all (nonce_size - i) (chain id k) (omega (arith, chain-Sized id id-Below k))

  short_round-Holds :
      (k i : ℕ) (buffer : List ℕ)
      → 1 ≤ k
      → k < 128
      → i ≡ nonce_size - 32 * k
      → Holds k buffer
      → Holds (suc k) (short_round payload seed nonce first i buffer)
  unfolding short_round
  short_round-Holds zero i buffer lo up at_i h = absurd (omega arith)
  short_round-Holds (suc k) i buffer lo up at_i h = elim (Bool-cases ((i % 64) == 0)) [
    | inl e ↦
        rw e (write-Holds (suc k) i buffer _ h (omega arith) at_i (even ((==_iff (i % 64) 0).0 e)))
    | inr e ↦ rw e (
        write-Holds (suc k) i buffer _ h (omega arith) at_i
          (odd (λ z. cc (sym e ∙ (==_iff (i % 64) 0).1 z))))
  ]
    where
      all : slice buffer i nonce_size ≡ chain id (suc k)
      all = slice-all (suc k) i buffer h (omega arith) at_i

      short : newest id (suc k) (chain id (suc k)) ≡ shabal256_message (chain id (suc k) ++ id)
      short = newest-short id id-Below (suc k) up

      even :
          i % 64 ≡ 0
          → shabal256 (slice buffer i nonce_size) none (t1 payload seed nonce)
            ≡ newest id (suc k) (chain id (suc k))
      even z =
          ap (λ xs. shabal256 xs none (t1 payload seed nonce)) all
          ∙ hash-even payload seed nonce len_payload len_seed b_payload b_seed (suc k / 2)
              (chain id (suc k)) (omega (arith, chain-Sized id id-Below (suc k)))
          ∙ sym short

      odd :
          i % 64 ≢ 0
          → shabal256 (slice buffer i nonce_size) (some (pt2 seed first)) (t2 payload nonce)
            ≡ newest id (suc k) (chain id (suc k))
      odd z =
          let (front, e, below) = chain-last id id-Below k in
          let split : chain id (suc k) ≡ front ++ first = e ∙ ap (◌++◌ front) first-chain in
          let len : length front ≡ 32 * k = omega (
            arith,
            ap length e,
            length-append front (chain id 1),
            chain-Sized id id-Below (suc k),
            chain-Sized id id-Below 1,
          ) in
          ap (λ xs. shabal256 xs (some (pt2 seed first)) (t2 payload nonce)) (all ∙ split)
          ∙ hash-odd payload seed nonce len_payload len_seed b_payload b_seed (k / 2) front first
              (omega (arith, len))
              (subst (λ xs. length xs ≡ 32) first-chain (chain-Sized id id-Below 1).0) below
              (subst (Below 256) first-chain (chain-Sized id id-Below 1).1)
          ∙ ap (λ xs. shabal256_message (xs ++ id)) (sym split)
          ∙ sym short

  long_round-Holds :
      (k i : ℕ) (buffer : List ℕ)
      → 128 ≤ k
      → k < 8192
      → i ≡ nonce_size - 32 * k
      → Holds k buffer
      → Holds (suc k) (long_round i buffer)
  unfolding long_round
  long_round-Holds k i buffer lo up at_i h = write-Holds k i buffer _ h up at_i (
      ap (λ xs. shabal256 xs none t3) capped
      ∙ hash-capped (take hash_cap (chain id k))
          (omega (arith, length-take hash_cap (chain id k), chain-Sized id id-Below k))
      ∙ sym (newest-long id id-Below k lo))
    where
      capped : slice buffer i (i + hash_cap) ≡ take hash_cap (chain id k)
      capped =
          ap (λ n. take n (drop i buffer)) {x = i + hash_cap - i} {y = hash_cap} (omega arith)
          ∙ ap (λ n. take hash_cap (drop n buffer)) at_i
          ∙ ap (take hash_cap) h.hashes

  rounds_down-Holds :
      (round : ℕ → List ℕ → List ℕ) (n k i : ℕ) (buffer : List ℕ)
      → ((k' i' : ℕ) (b' : List ℕ)
          → k ≤ k'
          → k' < k + n
          → i' ≡ nonce_size - 32 * k'
          → Holds k' b'
          → Holds (suc k') (round i' b'))
      → i ≡ nonce_size - 32 * k
      → Holds k buffer
      → Holds (k + n) (rounds_down round n i buffer)
  unfolding rounds_down
  rounds_down-Holds round zero k i buffer step at_i h =
      subst (λ m. Holds m buffer) {x = k} {y = k + 0} (omega arith) h
  rounds_down-Holds round (suc n) k i buffer step at_i h =
      subst (λ m. Holds m (rounds_down round n (i - hash_size) (round i buffer))) {x = suc k + n}
        {y = k + suc n} (omega arith)
        (rounds_down-Holds round n (suc k) (i - hash_size) (round i buffer)
          (λ k' i' b' lo up. step k' i' b' (omega arith) (omega arith)) (omega arith)
          (step k i buffer (omega arith) (omega arith) at_i h))

  module _ (buffer : List ℕ) (size : length buffer ≡ nonce_size) where
    start-Holds : Holds 0 buffer
    unfolding chain
    start-Holds = record { size = size; hashes = drop-all nonce_size buffer (omega (arith, size)) }

    first-Holds : Holds 1 (splice buffer (nonce_size - hash_size) first)
    first-Holds = write-Holds 0 nonce_size buffer first start-Holds (omega arith) refl first-newest

    rounds-Holds : Holds 8192 (hash_rounds payload seed nonce buffer)
    unfolding hash_rounds first
    rounds-Holds =
        rounds_down-Holds long_round long_count 128 (nonce_size - hash_cap) _
          (λ k i b' lo up at_i h. long_round-Holds k i b' lo (omega arith) at_i h) refl
          (rounds_down-Holds (short_round payload seed nonce first) short_count 1
            (nonce_size - hash_size) _
            (λ k i b' lo up at_i h. short_round-Holds k i b' lo (omega arith) at_i h) refl
            first-Holds)

    hash_rounds-chain : hash_rounds payload seed nonce buffer ≡ chain id 8192
    hash_rounds-chain = rounds-Holds.hashes

  -- The generator fills its buffer with the nonce of the plot format, whatever the buffer held, for
  -- a payload of 20 bytes and a seed of 32.
  pub plot_nonce-nonce_bytes :
      (buffer : List ℕ)
      → length buffer ≡ nonce_size
      → plot_nonce payload seed nonce buffer ≡ nonce_bytes (base payload seed nonce)
  unfolding plot_nonce nonce_bytes
  plot_nonce-nonce_bytes buffer size =
      ap (λ hs. xor_final (shabal256 (slice hs 0 nonce_size) none (t1 payload seed nonce)) 0 hs)
        (hash_rounds-chain buffer size)
      ∙ ap (λ h. xor_final h 0 (chain id 8192))
          (ap (λ xs. shabal256 xs none (t1 payload seed nonce))
              (take-all nonce_size (chain id 8192) (omega (arith, chain-Sized id id-Below 8192)))
            ∙ hash-even payload seed nonce len_payload len_seed b_payload b_seed 4096
                (chain id 8192) (omega (arith, chain-Sized id id-Below 8192)))
