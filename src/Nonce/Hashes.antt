-- ===== src/Nonce/Hashes.antt =====
-- The sizes of the chain of hashes, and each of its steps as a message.
use pocx.Base.{
  ℕ, zero, suc, ◌*◌, ◌≤◌, ◌<◌, ◌≡◌, refl, ◌∙◌, ap, sym, List, [], ◌++◌, length, Bool, true, false,
  length-append, take, take-all, Below, Below-append, take-Below, append_assoc, lt→ltb, le→ltb,
  if◌then◌else◌, arith,
}
use pocx.Nonce.{hash_size, hash_cap}
use pocx.Nonce.Chain.{shabal256_message, newest, chain}
use pocx.Nonce.Messages.{message-Digest}

module _ (id : List ℕ) (b : Below 256 id) where
  tail-Below : (c : Bool) → Below 256 (if c then id else [])
  tail-Below true = b
  tail-Below false = tt

  pub newest-Digest :
      (k : ℕ) (hashes : List ℕ)
      → Below 256 hashes
      → (length (newest id k hashes) ≡ 32) × Below 256 (newest id k hashes)
  unfolding newest
  newest-Digest k hashes h =
      message-Digest _ (Below-append 256 _ _ (take-Below 256 hash_cap hashes h) (tail-Below _))

  -- `k` hashes are 32 * k bytes.
  pub chain-Sized : (k : ℕ) → (length (chain id k) ≡ 32 * k) × Below 256 (chain id k)
  unfolding chain
  chain-Sized zero = (omega arith, tt)
  chain-Sized (suc k) =
      let rest = chain-Sized k in
      let d = newest-Digest k (chain id k) rest.1 in
      (
        omega (arith, length-append (newest id k (chain id k)) (chain id k), d.0, rest.0),
        Below-append 256 (newest id k (chain id k)) (chain id k) d.1 rest.1,
      )

  -- A short chain is hashed whole.
  pub newest-short :
      (k : ℕ) → k < 128 → newest id k (chain id k) ≡ shabal256_message (chain id k ++ id)
  unfolding newest
  newest-short k h = rw (
    lt→ltb (hash_size * k) hash_cap (omega arith),
    take-all hash_cap (chain id k) (omega (arith, chain-Sized k)),
  )

  pub newest-long :
      (k : ℕ)
      → 128 ≤ k
      → newest id k (chain id k) ≡ shabal256_message (take hash_cap (chain id k) ++ [])
  unfolding newest
  newest-long k h = rw (le→ltb (hash_size * k) hash_cap (omega arith))

  -- The oldest hash stands last.
  pub chain-last :
      (k : ℕ) → (front : List ℕ) × (chain id (suc k) ≡ front ++ chain id 1) × Below 256 front
  unfolding chain
  chain-last zero = ([], refl, tt)
  chain-last (suc k) =
      let (front, e, below) = chain-last k in
      let n = newest id (suc k) (chain id (suc k)) in
      (
        n ++ front,
        ap (◌++◌ n) e ∙ sym (append_assoc n front (chain id 1)),
        Below-append 256 n front
            (newest-Digest (suc k) (chain id (suc k)) (chain-Sized (suc k)).1).1 below,
      )
