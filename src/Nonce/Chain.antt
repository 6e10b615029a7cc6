-- ===== src/Nonce/Chain.antt =====
-- The nonce as the plot format defines it: 8192 hashes from the last to the first, each of the hashes
-- before it, and the exclusive or with a hash of all. The hash is Shabal256 of a byte string.
use pocx.Base.{
  ℕ, zero, suc, ◌-◌, ◌*◌, ◌/◌, List, [], ◌∷◌, ◌++◌, none, length, take, drop, replicate, words_of,
  ltb, if◌then◌else◌,
}
use pocx.Shabal.Hash.{shabal256}
use pocx.Nonce.{hash_size, hash_cap}
use pocx.Nonce.Generate.{be_bytes, xor_final}

-- Shabal256 of a message: whole blocks, and a last block with the padding.
unfoldable pub shabal256_message : List ℕ → List ℕ
shabal256_message m =
    let whole = 64 * (length m / 64) in
    shabal256 (take whole m) none
      (words_of (drop whole m ++ 0x80 ∷ replicate (63 - (length m - whole)) 0))

-- The bytes that identify a nonce.
abbrev pub base : List ℕ → List ℕ → ℕ → List ℕ
base payload seed nonce = seed ++ (payload ++ be_bytes nonce)

-- The hash that follows `k` hashes: of the newest `hash_cap` bytes, with the identification while all
-- of them count.
unfoldable pub newest : List ℕ → ℕ → List ℕ → List ℕ
newest id k hashes =
    shabal256_message (take hash_cap hashes ++ (if ltb (hash_size * k) hash_cap then id else []))

-- The last `k` hashes, the newest first.
unfoldable pub chain : List ℕ → ℕ → List ℕ
chain id zero = []
chain id (suc k) = newest id k (chain id k) ++ chain id k

unfoldable pub nonce_bytes : List ℕ → List ℕ
nonce_bytes id = xor_final (shabal256_message (chain id 8192 ++ id)) 0 (chain id 8192)
