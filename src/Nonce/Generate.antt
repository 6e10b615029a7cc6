-- ===== src/Nonce/Generate.antt =====
-- pocx_hashlib/src/noncegen_32.rs and noncegen_batch_32.rs: the scalar nonce generators. Both files
-- spell out the same rounds, which `plot_nonce` models once; `buffer` is what the local array held
-- before. The addition of the nonce numbers saturates at the end of `u64`.
use pocx.Base.{
  ℕ, zero, suc, ◌+◌, ◌-◌, ◌/◌, ◌%◌, ◌^◌, min, List, [], ◌∷◌, ◌++◌, none, some, replicate, slice,
  splice, get_or, words_of, bit_xor, for_range, u64_max, ◌==◌, if◌then◌else◌,
}
use pocx.Shabal.Hash.{shabal256}
use pocx.Nonce.{
  hash_size, hash_cap, nonce_size, scoop_size, unpack_shuffle_scatter,
  extract_scoop_from_interleaved,
}

-- `nonce.to_be()` as bytes in memory.
abbrev pub be_bytes : ℕ → List ℕ
be_bytes n =
    n / 2 ^ 56 % 256
    ∷ n / 2 ^ 48 % 256
    ∷ n / 2 ^ 40 % 256
    ∷ n / 2 ^ 32 % 256
    ∷ n / 2 ^ 24 % 256
    ∷ n / 2 ^ 16 % 256
    ∷ n / 2 ^ 8 % 256
    ∷ n % 256
    ∷ []

-- The termination strings.
unfoldable pub t1 : List ℕ → List ℕ → ℕ → List ℕ
t1 payload seed nonce =
    words_of seed ++ (words_of payload ++ (words_of (be_bytes nonce) ++ 0x80 ∷ []))

unfoldable pub t2 : List ℕ → ℕ → List ℕ
t2 payload nonce = words_of payload ++ (words_of (be_bytes nonce) ++ 0x80 ∷ replicate 8 0)

unfoldable pub pt2 : List ℕ → List ℕ → List ℕ
pt2 seed hash = words_of hash ++ words_of seed

abbrev pub t3 : List ℕ
t3 = 0x80 ∷ replicate 15 0

-- One of the rounds 2 to 128, which hash all that the buffer holds from `i` on.
unfoldable pub short_round : List ℕ → List ℕ → ℕ → List ℕ → ℕ → List ℕ → List ℕ
short_round payload seed nonce first_hash i buffer =
    if (i % 64) == 0
    then splice buffer (i - hash_size)
        (shabal256 (slice buffer i nonce_size) none (t1 payload seed nonce))
    else splice buffer (i - hash_size)
        (shabal256 (slice buffer i nonce_size) (some (pt2 seed first_hash)) (t2 payload nonce))

-- One of the later rounds, which hash the next `hash_cap` bytes.
unfoldable pub long_round : ℕ → List ℕ → List ℕ
long_round i buffer =
    splice buffer (i - hash_size) (shabal256 (slice buffer i (i + hash_cap)) none t3)

-- A loop over `i`, downwards in steps of `hash_size`.
unfoldable pub rounds_down : (ℕ → List ℕ → List ℕ) → ℕ → ℕ → List ℕ → List ℕ
rounds_down round zero i buffer = buffer
rounds_down round (suc n) i buffer = rounds_down round n (i - hash_size) (round i buffer)

-- `buffer[i] ^= final_buffer[i % HASH_SIZE]` from index `i` on.
unfoldable pub xor_final : List ℕ → ℕ → List ℕ → List ℕ
xor_final final i [] = []
xor_final final i (x ∷ xs) = bit_xor x (get_or final (i % hash_size) 0) ∷ xor_final final (suc i) xs

-- The first loop runs from `nonce_size - hash_size` down to `nonce_size - hash_cap + hash_size`,
-- the second from `nonce_size - hash_cap` down to `hash_size`.
abbrev pub short_count : ℕ
short_count = 127

abbrev pub long_count : ℕ
long_count = 8064

unfoldable pub hash_rounds : List ℕ → List ℕ → ℕ → List ℕ → List ℕ
hash_rounds payload seed nonce buffer =
    let hash = shabal256 [] none (t1 payload seed nonce) in
    rounds_down long_round long_count (nonce_size - hash_cap) (
      rounds_down (short_round payload seed nonce hash) short_count (nonce_size - hash_size)
        (splice buffer (nonce_size - hash_size) hash))

unfoldable pub plot_nonce : List ℕ → List ℕ → ℕ → List ℕ → List ℕ
plot_nonce payload seed nonce buffer =
    let hashes = hash_rounds payload seed nonce buffer in
    xor_final (shabal256 (slice hashes 0 nonce_size) none (t1 payload seed nonce)) 0 hashes

abbrev pub saturating_add : ℕ → ℕ → ℕ
saturating_add a b = min (a + b) u64_max

-- The variables of the loop over the nonces.
pub record Plotting : Type 0 where
  pub buffer : List ℕ
  pub cache : List ℕ

-- `let mut buffer = [0u8; NONCE_SIZE]`.
unfoldable pub zero_buffer : List ℕ
zero_buffer = replicate nonce_size 0

unfoldable pub plot_step : List ℕ → List ℕ → ℕ → ℕ → ℕ → Plotting → Plotting
plot_step payload seed start_nonce cache_offset n p =
    let buffer = plot_nonce payload seed (saturating_add start_nonce n) p.buffer in
    record { buffer = buffer; cache = unpack_shuffle_scatter buffer p.cache (cache_offset + n) 1 }

unfoldable pub generate_nonces_32 : List ℕ → ℕ → List ℕ → List ℕ → ℕ → ℕ → List ℕ
generate_nonces_32 cache cache_offset payload seed start_nonce num_nonces =
    (for_range num_nonces 0 (plot_step payload seed start_nonce cache_offset)
      (record { buffer = zero_buffer; cache = cache })).cache

unfoldable pub generate_and_extract_scoop_32 : List ℕ → List ℕ → ℕ → ℕ → List ℕ
generate_and_extract_scoop_32 payload seed nonce scoop =
    extract_scoop_from_interleaved (plot_nonce payload seed nonce zero_buffer) 1 0 scoop
      (replicate scoop_size 0)
