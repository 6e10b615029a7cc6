-- ===== src/Quality.antt =====
-- pocx_hashlib/src/quality_32.rs and lib.rs: the quality of scoops, and the entry points of the library
-- that compute it. On the targets without vector code `find_best_quality` is `find_best_quality_32` and
-- `generate_nonces` is `generate_nonces_32` behind a size check; these are the ones modelled.
pub mod Best
pub mod Scoop
pub mod Layers
pub mod Xor
pub mod Messages
pub mod Outcome
mod Tests
use pocx.Base.{
  ℕ, zero, suc, ◌+◌, ◌-◌, ◌*◌, ◌/◌, ◌%◌, ◌^◌, min, List, [], ◌∷◌, ◌++◌, none, length, replicate,
  take, drop, slice, get_or, words_of, bit_and, bit_or, bit_xor, for_range, u64_max, u64_mod, ltb,
  leb, ◌==◌, if◌then◌else◌, splice,
}
use pocx.Shabal.Hash.{shabal256, shabal256_lite}
use pocx.Nonce.{scoop_size, num_scoops, nonce_size}
use pocx.Nonce.Generate.{be_bytes, generate_nonces_32, zero_buffer}

-- The message of an error is not modelled, only its kind.
pub data HashError : Type 0 where
  allocation_error buffer_size_error invalid_input hex_decode_error layout_error : HashError
  quality_mismatch : ℕ → ℕ → ℕ → HashError

pub data Result {ℓ} (A : Type ℓ) : Type ℓ where
  ok : A → Result A
  err : HashError → Result A

infixl 5 ◌>>=◌
abbrev pub ◌>>=◌ {ℓ κ} : {A : Type ℓ} {B : Type κ} → Result A → (A → Result B) → Result B
ok a >>= f = f a
err e >>= f = err e

-- The best quality so far and where it was found.
pub record BestQuality : Type 0 where
  pub quality : ℕ
  pub offset : ℕ

-- The quality of scoop `i` of the data.
unfoldable pub quality_at : List ℕ → List ℕ → ℕ → ℕ
quality_at bytes gensig i =
    shabal256_lite (slice bytes (i * scoop_size) (i * scoop_size + scoop_size)) gensig

unfoldable pub best_step : List ℕ → List ℕ → ℕ → BestQuality → BestQuality
best_step bytes gensig i best =
    if leb (i * scoop_size + scoop_size) (length bytes)
    then (if ltb (quality_at bytes gensig i) best.quality
        then record { quality = quality_at bytes gensig i; offset = i }
        else best)
    else best

unfoldable pub find_best_quality_32 : List ℕ → ℕ → List ℕ → BestQuality
find_best_quality_32 bytes number_of_nonces gensig =
    for_range number_of_nonces 0 (best_step bytes gensig) (record { quality = u64_max; offset = 0 })

-- The check of the portable `generate_nonces` counts the offset in bytes.
unfoldable pub generate_nonces : List ℕ → ℕ → List ℕ → List ℕ → ℕ → ℕ → Result (List ℕ)
generate_nonces cache cache_offset payload seed start_nonce num_nonces =
    if ltb (length cache) (cache_offset + num_nonces * nonce_size)
    then err buffer_size_error
    else ok (generate_nonces_32 cache cache_offset payload seed start_nonce num_nonces)

-- `*b1 ^= *b2` along two arrays.
unfoldable pub xor_bytes : List ℕ → List ℕ → List ℕ
xor_bytes [] ys = []
xor_bytes (x ∷ xs) [] = x ∷ xs
xor_bytes (x ∷ xs) (y ∷ ys) = bit_xor x y ∷ xor_bytes xs ys

-- The variables of the loop of `generate_scoop`.
pub record Folding : Type 0 where
  pub result : List ℕ
  pub nonce_buffer : List ℕ

-- Which scoop of which nonce number `i` of the `count` uncompressed ones contributes.
abbrev pub scoop_x : ℕ → ℕ → ℕ → ℕ
scoop_x scoop nonce i = if (i % 2) == 0 then scoop else nonce % num_scoops

-- The operations on `u64` wrap, so this is the value modulo 2^64.
abbrev pub nonce_x : ℕ → ℕ → ℕ → ℕ → ℕ
nonce_x scoop nonce count i =
    ((count * (nonce / num_scoops) + i) * num_scoops
      + (if (i % 2) == 0 then nonce % num_scoops else scoop))
    % u64_mod

unfoldable pub fold_scoops : List ℕ → List ℕ → ℕ → ℕ → ℕ → ℕ → ℕ → Folding → Result Folding
fold_scoops payload seed scoop nonce count zero i f = ok f
fold_scoops payload seed scoop nonce count (suc n) i f =
    generate_nonces f.nonce_buffer 0 payload seed (nonce_x scoop nonce count i) 1 >>= λ buffer.
    fold_scoops payload seed scoop nonce count n (suc i) (record {
      result = xor_bytes f.result (
          slice buffer (scoop_x scoop nonce i * scoop_size)
            (scoop_x scoop nonce i * scoop_size + scoop_size));
      nonce_buffer = buffer;
    })

-- `u64::pow(2, compression)`, which wraps to 0 from 64 on.
abbrev pub pow2 : ℕ → ℕ
pow2 compression = 2 ^ compression % u64_mod

unfoldable pub generate_scoop : List ℕ → List ℕ → ℕ → ℕ → ℕ → Result (List ℕ)
generate_scoop payload seed scoop nonce compression =
    fold_scoops payload seed scoop nonce (pow2 compression) (pow2 compression) 0
      (record { result = replicate scoop_size 0; nonce_buffer = zero_buffer })
    >>= λ f. ok f.result

unfoldable pub calculate_quality_raw : List ℕ → List ℕ → ℕ → ℕ → ℕ → List ℕ → Result ℕ
calculate_quality_raw payload seed nonce compression scoop gensig =
    if leb num_scoops scoop
    then err invalid_input
    else generate_scoop payload seed scoop nonce compression >>= λ s.
        ok (find_best_quality_32 s 1 gensig).quality

-- The digest's byte 30 gives the upper four bits.
unfoldable pub calculate_scoop : ℕ → List ℕ → ℕ
calculate_scoop block_height gensig =
    let hash =
      shabal256 [] none (words_of (gensig ++ (be_bytes block_height ++ 0x80 ∷ replicate 23 0))) in
    bit_or (bit_and (get_or hash 30 0) 15 * 2 ^ 8) (get_or hash 31 0)

unfoldable pub calculate_quality_from_height : List ℕ → List ℕ → ℕ → ℕ → ℕ → List ℕ → Result ℕ
calculate_quality_from_height payload seed nonce compression block_height gensig =
    calculate_quality_raw payload seed nonce compression (calculate_scoop block_height gensig)
      gensig

-- The loop over the compressions from `current` on.
unfoldable pub best_in_range : List ℕ → List ℕ → ℕ → ℕ → List ℕ → ℕ → ℕ → ℕ → Result ℕ
best_in_range payload seed nonce scoop gensig zero current best = ok best
best_in_range payload seed nonce scoop gensig (suc n) current best =
    generate_scoop payload seed scoop nonce current >>= λ s.
    best_in_range payload seed nonce scoop gensig n (suc current)
      (min best (find_best_quality_32 s 1 gensig).quality)

unfoldable pub calculate_best_quality_in_range : List ℕ → List ℕ → ℕ → ℕ → ℕ → ℕ → List ℕ → Result ℕ
calculate_best_quality_in_range payload seed nonce min_compression max_compression block_height
      gensig =
    if ltb max_compression min_compression
    then err invalid_input
    else best_in_range payload seed nonce (calculate_scoop block_height gensig) gensig
        (max_compression + 1 - min_compression) min_compression u64_max

-- For a signature of 32 bytes and a key of 64, which the source asserts.
unfoldable pub calculate_next_generation_signature : List ℕ → List ℕ → List ℕ
calculate_next_generation_signature old public_key =
    shabal256 (old ++ take 32 public_key) none
      (words_of (drop 32 public_key) ++ 0x80 ∷ replicate 7 0)
