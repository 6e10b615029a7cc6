-- ===== src/Plotter/Tests.antt =====
-- The theorems about hashing and compression at concrete inputs.
use pocx.Base.{
  ℕ, ◌+◌, ◌*◌, ◌≡◌, inl, some, List, length, length-replicate, replicate, replicate-Below, IsTurns,
  countdown, countdown-IsTurns, arith,
}
use mathlib.Core.Option
use pocx.Nonce.{nonce_size}
use pocx.Nonce.Chain.{base}
use pocx.Nonce.Cache.{nonce_scoop, scoop_at}
use pocx.Quality.{xor_bytes}
use pocx.Plotter.{dim, warp_size, hash_nonces_cpu, helix_compress, helix_compress_xor}
use pocx.Plotter.Hash.{hash_nonces_cpu-nonce_scoop}
use pocx.Plotter.Scoops.{helix_compress-folded, helix_compress_xor-folded, helix_compress_xor-other}

abbrev payload : List ℕ
payload = replicate 20 1

abbrev seed : List ℕ
seed = replicate 32 2

-- Room for 100 nonces.
unfoldable hundred : List ℕ
hundred = replicate (100 * nonce_size) 7

length-hundred : length hundred ≡ 100 * nonce_size
unfolding hundred
length-hundred = length-replicate {A = ℕ} (100 * nonce_size) 7

hash_nonces_cpu-nonce_scoop_example :
    Option.map
      (λ out. scoop_at out 100 65 42)
      (hash_nonces_cpu (countdown 2) hundred payload seed 1337 66)
    ≡ some (nonce_scoop (base payload seed (1337 + 65)) 42)
hash_nonces_cpu-nonce_scoop_example =
    hash_nonces_cpu-nonce_scoop payload seed (omega arith) (omega arith)
      (replicate-Below 256 20 (omega arith)) (replicate-Below 256 32 (omega arith)) 1337 66 100
      (omega arith) (omega arith) (countdown 2) hundred (countdown-IsTurns 2) length-hundred 65 42
      (omega arith) (omega arith)

-- A pair of warps.
unfoldable pair : List ℕ
pair = replicate (2 * warp_size) 5

length-pair : length pair ≡ 2 * warp_size
unfolding pair
length-pair = length-replicate {A = ℕ} (2 * warp_size) 5

-- The order of the threads is irrelevant; here they go down.
unfoldable order : List ℕ
order = countdown dim

order-IsTurns : IsTurns dim order
unfolding order
order-IsTurns = countdown-IsTurns dim

helix_compress-folded_example :
    scoop_at (helix_compress order pair pair 1 1) (2 * dim) ((1 + 0) * dim + 7) 9
    ≡ xor_bytes
        (scoop_at pair (2 * dim) (7 + 0 * dim * 2) 9)
        (scoop_at pair (2 * dim) (0 * dim * 2 + dim + 9) 7)
helix_compress-folded_example =
    helix_compress-folded pair 2 2 1 1 length-pair (omega arith) (omega arith) order order-IsTurns
      pair length-pair 0 7 9 (omega arith) (omega arith) (omega arith)

helix_compress_xor-folded_example :
    scoop_at (helix_compress_xor order pair pair 1 1) (2 * dim) ((1 + 0) * dim + 7) 9
    ≡ xor_bytes (scoop_at pair (2 * dim) ((1 + 0) * dim + 7) 9) (
        xor_bytes
          (scoop_at pair (2 * dim) (7 + 0 * dim * 2) 9)
          (scoop_at pair (2 * dim) (0 * dim * 2 + dim + 9) 7))
helix_compress_xor-folded_example =
    helix_compress_xor-folded pair 2 2 1 1 length-pair (omega arith) (omega arith) order
      order-IsTurns pair length-pair 0 7 9 (omega arith) (omega arith) (omega arith)

helix_compress_xor-other_example :
    scoop_at (helix_compress_xor order pair pair 1 1) (2 * dim) 7 9 ≡ scoop_at pair (2 * dim) 7 9
helix_compress_xor-other_example =
    helix_compress_xor-other pair 2 2 1 1 length-pair (omega arith) (omega arith) order
      order-IsTurns pair length-pair 7 9 (omega arith) (omega arith) (inl (omega arith))
