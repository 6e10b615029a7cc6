-- ===== src/Nonce/Tests.antt =====
-- The theorems about the nonce generator at concrete inputs.
use pocx.Base.{
  ℕ, ◌+◌, ◌-◌, ◌++◌, ◌*◌, ◌/◌, ◌≤◌, ◌≡◌, refl, ◌∙◌, List, length, length-replicate, replicate,
  replicate-Below, slice, arith, inl,
}
use pocx.Nonce.{nonce_size, scoop_size, unpack_shuffle_scatter, extract_scoop_from_interleaved}
use pocx.Nonce.Generate.{
  zero_buffer, plot_nonce, generate_nonces_32, generate_and_extract_scoop_32, saturating_add,
}
use pocx.Nonce.Chain.{base, nonce_bytes}
use pocx.Nonce.Layout.{Fits}
use pocx.Nonce.Shuffle.{
  scoop_offset, slice-unpack_shuffle_scatter, slice-unpack_shuffle_scatter_other,
}
use pocx.Nonce.Halves.{generate_and_extract_scoop_32-halves}
use pocx.Nonce.Refine.{plot_nonce-nonce_bytes}
use pocx.Nonce.Cache.{nonce_scoop, scoop_at, length-zero_buffer, generate_nonces_32-nonce_scoop}

abbrev payload : List ℕ
payload = replicate 20 1

abbrev seed : List ℕ
seed = replicate 32 2

plot_nonce-nonce_bytes_example :
    plot_nonce payload seed 1337 zero_buffer ≡ nonce_bytes (base payload seed 1337)
plot_nonce-nonce_bytes_example =
    plot_nonce-nonce_bytes payload seed 1337 refl refl (replicate-Below 256 20 (omega arith))
      (replicate-Below 256 32 (omega arith)) zero_buffer length-zero_buffer

generate_and_extract_scoop_32-halves_example :
    generate_and_extract_scoop_32 payload seed 1337 42
    ≡ slice (nonce_bytes (base payload seed 1337)) (64 * 42) (64 * 42 + 32)
      ++ slice
          (nonce_bytes (base payload seed 1337))
          (64 * (4095 - 42) + 32)
          (64 * (4095 - 42) + 64)
generate_and_extract_scoop_32-halves_example =
    generate_and_extract_scoop_32-halves payload seed 1337 42 refl refl
      (replicate-Below 256 20 (omega arith)) (replicate-Below 256 32 (omega arith)) (omega arith)

generate_nonces_32-nonce_scoop_example :
    scoop_at
      (generate_nonces_32 zero_buffer 0 payload seed 1337 1)
      (length zero_buffer / nonce_size)
      0
      42
    ≡ nonce_scoop (base payload seed (saturating_add 1337 0)) 42
generate_nonces_32-nonce_scoop_example =
    generate_nonces_32-nonce_scoop payload seed refl refl (replicate-Below 256 20 (omega arith))
      (replicate-Below 256 32 (omega arith)) zero_buffer 0 1337 1 0 42
      (omega (arith, length-zero_buffer)) (omega arith) (omega arith)

-- A plot of two nonces.
unfoldable two_nonces : List ℕ
two_nonces = replicate (2 * nonce_size) 7

length-two_nonces : length two_nonces ≡ 2 * nonce_size
unfolding two_nonces
length-two_nonces = length-replicate {A = ℕ} (2 * nonce_size) 7

one-Fits :
    (to : ℕ) → to ≤ 1 → Fits zero_buffer (length two_nonces) (length two_nonces / nonce_size) to 1
one-Fits to h = record {
  lanes = length-zero_buffer ∙ omega arith;
  room = omega (arith, length-two_nonces);
  inside = omega (arith, length-two_nonces);
}

slice-unpack_shuffle_scatter_example :
    slice
      (unpack_shuffle_scatter zero_buffer two_nonces 1 1)
      (scoop_offset (length two_nonces / nonce_size) 1 0 42)
      (scoop_offset (length two_nonces / nonce_size) 1 0 42 + scoop_size)
    ≡ extract_scoop_from_interleaved zero_buffer 1 0 42 (replicate 64 0)
slice-unpack_shuffle_scatter_example =
    slice-unpack_shuffle_scatter zero_buffer two_nonces 1 1 0 42 (replicate 64 0)
      (one-Fits 1 (omega arith)) (omega arith) (omega arith) refl

slice-unpack_shuffle_scatter_other_example :
    slice
      (unpack_shuffle_scatter zero_buffer two_nonces 1 1)
      (scoop_offset (length two_nonces / nonce_size) 0 0 42)
      (scoop_offset (length two_nonces / nonce_size) 0 0 42 + scoop_size)
    ≡ slice two_nonces
        (scoop_offset (length two_nonces / nonce_size) 0 0 42)
        (scoop_offset (length two_nonces / nonce_size) 0 0 42 + scoop_size)
slice-unpack_shuffle_scatter_other_example =
    slice-unpack_shuffle_scatter_other zero_buffer two_nonces 1 1 0 42 (one-Fits 1 (omega arith))
      (omega (arith, length-two_nonces)) (inl (omega arith)) (omega arith)
