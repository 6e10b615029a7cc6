-- ===== src/Plotter.antt =====
-- pocx_plotter_v2/src/cpu_hasher.rs and cpu_compressor.rs: what the threads of the plotter without a GPU
-- do to the buffers. The threads of a pool write disjoint parts of a buffer, so each is one step, and the
-- order in which they take their turns is an argument. A call whose `expect` panics gives `none`.
pub mod Cells
pub mod Helix
pub mod Scoops
pub mod Hash
pub mod Warp
mod Tests
use pocx.Base.{
  ℕ, zero, suc, ◌+◌, ◌-◌, ◌*◌, ◌/◌, ◌%◌, ◌^◌, min, List, [], ◌∷◌, Option, none, some, Bool, true,
  false, ◌&&◌, length, get_or, set, replicate, bit_xor, for_range, run, ltb, ◌==◌, if◌then◌else◌,
  u64_mod,
}
use pocx.Nonce.{num_scoops, scoop_size, nonce_size}
use pocx.Quality.{Result, ok, err, generate_nonces}

abbrev pub dim : ℕ
dim = 4096

abbrev pub double_hash_size : ℕ
double_hash_size = 64

abbrev pub warp_size : ℕ
warp_size = dim * nonce_size

abbrev pub cpu_task_size : ℕ
cpu_task_size = 64

abbrev pub compress_batch : ℕ
compress_batch = 8192

-- Byte `z` of scoop `y` of nonce `n` in a buffer for `warps` warps.
abbrev pub cell : ℕ → ℕ → ℕ → ℕ → ℕ
cell warps y n z = y * warps * dim * double_hash_size + n * double_hash_size + z

abbrev pub both_bytes : List ℕ → ℕ → ℕ → ℕ
both_bytes source si mi = bit_xor (get_or source si 0) (get_or source mi 0)

-- The body of the innermost loop; `put` makes the new byte of the old one and of what is computed.
unfoldable pub helix_byte : (ℕ → ℕ → ℕ) → List ℕ → ℕ → ℕ → ℕ → ℕ → ℕ → List ℕ → List ℕ
helix_byte put source warp_offset y x w z target =
    let source_warps = length source / warp_size in
    let target_warps = length target / warp_size in
    let si = cell source_warps y (x + w * dim * 2) z in
    let mi = cell source_warps x (w * dim * 2 + dim + y) z in
    let ti = cell target_warps y ((warp_offset + w) * dim + x) z in
    if ltb si (length source) && ltb mi (length source) && ltb ti (length target)
    then set target ti (put (get_or target ti 0) (both_bytes source si mi))
    else target

-- What the thread for scoop `y` does.
unfoldable pub helix_row : (ℕ → ℕ → ℕ) → List ℕ → ℕ → ℕ → ℕ → List ℕ → List ℕ
helix_row put source warp_offset output_len y target =
    for_range dim 0
      (λ x t1.
        for_range output_len 0
          (λ w t2.
            for_range double_hash_size 0 (λ z t3. helix_byte put source warp_offset y x w z t3) t2)
          t1)
      target

-- `target[ti] = v`.
abbrev pub put_over : ℕ → ℕ → ℕ
put_over old v = v

unfoldable pub helix_compress : List ℕ → List ℕ → List ℕ → ℕ → ℕ → List ℕ
helix_compress order source target warp_offset output_len =
    run (helix_row put_over source warp_offset output_len) order target

-- `target[ti] ^= v`.
unfoldable pub helix_compress_xor : List ℕ → List ℕ → List ℕ → ℕ → ℕ → List ℕ
helix_compress_xor order source target warp_offset output_len =
    run (helix_row bit_xor source warp_offset output_len) order target

abbrev pub expect : Result (List ℕ) → Option (List ℕ)
expect (ok buffer) = some buffer
expect (err e) = none

-- Task `t` of a call: the nonces from `t * cpu_task_size` on.
unfoldable pub hash_task : List ℕ → List ℕ → ℕ → ℕ → ℕ → Option (List ℕ) → Option (List ℕ)
hash_task payload seed start_nonce num_nonces t none = none
hash_task payload seed start_nonce num_nonces t (some buffer) =
    let offset = t * cpu_task_size in
    expect (
      generate_nonces buffer offset payload seed ((start_nonce + offset) % u64_mod)
        (min cpu_task_size (num_nonces - offset)))

-- How many tasks `while offset < num_nonces` spawns.
abbrev pub num_tasks : ℕ → ℕ
num_tasks num_nonces = (num_nonces + (cpu_task_size - 1)) / cpu_task_size

unfoldable pub hash_nonces_cpu : List ℕ → List ℕ → List ℕ → List ℕ → ℕ → ℕ → Option (List ℕ)
hash_nonces_cpu order scatter_buf payload seed start_nonce num_nonces =
    run (hash_task payload seed start_nonce num_nonces) order (some scatter_buf)

-- The use in the scheduler: the first pass of a warp overwrites, the others add.
unfoldable pub compress_pass : List ℕ → List ℕ → List ℕ → ℕ → ℕ → List ℕ
compress_pass order source target slot pass =
    if pass == 0
    then helix_compress order source target slot 1
    else helix_compress_xor order source target slot 1
