-- ===== src/Nonce.antt =====
-- pocx_hashlib/src/noncegen_common.rs: the sizes of the plot format, and the two functions that take
-- hashes out of the buffer of a nonce generator, whose `vector_size` lanes are interleaved word by word.
-- Offsets are numbers that do not wrap: buffers are far smaller than 2^64 bytes.
pub mod Layout
pub mod Scatter
pub mod Extract
pub mod Shuffle
pub mod Generate
pub mod Chain
pub mod Messages
pub mod Hashes
pub mod Refine
pub mod Cache
pub mod Frame
pub mod Format
pub mod Halves
mod Tests
use pocx.Base.{
  ℕ, ◌+◌, ◌-◌, ◌*◌, ◌/◌, List, length, get_or, slice, splice, bit_and, for_range, ltb,
  if◌then◌else◌, ◌||◌, replicate,
}

abbrev pub message_size : ℕ
message_size = 16

abbrev pub hash_size : ℕ
hash_size = 32

abbrev pub hash_cap : ℕ
hash_cap = 4096

abbrev pub num_scoops : ℕ
num_scoops = 4096

abbrev pub scoop_size : ℕ
scoop_size = 64

abbrev pub nonce_size : ℕ
nonce_size = num_scoops * scoop_size

-- Copies 4 bytes.
unfoldable pub copy_word : List ℕ → ℕ → List ℕ → ℕ → List ℕ
copy_word source source_offset target target_offset =
    splice target target_offset (slice source source_offset (source_offset + 4))

-- `j` runs over 0, 4, .. 28.
pub copy_hash : List ℕ → ℕ → ℕ → ℕ → ℕ → List ℕ → List ℕ
copy_hash source vector_size lane hash_idx base output =
    for_range 8 0
      (λ t out.
        copy_word source ((hash_idx * 32 + t * 4) * vector_size + lane * 4) out (base + t * 4))
      output

unfoldable pub extract_scoop_from_interleaved : List ℕ → ℕ → ℕ → ℕ → List ℕ → List ℕ
extract_scoop_from_interleaved source vector_size lane scoop output =
    let hash_idx_first = 2 * scoop in
    let hash_idx_second = (4095 - scoop) * 2 + 1 in
    copy_hash source vector_size lane hash_idx_second 32
      (copy_hash source vector_size lane hash_idx_first 0 output)

abbrev pub data_offset : ℕ → ℕ → ℕ → ℕ → ℕ → ℕ
data_offset target_size target_offset i j k =
    (bit_and i 1 * (4095 - i / 2) + bit_and (i + 1) 1 * (i / 2)) * scoop_size * target_size
    + (k + target_offset) * scoop_size
    + bit_and i 1 * 32
    + j

abbrev pub buffer_offset : ℕ → ℕ → ℕ → ℕ → ℕ
buffer_offset vector_size i j k = (i * 32 + j) * vector_size + k * 4

-- The body of the innermost loop.
unfoldable pub scatter_word : List ℕ → ℕ → ℕ → ℕ → ℕ → ℕ → ℕ → List ℕ → List ℕ
scatter_word source target_size target_offset vector_size i j k target =
    if ltb (length target) (data_offset target_size target_offset i j k + 4)
      || ltb (length source) (buffer_offset vector_size i j k + 4)
    then target
    else copy_word source (buffer_offset vector_size i j k) target
        (data_offset target_size target_offset i j k)

unfoldable pub unpack_shuffle_scatter : List ℕ → List ℕ → ℕ → ℕ → List ℕ
unpack_shuffle_scatter source target target_offset vector_size =
    let target_size = length target / nonce_size in
    for_range (num_scoops * 2) 0
      (λ i t1.
        for_range 8 0
          (λ j t2.
            for_range vector_size 0
              (λ k t3. scatter_word source target_size target_offset vector_size i (j * 4) k t3) t2)
          t1)
      target
