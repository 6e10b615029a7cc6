-- ===== src/Plotfile.antt =====
-- pocx_plotfile/src/lib.rs: the offsets, the reads and the resume marker of an open plot file. The file
-- is its bytes; a read past the end is an I/O error, a write past it lets the file grow. Opening it
-- again with or without direct I/O does not change the bytes, and other faults of a device are not
-- modelled. The products of `u64` saturate or wrap as in the source.
pub mod Offsets
pub mod Read
pub mod Resume
pub mod Write
pub mod Slices
pub mod Written
pub mod Store
mod Tests
use pocx.Base.{
  ℕ, ◌+◌, ◌-◌, ◌*◌, ◌/◌, ◌%◌, ◌^◌, min, List, [], ◌∷◌, ◌++◌, Option, none, some, length, replicate,
  slice, splice, get_or, u64_max, u64_mod, u32_mod, Bool, true, false, ltb, leb, ◌==◌, ◌&&◌,
  if◌then◌else◌,
}
use pocx.Nonce.{num_scoops, scoop_size, nonce_size}

abbrev pub warp_size : ℕ
warp_size = num_scoops * nonce_size

abbrev pub resume_magic : List ℕ
resume_magic = 0xAF ∷ 0xFE ∷ 0xAF ∷ 0xFE ∷ []

-- The texts of the errors are left out.
pub data PlotFileError : Type 0 where
  io file_not_found invalid_filename invalid_extension invalid_seed invalid_base58 : PlotFileError
  invalid_compression hex_decode address_decode parse_int : PlotFileError
  write_exceeds_eof no_resume_info read_only_access : PlotFileError
  file_size_mismatch nonce_out_of_range warp_out_of_range resume_gap : ℕ → ℕ → PlotFileError
  invalid_scoop : ℕ → PlotFileError

pub data PlotResult {ℓ} (A : Type ℓ) : Type ℓ where
  ok : A → PlotResult A
  err : PlotFileError → PlotResult A

infixl 5 ◌>>=◌
abbrev pub ◌>>=◌ {ℓ κ} :
    {A : Type ℓ} {B : Type κ} → PlotResult A → (A → PlotResult B) → PlotResult B
ok a >>= f = f a
err e >>= f = err e

pub data AccessType : Type 0 where
  read_only read_write dummy : AccessType

pub record PlotFile : Type 0 where
  pub number_of_warps : ℕ
  pub file_handle : Option (List ℕ)
  pub access : AccessType
  pub read_progress : ℕ

abbrev pub saturating_mul : ℕ → ℕ → ℕ
saturating_mul a b = min (a * b) u64_max

abbrev pub saturating_sum : ℕ → ℕ → ℕ
saturating_sum a b = min (a + b) u64_max

-- The start of a scoop.
abbrev pub scoop_start : PlotFile → ℕ → ℕ
scoop_start p scoop =
    saturating_mul (saturating_mul (saturating_mul scoop p.number_of_warps) num_scoops) scoop_size

unfoldable pub file_offset_nonce : PlotFile → ℕ → ℕ → PlotResult ℕ
file_offset_nonce p scoop nonce =
    let max_nonce = saturating_mul p.number_of_warps num_scoops in
    if leb num_scoops scoop
    then err (invalid_scoop scoop)
    else (if leb max_nonce nonce
        then err (nonce_out_of_range nonce (max_nonce - 1))
        else ok (saturating_sum (scoop_start p scoop) (saturating_mul nonce scoop_size)))

unfoldable pub file_offset_warp : PlotFile → ℕ → ℕ → PlotResult ℕ
file_offset_warp p scoop warp =
    if leb num_scoops scoop
    then err (invalid_scoop scoop)
    else (if leb p.number_of_warps warp
        then err (warp_out_of_range warp (p.number_of_warps - 1))
        else ok (
            saturating_sum (scoop_start p scoop)
              (saturating_mul (saturating_mul warp num_scoops) scoop_size)))

abbrev pub read_exact : List ℕ → ℕ → ℕ → PlotResult (List ℕ)
read_exact contents offset len =
    if leb (offset + len) (length contents)
    then ok (slice contents offset (offset + len))
    else err io

abbrev pub write_all : List ℕ → ℕ → List ℕ → List ℕ
write_all contents offset bytes =
    splice (contents ++ replicate (offset + length bytes - length contents) 0) offset bytes

abbrev pub read_at : Option (List ℕ) → ℕ → PlotResult (List ℕ)
read_at none offset = ok (replicate 64 0)
read_at (some contents) offset = read_exact contents offset 64

abbrev pub nonce_data : AccessType → Option (List ℕ) → ℕ → PlotResult (List ℕ)
nonce_data dummy handle offset = ok (replicate 64 0)
nonce_data read_only handle offset = read_at handle offset
nonce_data read_write handle offset = read_at handle offset

unfoldable pub read_nonce : PlotFile → ℕ → ℕ → PlotResult (List ℕ)
read_nonce p scoop nonce = file_offset_nonce p scoop nonce >>= nonce_data p.access p.file_handle

unfoldable pub as_u32_le : List ℕ → ℕ
as_u32_le a = get_or a 0 0 + get_or a 1 0 * 2 ^ 8 + get_or a 2 0 * 2 ^ 16 + get_or a 3 0 * 2 ^ 24

unfoldable pub as_u8_le : ℕ → List ℕ
as_u8_le x = x % 256 ∷ x / 2 ^ 8 % 256 ∷ x / 2 ^ 16 % 256 ∷ x / 2 ^ 24 % 256 ∷ []

-- `number_of_warps * WARP_SIZE - 8`, which wraps for no warps.
abbrev pub resume_offset : PlotFile → ℕ
resume_offset p = (p.number_of_warps * warp_size + u64_mod - 8) % u64_mod

-- `double_monkey == RESUME_MAGIC`.
abbrev pub is_magic : List ℕ → Bool
is_magic m =
    (get_or m 0 0 == 0xAF)
    && (get_or m 1 0 == 0xFE)
    && (get_or m 2 0 == 0xAF)
    && (get_or m 3 0 == 0xFE)

abbrev pub resume_marker : Option (List ℕ) → ℕ → PlotResult ℕ
resume_marker none offset = err no_resume_info
resume_marker (some contents) offset = read_exact contents offset 4 >>= λ progress.
    read_exact contents (offset + 4) 4 >>= λ double_monkey.
    if is_magic double_monkey then ok (as_u32_le progress) else err no_resume_info

abbrev pub resume_info : AccessType → Option (List ℕ) → ℕ → PlotResult ℕ
resume_info dummy handle offset = ok 0
resume_info read_only handle offset = resume_marker handle offset
resume_info read_write handle offset = resume_marker handle offset

unfoldable pub read_resume_info : PlotFile → PlotResult ℕ
read_resume_info p = resume_info p.access p.file_handle (resume_offset p)

abbrev pub mark : Option (List ℕ) → ℕ → ℕ → Option (List ℕ)
mark none offset warps_written = none
mark (some contents) offset warps_written = some (
    write_all (write_all contents offset (as_u8_le (warps_written % u32_mod))) (offset + 4)
      resume_magic)

abbrev pub marked : AccessType → PlotFile → ℕ → PlotResult PlotFile
marked read_only p warps_written = err read_only_access
marked dummy p warps_written = ok p
marked read_write p warps_written =
    ok (record p { file_handle = mark p.file_handle (resume_offset p) warps_written })

unfoldable pub write_resume_info : PlotFile → ℕ → PlotResult PlotFile
write_resume_info p warps_written = marked p.access p warps_written
