-- ===== src/Plotfile/Tests.antt =====
-- The theorems about plot files at concrete inputs, on a file of one warp.
use pocx.Base.{
  leb, if◌then◌else◌, ℕ, ◌*◌, ◌-◌, ◌≡◌, refl, inl, inr, List, length, length-replicate, replicate,
  slice, some, none, true, ap, ◌∙◌, ◌+◌, arith,
}
use mathlib.Core.Option
use pocx.Nonce.{num_scoops}
use pocx.Nonce.Cache.{scoop_at}
use pocx.Nonce.Shuffle.{scoop_offset}
use pocx.Plotfile.{
  PlotFile, read_write, ok, err, invalid_scoop, resume_gap, nonce_out_of_range, warp_size,
  file_offset_nonce, read_nonce, read_resume_info, write_resume_info,
}
use pocx.Plotfile.Offsets.{file_offset_nonce-outcomes}
use pocx.Plotfile.Read.{read_nonce-scoop_at}
use pocx.Plotfile.Write.{Plot, or_empty, write_optimised_buffer_into_plotfile}
use pocx.Plotfile.Store.{
  stored, followed, write_optimised_buffer_into_plotfile-in,
  write_optimised_buffer_into_plotfile-other, write_optimised_buffer_into_plotfile-gap,
}
use pocx.Plotfile.Resume.{read_resume_info-write_resume_info}

abbrev payload : List ℕ
payload = replicate 20 1

abbrev seed : List ℕ
seed = replicate 32 2

unfoldable one_warp : List ℕ
one_warp = replicate warp_size 0

length-one_warp : length one_warp ≡ 1 * warp_size
unfolding one_warp
length-one_warp = length-replicate {A = ℕ} warp_size 0

abbrev new_file : PlotFile
new_file = record {
  number_of_warps = 1;
  file_handle = some one_warp;
  access = read_write;
  read_progress = 0;
}

file_offset_nonce-outcomes_example : file_offset_nonce new_file 42 99 ≡ (
    if leb num_scoops 42
    then err (invalid_scoop 42)
    else (if leb (1 * num_scoops) 99
        then err (nonce_out_of_range 99 (1 * num_scoops - 1))
        else ok (scoop_offset (1 * num_scoops) 0 99 42)))
file_offset_nonce-outcomes_example = file_offset_nonce-outcomes new_file 42 99 (omega arith)

read_nonce-scoop_at_example :
    read_nonce new_file 42 99 ≡ ok (scoop_at one_warp (1 * num_scoops) 99 42)
read_nonce-scoop_at_example =
    read_nonce-scoop_at new_file one_warp 42 99 (omega arith) refl (inr refl) length-one_warp
      (omega arith) (omega arith)

read_resume_info-write_resume_info_example :
    (after : List ℕ) × (write_resume_info new_file 1
      ≡ ok (record new_file { file_handle = some after }))
    × (read_resume_info (record new_file { file_handle = some after }) ≡ ok 1)
    × (length after ≡ length one_warp)
    × (slice after 0 (length one_warp - 8) ≡ slice one_warp 0 (length one_warp - 8))
read_resume_info-write_resume_info_example =
    read_resume_info-write_resume_info new_file one_warp 1 refl refl length-one_warp (omega arith)
      (omega arith) (omega arith)

-- A file for two warps whose marker says that none is written.
unfoldable two_warps : List ℕ
two_warps = replicate (2 * warp_size) 0

length-two_warps : length two_warps ≡ 2 * warp_size
unfolding two_warps
length-two_warps = length-replicate {A = ℕ} (2 * warp_size) 0

abbrev empty_file : PlotFile
empty_file = record {
  number_of_warps = 2;
  file_handle = some two_warps;
  access = read_write;
  read_progress = 0;
}

started :
    (after : List ℕ) × (write_resume_info empty_file 0
      ≡ ok (record empty_file { file_handle = some after }))
    × (read_resume_info (record empty_file { file_handle = some after }) ≡ ok 0)
    × (length after ≡ length two_warps)
    × (slice after 0 (length two_warps - 8) ≡ slice two_warps 0 (length two_warps - 8))
started =
    read_resume_info-write_resume_info empty_file two_warps 0 refl refl length-two_warps
      (omega arith) (omega arith) (omega arith)

abbrev started_plot : Plot
started_plot = record {
  file = record empty_file { file_handle = some started.0 };
  is_tmp = true;
  finished = none;
}

started-size : length started.0 ≡ 2 * warp_size
started-size = started.3 ∙ length-two_warps

write_optimised_buffer_into_plotfile-in_example :
    Option.map
      (λ c. scoop_at c (2 * num_scoops) (0 * num_scoops + 99) 42)
      (stored (write_optimised_buffer_into_plotfile true started_plot one_warp 0 1))
    ≡ some (scoop_at one_warp (1 * num_scoops) 99 42)
write_optimised_buffer_into_plotfile-in_example =
    write_optimised_buffer_into_plotfile-in started_plot started.0 one_warp 0 1 1 refl refl
      started-size (omega arith) (omega arith) length-one_warp (omega arith) (omega arith)
      (ap or_empty started.2) 99 42 (omega arith) (omega arith) (inl (omega arith))

write_optimised_buffer_into_plotfile-other_example :
    Option.map
      (λ c. scoop_at c (2 * num_scoops) 5000 42)
      (stored (write_optimised_buffer_into_plotfile true started_plot one_warp 0 1))
    ≡ some (scoop_at started.0 (2 * num_scoops) 5000 42)
write_optimised_buffer_into_plotfile-other_example =
    write_optimised_buffer_into_plotfile-other started_plot started.0 one_warp 0 1 1 refl refl
      started-size (omega arith) (omega arith) length-one_warp (omega arith) (omega arith)
      (ap or_empty started.2) 5000 42 (omega arith) (omega arith) (inr (omega arith))
      (inl (omega arith))

write_optimised_buffer_into_plotfile-gap_example :
    followed
      (write_optimised_buffer_into_plotfile true started_plot one_warp 0 1)
      (λ q. write_optimised_buffer_into_plotfile true q one_warp 0 1)
    ≡ some (err (resume_gap (0 + 1) 0))
write_optimised_buffer_into_plotfile-gap_example =
    write_optimised_buffer_into_plotfile-gap started_plot started.0 one_warp 0 1 1 refl refl
      started-size (omega arith) (omega arith) length-one_warp (omega arith) (omega arith)
      (ap or_empty started.2) one_warp 0 1 (omega arith) (λ e. absurd (omega arith))
