-- ===== src/Plotfile/Write.antt =====
-- pocx_plotfile/src/lib.rs: the write of a buffer of warps. What the slices of the buffer cannot give is a
-- panic, `none`. A file of its own temporary name is renamed when it is whole; whether the file system can
-- do so is an argument, and after an error the file is not used again.
use pocx.Base.{
  ℕ, ◌+◌, ◌*◌, ◌/◌, ◌%◌, u64_mod, List, Option, none, some, Bool, false, length, slice, for_range,
  ltb, leb, ◌==◌, if◌then◌else◌,
}
use pocx.Nonce.{num_scoops, scoop_size}
use pocx.Plotfile.{
  warp_size, PlotFile, PlotResult, ok, err, ◌>>=◌, io, no_resume_info, read_only_access, resume_gap,
  write_exceeds_eof, AccessType, read_only, read_write, dummy, write_all, read_resume_info,
  write_resume_info,
}

abbrev pub file_offset : ℕ → ℕ → ℕ → ℕ
file_offset scoop warp number_of_warps =
    scoop * number_of_warps * num_scoops * scoop_size + warp * num_scoops * scoop_size

-- An open file, whether its name is temporary, and what a file that has got its final name holds.
pub record Plot : Type 0 where
  pub file : PlotFile
  pub is_tmp : Bool
  pub finished : Option (List ℕ)

unfoldable pub write_scoop :
    List ℕ → ℕ → ℕ → ℕ → ℕ → Option (Option (List ℕ)) → Option (Option (List ℕ))
write_scoop bytes start_warp warps number_of_warps scoop none = none
write_scoop bytes start_warp warps number_of_warps scoop (some none) = some none
write_scoop bytes start_warp warps number_of_warps scoop (some (some contents)) =
    let write_len = warps * num_scoops * scoop_size in
    let from = file_offset scoop 0 (length bytes / warp_size) in
    if leb (from + write_len) (length bytes)
    then some (
        some (
          write_all contents (file_offset scoop start_warp number_of_warps)
            (slice bytes from (from + write_len))))
    else none

unfoldable pub write_scoops : List ℕ → ℕ → ℕ → ℕ → Option (List ℕ) → Option (Option (List ℕ))
write_scoops bytes start_warp warps number_of_warps handle =
    for_range num_scoops 0 (write_scoop bytes start_warp warps number_of_warps) (some handle)

unfoldable pub finalize_plot : Bool → Plot → PlotResult Plot
finalize_plot can_rename p =
    if p.is_tmp
    then (if can_rename
        then ok (record {
          file = record (p.file) { file_handle = none };
          is_tmp = false;
          finished = p.file.file_handle;
        })
        else err io)
    else ok p

-- After the scoops.
unfoldable pub close_chunk :
    Bool → Plot → ℕ → ℕ → Option (Option (List ℕ)) → Option (PlotResult (Plot × ℕ))
close_chunk can_rename p done total none = none
close_chunk can_rename p done total (some handle) = some (
    write_resume_info (record (p.file) { file_handle = handle }) done >>= λ f.
    (if done == p.file.number_of_warps
      then (finalize_plot can_rename (record p { file = f }) >>= λ q. ok (q, total))
      else ok (record p { file = f }, total)))

-- A file without a marker is empty.
abbrev pub or_empty : PlotResult ℕ → PlotResult ℕ
or_empty (ok progress) = ok progress
or_empty (err no_resume_info) = ok 0
or_empty (err e) = err e

unfoldable pub write_chunk :
    Bool → Plot → List ℕ → ℕ → ℕ → PlotResult ℕ → Option (PlotResult (Plot × ℕ))
write_chunk can_rename p bytes start_warp warps (err e) = some (err e)
write_chunk can_rename p bytes start_warp warps (ok progress) =
    if start_warp == progress
    then (if ltb p.file.number_of_warps ((start_warp + warps) % u64_mod)
        then some (err write_exceeds_eof)
        else close_chunk can_rename p ((start_warp + warps) % u64_mod)
            (num_scoops * (warps * num_scoops * scoop_size))
            (write_scoops bytes start_warp warps p.file.number_of_warps p.file.file_handle))
    else some (err (resume_gap progress start_warp))

abbrev pub write_by : AccessType → Bool → Plot → List ℕ → ℕ → ℕ → Option (PlotResult (Plot × ℕ))
write_by read_only can_rename p bytes start_warp warps = some (err read_only_access)
write_by dummy can_rename p bytes start_warp warps =
    some (ok (p, warps * num_scoops * num_scoops * scoop_size))
write_by read_write can_rename p bytes start_warp warps =
    write_chunk can_rename p bytes start_warp warps (or_empty (read_resume_info p.file))

unfoldable pub write_optimised_buffer_into_plotfile :
    Bool → Plot → List ℕ → ℕ → ℕ → Option (PlotResult (Plot × ℕ))
write_optimised_buffer_into_plotfile can_rename p bytes start_warp warps =
    write_by p.file.access can_rename p bytes start_warp warps
