-- ===== src/Scheduler/Start.antt =====
-- pocx_plotter_v2/src/cpu_scheduler.rs: what the thread does before its loop.
use pocx.Base.{
  ℕ, zero, suc, ◌+◌, ◌*◌, ◌%◌, List, [], ◌∷◌, Option, none, some, false, ◌||◌, for_range, ltb, ◌==◌,
  if◌then◌else◌, u64_mod, replicate,
}
use pocx.Nonce.{nonce_size}
use pocx.Plotter.{compress_batch}
use pocx.Scheduler.{PlotterTask, Scheduler, finalize, passes_per_warp, active, update, fill_seed}

-- The first of the `n` paths from `i` on that has work.
unfoldable pub first_active : PlotterTask → Scheduler → ℕ → ℕ → Option ℕ
first_active task s zero i = none
first_active task s (suc n) i =
    let rest = first_active task s n (suc i) in if active task s i then some i else rest

-- Before the loop: seeds and the warps that are there already.
unfoldable pub init_seed : (ℕ → List ℕ) → (ℕ → ℕ) → ℕ → Option (List ℕ) → Scheduler → Scheduler
init_seed rand resumes i (some seed) s = record s {
  seeds = update s.seeds i seed;
  warp_offsets = update s.warp_offsets i (resumes i);
}
init_seed rand resumes i none s = fill_seed rand i s

unfoldable pub init_nonces : PlotterTask → (ℕ → ℕ) → ℕ → Scheduler → Scheduler
init_nonces task resumes i s =
    if ltb 0 (resumes i)
    then record s {
      global_nonces =
          update s.global_nonces i (resumes i * passes_per_warp task * compress_batch % u64_mod);
    }
    else s

-- A file that is written whole and only lacks its name; a closed channel is ignored.
unfoldable pub init_finished : PlotterTask → (ℕ → List ℕ) → (ℕ → ℕ) → ℕ → Scheduler → Scheduler
init_finished task rand resumes i s =
    if (task.warps i == 0) || ltb (resumes i) (task.warps i)
    then s
    else (let t = record s {
      sent = (i, finalize (s.seeds i) (task.warps i)) ∷ s.sent;
      files_done = update s.files_done i (s.files_done i + 1);
      warp_offsets = update s.warp_offsets i 0;
      global_nonces = update s.global_nonces i 0;
    } in
        if active task t i then fill_seed rand i t else t)

-- `path_pointer` is 0 until the first path that has work is looked for.
unfoldable pub point_to : Option ℕ → Scheduler → Scheduler
point_to none s = s
point_to (some i) s = record s { path_pointer = i }

unfoldable pub pick_path : PlotterTask → Scheduler → Scheduler
pick_path task s =
    let t =
      if active task s s.path_pointer
      then s
      else point_to (first_active task s task.num_paths 0) s in
    record t { buffer_start_warp = t.warp_offsets t.path_pointer; buffer_path = t.path_pointer }

-- `vec![0u8; SCATTER_SIZE]`
unfoldable pub empty_scatter : List ℕ
empty_scatter = replicate (compress_batch * nonce_size) 0

unfoldable pub blank : Scheduler
blank = record {
  seeds = λ i. [];
  warp_offsets = λ i. 0;
  files_done = λ i. 0;
  global_nonces = λ i. 0;
  pass_in_warp = 0;
  path_pointer = 0;
  scatter_buf = empty_scatter;
  write_buffer = none;
  warps_in_buffer = 0;
  buffer_start_warp = 0;
  buffer_path = 0;
  drawn = 0;
  sent = [];
  stop = false;
}

unfoldable pub begin : PlotterTask → (ℕ → List ℕ) → (ℕ → ℕ) → Scheduler
begin task rand resumes =
    let s1 =
      for_range task.num_paths 0 (λ i s. init_seed rand resumes i (task.initial_seeds i) s) blank in
    let s2 = for_range task.num_paths 0 (init_nonces task resumes) s1 in
    pick_path task (for_range task.num_paths 0 (init_finished task rand resumes) s2)
