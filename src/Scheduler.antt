-- ===== src/Scheduler.antt =====
-- pocx_plotter_v2/src/cpu_scheduler.rs: the thread that hashes, compresses and hands full write buffers to
-- the writer of each path. A `Vec` with one entry for each path is a function of the path's number. What
-- happens outside the thread in a round of the loop is a `Round`; random seeds are drawn from a sequence.
-- Counters are `u64`.
pub mod Start
pub mod Progress
pub mod Invariant
pub mod Hashing
pub mod Passes
pub mod Flush
pub mod HandOver
pub mod Rounds
pub mod Going
pub mod Seeds
pub mod Ready
pub mod Begin
pub mod Delivery
pub mod Work
pub mod Ends
pub mod Complete
pub mod Stored
pub mod Mined
mod Tests
use pocx.Base.{
  ℕ, zero, suc, ◌+◌, ◌-◌, ◌*◌, ◌%◌, ◌^◌, List, [], ◌∷◌, Option, none, some, Bool, true, false, ◌&&◌,
  ◌||◌, for_range, not, ltb, ◌==◌, if◌then◌else◌, u64_mod, replicate,
}
use pocx.Nonce.{nonce_size}
use pocx.Plotter.{compress_batch, hash_nonces_cpu, compress_pass}

-- `v[i] = x`
abbrev pub update {ℓ} : {A : Type ℓ} → (ℕ → A) → ℕ → A → ℕ → A
update v i x j = if i == j then x else v j

-- The fields of `PlotterTask` that the thread reads.
pub record PlotterTask : Type 0 where
  pub address_payload : List ℕ
  pub initial_seeds : ℕ → Option (List ℕ)
  pub warps : ℕ → ℕ
  pub number_of_plots : ℕ → ℕ
  pub num_paths : ℕ
  pub compress : ℕ
  pub escalate : ℕ

pub data WriterTask : Type 0 where
  end_task : WriterTask
  -- buffer, seed, warp_offset, warps_to_write, number_of_warps
  process_task : List ℕ → List ℕ → ℕ → ℕ → ℕ → WriterTask
  -- seed, number_of_warps
  finalize : List ℕ → ℕ → WriterTask

-- The variables of the thread; `drawn` counts the random seeds, `sent` holds what was sent to which path,
-- the newest first, and `stop` is the program's flag.
pub record Scheduler : Type 0 where
  pub seeds : ℕ → List ℕ
  pub warp_offsets : ℕ → ℕ
  pub files_done : ℕ → ℕ
  pub global_nonces : ℕ → ℕ
  pub pass_in_warp : ℕ
  pub path_pointer : ℕ
  pub scatter_buf : List ℕ
  pub write_buffer : Option (List ℕ)
  pub warps_in_buffer : ℕ
  pub buffer_start_warp : ℕ
  pub buffer_path : ℕ
  pub drawn : ℕ
  pub sent : List (ℕ × WriterTask)
  pub stop : Bool

-- A round's surroundings: whether a stop is requested, the orders of the pool's tasks and threads, what
-- `rx_empty_write_buffers.recv()` returns, and whether the writer's channel is open.
pub record Round : Type 0 where
  pub stop_requested : Bool
  pub hash_order : List ℕ
  pub helix_order : List ℕ
  pub empty_buffer : Option (List ℕ)
  pub writer_there : Bool

pub data Outcome : Type 0 where
  running left : Scheduler → Outcome
  panicked : Outcome

-- For a compression from 1 to 64: the subtraction of the source wraps at 0, and its shift masks from 65 on.
abbrev pub passes_per_warp : PlotterTask → ℕ
passes_per_warp task = 2 ^ (task.compress - 1)

abbrev pub active : PlotterTask → Scheduler → ℕ → Bool
active task s i = ltb (s.files_done i) (task.number_of_plots i)

-- No path below `n` has work.
unfoldable pub all_done : PlotterTask → Scheduler → ℕ → Bool
all_done task s zero = true
all_done task s (suc n) = not (active task s n) && all_done task s n

-- The search of the round robin, from candidate `i` after the old path on.
unfoldable pub next_active : PlotterTask → Scheduler → ℕ → ℕ → Option ℕ
next_active task s zero i = none
next_active task s (suc n) i =
    let rest = next_active task s n (suc i) in
    let candidate = (s.path_pointer + i) % task.num_paths in
    if active task s candidate then some candidate else rest

-- `rand::rng().fill(&mut seeds[i])`
unfoldable pub fill_seed : (ℕ → List ℕ) → ℕ → Scheduler → Scheduler
fill_seed rand i s = record s { seeds = update s.seeds i (rand s.drawn); drawn = suc s.drawn }

-- The closure `flush_buffer`, with what `write_buffer.take()` returns.
unfoldable pub flush_taken : Bool → List ℕ → ℕ → ℕ → Scheduler → Option (List ℕ) → Scheduler
flush_taken writer_there seed next_warp_offset current_warps s none = s
flush_taken writer_there seed next_warp_offset current_warps s (some buf) =
    if writer_there
    then record s {
      write_buffer = none;
      warps_in_buffer = 0;
      buffer_start_warp = next_warp_offset;
      sent =
          (s.buffer_path, process_task buf seed s.buffer_start_warp s.warps_in_buffer current_warps)
          ∷ s.sent;
    }
    else record s { write_buffer = none; stop = true }

unfoldable pub flush_buffer : Bool → List ℕ → ℕ → ℕ → Scheduler → Scheduler
flush_buffer writer_there seed next_warp_offset current_warps s =
    flush_taken writer_there seed next_warp_offset current_warps s s.write_buffer

-- At the end of a file.
unfoldable pub count_file : PlotterTask → (ℕ → List ℕ) → Scheduler → Scheduler
count_file task rand s =
    let counted = record s {
      files_done = update s.files_done s.path_pointer (s.files_done s.path_pointer + 1);
    } in
    if active task counted s.path_pointer then fill_seed rand s.path_pointer counted else counted

-- From `old_path` to path `p`.
unfoldable pub move_on : Bool → ℕ → Scheduler → Scheduler
move_on at_file_boundary p s =
    let warp_offsets =
      if at_file_boundary then update s.warp_offsets s.path_pointer 0 else s.warp_offsets in
    record s {
      path_pointer = p;
      warp_offsets = warp_offsets;
      global_nonces =
          if at_file_boundary then update s.global_nonces s.path_pointer 0 else s.global_nonces;
      buffer_start_warp =
          if not (p == s.path_pointer) || at_file_boundary
          then warp_offsets p
          else s.buffer_start_warp;
    }

-- The round robin.
unfoldable pub next_path : PlotterTask → Bool → Scheduler → Outcome
next_path task at_file_boundary s =
    if ltb 1 task.num_paths
    then elim (next_active task s task.num_paths 1) [
      | none ↦ left s
      | some p ↦ running (move_on at_file_boundary p s)
    ]
    else running (move_on at_file_boundary s.path_pointer s)

-- A full buffer, and what there is of a file at its end, goes to the writer.
unfoldable pub hand_over : PlotterTask → (ℕ → List ℕ) → Bool → Scheduler → Outcome
hand_over task rand writer_there s =
    let current_warps = task.warps s.path_pointer in
    let at_file_boundary = s.warp_offsets s.path_pointer == current_warps in
    if (s.warps_in_buffer == task.escalate) || at_file_boundary
    then (let flushed =
          flush_buffer writer_there (s.seeds s.path_pointer) (s.warp_offsets s.path_pointer)
            current_warps s in
        next_path task at_file_boundary
          (if at_file_boundary then count_file task rand flushed else flushed))
    else running s

-- What follows the last pass of a warp.
unfoldable pub finish_warp : PlotterTask → (ℕ → List ℕ) → Bool → Scheduler → Outcome
finish_warp task rand writer_there s = hand_over task rand writer_there (record s {
  pass_in_warp = 0;
  warps_in_buffer = s.warps_in_buffer + 1;
  warp_offsets =
      update s.warp_offsets s.path_pointer ((s.warp_offsets s.path_pointer + 1) % u64_mod);
})

unfoldable pub compress_into : PlotterTask → (ℕ → List ℕ) → Round → List ℕ → Scheduler → Outcome
compress_into task rand r buf s0 =
    let s = record s0 {
      write_buffer =
          some (compress_pass r.helix_order s0.scatter_buf buf s0.warps_in_buffer s0.pass_in_warp);
      pass_in_warp = s0.pass_in_warp + 1;
    } in
    if s.pass_in_warp == passes_per_warp task
    then finish_warp task rand r.writer_there s
    else running s

-- What follows the hashing: take a write buffer if there is none, and compress.
unfoldable pub compress_with :
    PlotterTask → (ℕ → List ℕ) → Round → Scheduler → Option (List ℕ) → Option (List ℕ) → Outcome
compress_with task rand r s (some buf) received = compress_into task rand r buf s
compress_with task rand r s none none = left s
compress_with task rand r s none (some buf) = compress_into task rand r buf (record s {
  write_buffer = some buf;
  buffer_start_warp = s.warp_offsets s.path_pointer;
  buffer_path = s.path_pointer;
})

unfoldable pub compress_round : PlotterTask → (ℕ → List ℕ) → Round → Scheduler → Outcome
compress_round task rand r s = compress_with task rand r s s.write_buffer r.empty_buffer

unfoldable pub hash_round :
    PlotterTask → (ℕ → List ℕ) → Round → Scheduler → Option (List ℕ) → Outcome
hash_round task rand r s none = panicked
hash_round task rand r s (some out) = compress_round task rand r (record s {
  scatter_buf = out;
  global_nonces =
      update s.global_nonces s.path_pointer
        ((s.global_nonces s.path_pointer + compress_batch) % u64_mod);
})

-- The body of `loop`.
unfoldable pub round : PlotterTask → (ℕ → List ℕ) → Round → Scheduler → Outcome
round task rand r s =
    if all_done task s task.num_paths
    then left s
    else if s.stop || r.stop_requested
    then left s
    else hash_round task rand r s (
        hash_nonces_cpu r.hash_order s.scatter_buf task.address_payload (s.seeds s.path_pointer)
          (s.global_nonces s.path_pointer) compress_batch)

-- As many rounds as there are surroundings for.
unfoldable pub rounds : PlotterTask → (ℕ → List ℕ) → List Round → Outcome → Outcome
rounds task rand [] o = o
rounds task rand (r ∷ rs) (running s) = rounds task rand rs (round task rand r s)
rounds task rand (r ∷ rs) (left s) = left s
rounds task rand (r ∷ rs) panicked = panicked

-- `for tx in &tx_full_per_path`
unfoldable pub send_end : ℕ → Scheduler → Scheduler
send_end n s = for_range n 0 (λ i t. record t { sent = (i, end_task) ∷ t.sent }) s

-- What follows the loop.
unfoldable pub after_loop : PlotterTask → Bool → Scheduler → Scheduler
after_loop task writer_there s = send_end task.num_paths (
    if ltb 0 s.warps_in_buffer
    then flush_buffer writer_there (s.seeds s.buffer_path) (s.warp_offsets s.buffer_path)
        (task.warps s.buffer_path) s
    else s)
