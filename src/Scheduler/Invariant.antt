-- ===== src/Scheduler/Invariant.antt =====
-- What holds between two rounds.
use pocx.Base.{
  ℕ, ◌+◌, ◌*◌, ◌<◌, ◌≡◌, ◌≢◌, ◌⊎◌, List, Option, none, some, true, false, length, ◌==◌,
  if◌then◌else◌, arith,
}
use pocx.Nonce.{nonce_size}
use pocx.Nonce.Cache.{scoop_at}
use pocx.Plotter.{dim, compress_batch}
use pocx.Plotter.Warp.{partial_scoop}
use pocx.Scheduler.{PlotterTask, Scheduler, active, all_done, passes_per_warp, update}
use pocx.Scheduler.Progress.{Progress, Holds, Written, IsSeed}

pub update_same : {A : Type 0} (v : ℕ → A) (i : ℕ) (x : A) → update v i x i ≡ x
update_same v i x = ground arith

pub update_other : {A : Type 0} (v : ℕ → A) (i j : ℕ) (x : A) → i ≢ j → update v i x j ≡ v j
update_other v i j x ne = ground (arith, ne)

-- The warps that are in the buffer and not yet sent.
abbrev pub pending : Scheduler → ℕ → ℕ
pending s i = if s.path_pointer == i then s.warps_in_buffer else 0

-- The writer of path `i` has all that the counters say but for the buffer.
pub record IsUpToDate (task : PlotterTask) (first : ℕ → Progress) (s : Scheduler) (i : ℕ)
    : Type 0 where
  pub at : Progress
  pub written : Written task i (first i) s.sent at
  pub files : at.files ≡ s.files_done i
  pub offset : at.offset + pending s i ≡ s.warp_offsets i
  pub seed : (at.offset ≡ 0) ⊎ (at.seed ≡ s.seeds i)

-- The buffer holds whole warps and what the passes have left of one.
pub record IsFilled (task : PlotterTask) (s : Scheduler) (buf : List ℕ) : Type 0 where
  pub path : s.buffer_path ≡ s.path_pointer
  pub start : s.buffer_start_warp + s.warps_in_buffer ≡ s.warp_offsets s.path_pointer
  pub holds : Holds task (s.seeds s.path_pointer) s.buffer_start_warp s.warps_in_buffer buf
  pub part :
      (x y : ℕ)
      → x < dim
      → y < dim
      → (s.pass_in_warp ≡ 0)
        ⊎ (scoop_at buf (task.escalate * dim) (s.warps_in_buffer * dim + x) y
            ≡ partial_scoop task.address_payload
                (s.seeds s.path_pointer)
                (passes_per_warp task)
                (s.warp_offsets s.path_pointer)
                s.pass_in_warp
                x
                y)

abbrev pub IsBuffer : PlotterTask → Scheduler → Option (List ℕ) → Type 0
IsBuffer task s none = (s.warps_in_buffer ≡ 0) × (s.pass_in_warp ≡ 0)
IsBuffer task s (some buf) = IsFilled task s buf

-- `ahead` batches are hashed and not yet compressed.
pub record IsCounted (task : PlotterTask) (first : ℕ → Progress) (ahead : ℕ) (s : Scheduler)
    : Type 0 where
  pub pointer : s.path_pointer < task.num_paths
  pub passes : s.pass_in_warp < passes_per_warp task
  pub here :
      s.global_nonces s.path_pointer
      ≡ (s.warp_offsets s.path_pointer * passes_per_warp task + (s.pass_in_warp + ahead))
        * compress_batch
  pub others :
      (i : ℕ)
      → i < task.num_paths
      → s.path_pointer ≢ i
      → s.global_nonces i ≡ s.warp_offsets i * passes_per_warp task * compress_batch
  pub offsets :
      (i : ℕ)
      → i < task.num_paths
      → s.path_pointer ≢ i
      → active task s i ≡ true
      → s.warp_offsets i < task.warps i
  pub scatter : length s.scatter_buf ≡ compress_batch * nonce_size
  pub seeds : (i : ℕ) → i < task.num_paths → IsSeed (s.seeds i)
  pub buffer : IsBuffer task s s.write_buffer
  pub writers : (i : ℕ) → i < task.num_paths → IsUpToDate task first s i

-- A path that has work is at hand, or there is none.
pub record IsRunning (task : PlotterTask) (first : ℕ → Progress) (s : Scheduler) : Type 0 where
  pub counted : IsCounted task first 0 s
  pub inside :
      active task s s.path_pointer ≡ true
      → s.warp_offsets s.path_pointer < task.warps s.path_pointer
  pub room : s.warps_in_buffer < task.escalate
  pub idle : active task s s.path_pointer ≡ false → s.write_buffer ≡ none
  pub busy : (active task s s.path_pointer ≡ true) ⊎ (all_done task s task.num_paths ≡ true)

-- What was sent is in order, whatever else has happened.
abbrev pub IsSent : PlotterTask → (ℕ → Progress) → Scheduler → Type 0
IsSent task first s =
    (i : ℕ) → i < task.num_paths → (p : Progress) × Written task i (first i) s.sent p

-- A writer was gone: the loop ends with the next round.
pub record IsStopped (task : PlotterTask) (first : ℕ → Progress) (s : Scheduler) : Type 0 where
  pub stopped : s.stop ≡ true
  pub empty : s.write_buffer ≡ none
  pub sent : IsSent task first s
