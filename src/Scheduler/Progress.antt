-- ===== src/Scheduler/Progress.antt =====
-- What the scheduler owes to the writer of a path, apart from how it gets there: the tasks in the order
-- in which the files of the path are written.
use pocx.Base.{
  ℕ, suc, ◌+◌, ◌*◌, ◌≤◌, ◌<◌, ◌≡◌, ◌≢◌, ◌⊎◌, List, [], ◌∷◌, Option, none, some, length, Below, ◌==◌,
  if◌then◌else◌, u64_mod, IsTurns,
}
use pocx.Nonce.Cache.{scoop_at}
use pocx.Quality.Scoop.{compressed_scoop}
use pocx.Plotter.{dim, warp_size, compress_batch, num_tasks}
use pocx.Scheduler.{
  PlotterTask, WriterTask, process_task, end_task, finalize, Round, passes_per_warp,
}

-- The files that are whole, how many warps of the next one are there, and its seed.
pub record Progress : Type 0 where
  pub files : ℕ
  pub offset : ℕ
  pub seed : List ℕ

-- The first `n` warps of a write buffer are those from `start` on of the plot with this seed.
pub record Holds (task : PlotterTask) (seed : List ℕ) (start n : ℕ) (buf : List ℕ) : Type 0 where
  pub size : length buf ≡ task.escalate * warp_size
  pub scoops :
      (w x y : ℕ)
      → w < n
      → x < dim
      → y < dim
      → scoop_at buf (task.escalate * dim) (w * dim + x) y
        ≡ compressed_scoop task.address_payload seed y ((start + w) * dim + x) task.compress

abbrev pub advance : ℕ → ℕ → List ℕ → Progress → Progress
advance warps n seed p =
    if p.offset + n == warps
    then record { files = suc p.files; offset = 0; seed = seed }
    else record { files = p.files; offset = p.offset + n; seed = seed }

-- The tasks for path `i`, the newest first: each continues the file at hand, with its seed and with the
-- warps that come next, and none goes past the end of the file.
pub data Written (task : PlotterTask) (i : ℕ) (first : Progress)
    : List (ℕ × WriterTask) → Progress → Type 0 where
  nothing : Written task i first [] first
  elsewhere :
      (j : ℕ) (t : WriterTask) (l : List (ℕ × WriterTask)) (p : Progress)
      → j ≢ i
      → Written task i first l p
      → Written task i first ((j, t) ∷ l) p
  ended :
      (l : List (ℕ × WriterTask)) (p : Progress)
      → Written task i first l p
      → Written task i first ((i, end_task) ∷ l) p
  renamed :
      (seed : List ℕ) (l : List (ℕ × WriterTask)) (p q : Progress)
      → Written task i first l p
      → seed ≡ p.seed
      → 0 < task.warps i
      → task.warps i ≤ p.offset
      → q ≡ record { files = suc p.files; offset = 0; seed = seed }
      → Written task i first ((i, finalize seed (task.warps i)) ∷ l) q
  wrote :
      (buf seed : List ℕ) (start n : ℕ) (l : List (ℕ × WriterTask)) (p q : Progress)
      → Written task i first l p
      → (p.offset ≡ 0) ⊎ (seed ≡ p.seed)
      → start ≡ p.offset
      → 0 < n
      → start + n ≤ task.warps i
      → Holds task seed start n buf
      → q ≡ advance (task.warps i) n seed p
      → Written task i first ((i, process_task buf seed start n (task.warps i)) ∷ l) q

-- What the thread relies on. The builder of pocx_plotter_v2/src/lib.rs refuses files of 0 warps, while the
-- command line of main.rs lets them through.
pub record IsTask (task : PlotterTask) : Type 0 where
  pub payload_size : length task.address_payload ≡ 20
  pub payload_bytes : Below 256 task.address_payload
  pub compressed : 0 < task.compress
  pub buffers : 0 < task.escalate
  pub whole : (i : ℕ) → i < task.num_paths → 0 < task.warps i
  pub no_wrap :
      (i : ℕ) → i < task.num_paths → task.warps i * passes_per_warp task * compress_batch < u64_mod

pub record IsSeed (seed : List ℕ) : Type 0 where
  pub size : length seed ≡ 32
  pub bytes : Below 256 seed

-- An empty write buffer has the size that the plotter allocates.
abbrev pub IsRoom : PlotterTask → Option (List ℕ) → Type 0
IsRoom task none = Unit {0}
IsRoom task (some buf) = length buf ≡ task.escalate * warp_size

-- The pool runs each task of a call once.
pub record IsRound (task : PlotterTask) (r : Round) : Type 0 where
  pub hash_turns : IsTurns (num_tasks compress_batch) r.hash_order
  pub helix_turns : IsTurns dim r.helix_order
  pub room : IsRoom task r.empty_buffer
