-- ===== src/Scheduler/Tests.antt =====
-- The theorems about the scheduler at a concrete task.
use pocx.Base.{
  ap, ◌+◌, ◌∙◌, ◌-◌, inl, slice, ℕ, zero, suc, ◌*◌, ◌<◌, ◌≡◌, refl, subst, List, [], ◌∷◌, some,
  none, true, false, length, length-replicate, replicate, replicate-Below, countdown,
  countdown-IsTurns, u64_mod, arith,
}
use mathlib.Core.Option
use pocx.Nonce.{nonce_size, num_scoops}
use pocx.Nonce.Cache.{scoop_at}
use pocx.Quality.{ok, generate_scoop}
use pocx.Quality.Scoop.{compressed_scoop}
use pocx.Plotter.Hash.{IsHashed, hash_nonces_cpu-IsHashed}
use pocx.Plotter.Warp.{compress_pass-Sized, compress_pass-partial, partial_scoop-compressed_scoop}
use pocx.Plotfile
use pocx.Plotfile.{PlotFile, read_write, read_resume_info, write_resume_info}
use pocx.Plotfile.Resume.{read_resume_info-write_resume_info}
use pocx.Plotfile.Write.{Plot, or_empty, write_optimised_buffer_into_plotfile}
use pocx.Plotfile.Store.{stored}
use pocx.Scheduler.Stored.{stored-generate_scoop}
use pocx.Plotter.{hash_nonces_cpu, compress_pass, dim, warp_size, compress_batch, num_tasks}
use pocx.Scheduler.{passes_per_warp, PlotterTask, Round, running, rounds}
use pocx.Scheduler.Start.{begin}
use pocx.Scheduler.Progress.{Holds, IsSeed, IsTask, IsRound}
use pocx.Scheduler.Seeds.{IsResume, resumed}
use pocx.Scheduler.Delivery.{IsDelivered, rounds-IsDelivered}
use pocx.Scheduler.Complete.{IsSmooth, IsComplete, rounds-IsComplete}

abbrev seed : List ℕ
seed = replicate 32 2

-- Two paths: one of two warps that is continued after the first, and one with a file of one warp.
abbrev two_paths : PlotterTask
two_paths = record {
  address_payload = replicate 20 1;
  initial_seeds = λ i. elim i [ zero ↦ some seed | suc j ↦ none ];
  warps = λ i. elim i [ zero ↦ 2 | suc j ↦ 1 ];
  number_of_plots = λ i. 1;
  num_paths = 2;
  compress = 1;
  escalate = 1;
}

abbrev one_done : ℕ → ℕ
one_done zero = 1
one_done (suc i) = 0

seed-IsSeed : IsSeed seed
seed-IsSeed = record { size = omega arith; bytes = replicate-Below 256 32 (omega arith) }

two_paths-IsTask : IsTask two_paths
two_paths-IsTask = record {
  payload_size = omega arith;
  payload_bytes = replicate-Below 256 20 (omega arith);
  compressed = omega arith;
  buffers = omega arith;
  whole = whole;
  no_wrap = no_wrap;
}
  where
    whole : (i : ℕ) → i < 2 → 0 < two_paths.warps i
    whole zero hi = omega arith
    whole (suc i) hi = omega arith

    no_wrap :
        (i : ℕ) → i < 2 → two_paths.warps i * passes_per_warp two_paths * compress_batch < u64_mod
    no_wrap zero hi = omega arith
    no_wrap (suc i) hi = omega arith

one_done-IsResume : IsResume two_paths one_done
one_done-IsResume = record { given = given; drawn = drawn }
  where
    given : (i : ℕ) (s : List ℕ) → i < 2 → two_paths.initial_seeds i ≡ some s → IsSeed s
    given zero s hi e = subst IsSeed (cc) seed-IsSeed
    given (suc i) s hi e = absurd (cc)

    drawn : (i : ℕ) → i < 2 → two_paths.initial_seeds i ≡ none → one_done i ≡ 0
    drawn zero hi e = absurd (cc)
    drawn (suc i) hi e = refl

unfoldable buffer : List ℕ
buffer = replicate warp_size 0

length-buffer : length buffer ≡ warp_size
unfolding buffer
length-buffer = length-replicate {A = ℕ} warp_size 0

unfoldable hash_order : List ℕ
hash_order = countdown (num_tasks compress_batch)

unfoldable helix_order : List ℕ
helix_order = countdown dim

abbrev plain : Round
plain = record {
  stop_requested = false;
  hash_order = hash_order;
  helix_order = helix_order;
  empty_buffer = some buffer;
  writer_there = true;
}

plain-IsRound : IsRound two_paths plain
unfolding hash_order helix_order
plain-IsRound = record {
  hash_turns = countdown-IsTurns (num_tasks compress_batch);
  helix_turns = countdown-IsTurns dim;
  room = length-buffer;
}

-- The writer of the second path is gone when its turn comes.
abbrev gone : Round
gone = record plain { writer_there = false }

gone-IsRound : IsRound two_paths gone
gone-IsRound = record {
  hash_turns = plain-IsRound.hash_turns;
  helix_turns = plain-IsRound.helix_turns;
  room = length-buffer;
}

rounds-IsDelivered_example : IsDelivered two_paths (resumed two_paths one_done) true 1 (
    rounds two_paths
      (λ k. seed)
      (plain ∷ gone ∷ plain ∷ [])
      (running (begin two_paths (λ k. seed) one_done)))
rounds-IsDelivered_example =
    rounds-IsDelivered two_paths (λ k. seed) one_done (plain ∷ gone ∷ plain ∷ []) true 1
      two_paths-IsTask (λ k. seed-IsSeed) one_done-IsResume
      (plain-IsRound, (gone-IsRound, (plain-IsRound, tt))) (omega arith)

plain-IsSmooth : IsSmooth two_paths plain
plain-IsSmooth = record {
  served = plain-IsRound;
  goes_on = refl;
  writer = refl;
  buffer = λ e. absurd (cc);
}

rounds-IsComplete_example : IsComplete two_paths (resumed two_paths one_done) true 1 (
    rounds two_paths
      (λ k. seed)
      (plain ∷ plain ∷ plain ∷ plain ∷ [])
      (running (begin two_paths (λ k. seed) one_done)))
rounds-IsComplete_example =
    rounds-IsComplete two_paths (λ k. seed) one_done (plain ∷ plain ∷ plain ∷ plain ∷ []) true 1
      two_paths-IsTask (λ k. seed-IsSeed) one_done-IsResume
      (plain-IsSmooth, (plain-IsSmooth, (plain-IsSmooth, (plain-IsSmooth, tt)))) (omega arith)
      (omega arith)

-- A write buffer with the first warp of the plot of `seed`.
unfoldable scatter : List ℕ
scatter = replicate (compress_batch * nonce_size) 0

length-scatter : length scatter ≡ compress_batch * nonce_size
unfolding scatter
length-scatter = length-replicate {A = ℕ} (compress_batch * nonce_size) 0

batch :
    (out : List ℕ) × (hash_nonces_cpu hash_order scatter two_paths.address_payload seed 0
        compress_batch
      ≡ some out)
    × IsHashed two_paths.address_payload seed 0 out
batch =
    hash_nonces_cpu-IsHashed two_paths.address_payload seed two_paths-IsTask.payload_size
      seed-IsSeed.size two_paths-IsTask.payload_bytes seed-IsSeed.bytes 0 hash_order scatter
      (omega arith) plain-IsRound.hash_turns length-scatter

abbrev first_warp : List ℕ
first_warp = compress_pass helix_order batch.0 buffer 0 0

first_warp-Holds : Holds two_paths seed 0 1 first_warp
first_warp-Holds = record { size = size; scoops = scoops }
  where
    size : length first_warp ≡ 1 * warp_size
    size =
        compress_pass-Sized two_paths.address_payload seed two_paths-IsTask.payload_size
          seed-IsSeed.size two_paths-IsTask.payload_bytes seed-IsSeed.bytes 1 0 0 (omega arith)
          batch.0 batch.2 helix_order buffer plain-IsRound.helix_turns 1 0
          (length-buffer ∙ omega arith) (omega arith)

    scoops :
        (w x y : ℕ)
        → w < 1
        → x < dim
        → y < dim
        → scoop_at first_warp (1 * dim) (w * dim + x) y
          ≡ compressed_scoop two_paths.address_payload seed y ((0 + w) * dim + x) 1
    scoops w x y hw hx hy =
        ap (λ v. scoop_at first_warp (1 * dim) (v * dim + x) y) {x = w} {y = 0} (omega arith)
        ∙ compress_pass-partial two_paths.address_payload seed two_paths-IsTask.payload_size
            seed-IsSeed.size two_paths-IsTask.payload_bytes seed-IsSeed.bytes 1 0 0 (omega arith)
            batch.0 batch.2 helix_order buffer plain-IsRound.helix_turns 1 0
            (length-buffer ∙ omega arith) (omega arith) x y hx hy (inl refl)
        ∙ partial_scoop-compressed_scoop two_paths.address_payload seed 1 0 1 x y (omega arith)
        ∙ ap (λ j. compressed_scoop two_paths.address_payload seed y j 1) {x = 0 * dim + x}
            {y = (0 + w) * dim + x} (omega arith)

-- A file for two warps whose marker says that none is written.
unfoldable two_warps : List ℕ
two_warps = replicate (2 * Plotfile.warp_size) 0

length-two_warps : length two_warps ≡ 2 * Plotfile.warp_size
unfolding two_warps
length-two_warps = length-replicate {A = ℕ} (2 * Plotfile.warp_size) 0

abbrev empty_file : PlotFile
empty_file = record {
  number_of_warps = 2;
  file_handle = some two_warps;
  access = read_write;
  read_progress = 0;
}

started :
    (after : List ℕ) × (write_resume_info empty_file 0
      ≡ Plotfile.ok (record empty_file { file_handle = some after }))
    × (read_resume_info (record empty_file { file_handle = some after }) ≡ Plotfile.ok 0)
    × (length after ≡ length two_warps)
    × (slice after 0 (length two_warps - 8) ≡ slice two_warps 0 (length two_warps - 8))
started =
    read_resume_info-write_resume_info empty_file two_warps 0 refl refl length-two_warps
      (omega arith) (omega arith) (omega arith)

abbrev started_plot : Plot
started_plot = record {
  file = record empty_file { file_handle = some started.0 };
  is_tmp = true;
  finished = none;
}

stored-generate_scoop_example :
    Option.map
      (λ c. ok (scoop_at c (2 * num_scoops) (0 * num_scoops + 99) 42))
      (stored (write_optimised_buffer_into_plotfile true started_plot first_warp 0 1))
    ≡ some (generate_scoop two_paths.address_payload seed 42 (0 * num_scoops + 99) 1)
stored-generate_scoop_example =
    stored-generate_scoop two_paths seed first_warp 0 1 started_plot started.0 99 42
      two_paths-IsTask seed-IsSeed first_warp-Holds (omega arith) refl refl
      (started.3 ∙ length-two_warps) (omega arith) (omega arith) (omega arith)
      (ap or_empty started.2) (omega arith) (omega arith) (inl (omega arith))
