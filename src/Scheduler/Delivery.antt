-- ===== src/Scheduler/Delivery.antt =====
-- What the writers get, from the start of the thread to its end.
use pocx.Base.{
  ℕ, ◌<◌, ◌≡◌, ◌⊎◌, inl, inr, refl, sym, subst, List, ◌∷◌, Option, none, some, Bool, true, false,
  ltb, for_range-keeps, Bool-cases, arith,
}
use native.Mathlib.Decide.{ℕ_discrete}
use pocx.Scheduler.{
  PlotterTask, Scheduler, Round, Outcome, running, left, panicked, end_task, active, flush_buffer,
  flush_taken, send_end, after_loop, rounds,
}
use pocx.Scheduler.Start.{begin}
use pocx.Scheduler.Progress.{Progress, Written, ended, elsewhere, IsSeed, IsTask}
use pocx.Scheduler.Invariant.{IsFilled, IsBuffer, IsRunning, IsSent}
use pocx.Scheduler.Flush.{flushed-IsSent}
use pocx.Scheduler.HandOver.{IsOutcome}
use pocx.Scheduler.Rounds.{AreRounds, rounds-IsOutcome}
use pocx.Scheduler.Seeds.{IsResume, resumed}
use pocx.Scheduler.Begin.{begin-IsRunning}

-- The tasks that have been sent for path `i` are those of the file format, in the order of the file; at
-- the end of the loop, those that the thread sends after it included.
abbrev pub IsDelivered : PlotterTask → (ℕ → Progress) → Bool → ℕ → Outcome → Type 0
IsDelivered task first there i (running s) = (p : Progress) × Written task i (first i) s.sent p
IsDelivered task first there i (left s) =
    (p : Progress) × Written task i (first i) (after_loop task there s).sent p
IsDelivered task first there i panicked = ⊥

module _ (task : PlotterTask) (first : ℕ → Progress) (ok : IsTask task) where
  send_end-IsSent : (n : ℕ) (s : Scheduler) → IsSent task first s → IsSent task first (send_end n s)
  unfolding send_end
  send_end-IsSent n s h =
      for_range-keeps (IsSent task first) _ n 0
        (λ k lo hi t q i ni. elim (ℕ_discrete k i) [
          | yes e ↦ (
            (q i ni).0,
            subst (λ j. Written task i (first i) ((j, end_task) ∷ t.sent) (q i ni).0) (sym e)
                (ended t.sent _ (q i ni).1),
          )
          | no ne ↦ ((q i ni).0, elsewhere k end_task t.sent _ ne (q i ni).1)
        ])
        s h

  -- The buffer that is at hand when the loop ends.
  last_flush-IsSent :
      (there : Bool) (s : Scheduler)
      → 0 < s.warps_in_buffer
      → IsSent task first s
      → (s.write_buffer ≡ none) ⊎ IsRunning task first s
      → (b : Option (List ℕ)) → s.write_buffer ≡ b
      → IsSent task first (
          flush_taken there
            (s.seeds s.buffer_path)
            (s.warp_offsets s.buffer_path)
            (task.warps s.buffer_path)
            s
            b)
  unfolding flush_taken
  last_flush-IsSent there s some_warps h run none e = h
  last_flush-IsSent there s some_warps h (inl gone) (some buf) e = absurd (cc)
  last_flush-IsSent true s some_warps h (inr run) (some buf) e =
      elim (Bool-cases (active task s s.path_pointer)) [
        | inl busy ↦
            let filled : IsFilled task s buf = subst (IsBuffer task s) e run.counted.buffer in
            let inside : s.warp_offsets s.path_pointer < task.warps s.path_pointer =
              run.inside busy in
            subst
              (λ q.
                IsSent task first
                  (flush_taken true (s.seeds q) (s.warp_offsets q) (task.warps q) s (some buf)))
              (sym filled.path)
              (flushed-IsSent task first ok s run.counted (omega (arith, inside)) some_warps buf
                filled)
        | inr idle ↦ absurd (ground (arith, run.idle idle, e))
      ]
  last_flush-IsSent false s some_warps h (inr run) (some buf) e = h

  after_loop-IsSent :
      (there : Bool) (s : Scheduler)
      → IsSent task first s
      → (s.write_buffer ≡ none) ⊎ IsRunning task first s
      → IsSent task first (after_loop task there s)
  unfolding after_loop flush_buffer
  after_loop-IsSent there s h run = elim (Bool-cases (ltb 0 s.warps_in_buffer)) [
    | inl t ↦ rw t (
        send_end-IsSent task.num_paths _
          (last_flush-IsSent there s (ground (arith, t)) h run s.write_buffer refl))
    | inr t ↦ rw t (send_end-IsSent task.num_paths s h)
  ]

  IsOutcome-IsDelivered :
      (there : Bool) (i : ℕ)
      → i < task.num_paths
      → (o : Outcome) → IsOutcome task first o
      → IsDelivered task first there i o
  IsOutcome-IsDelivered there i hi (running s) (inl run) =
      ((run.counted.writers i hi).at, (run.counted.writers i hi).written)
  IsOutcome-IsDelivered there i hi (running s) (inr stopped) = stopped.sent i hi
  IsOutcome-IsDelivered there i hi (left s) h = after_loop-IsSent there s h.0 h.1 i hi
  IsOutcome-IsDelivered there i hi panicked h = h

-- Whatever happens around the thread, it does not panic, and every task that the writer of a path gets
-- continues the file at hand: with its seed, with the warps that come next, with all their scoops as the
-- rules compute them from scratch, and not past the end of the file. For a task as in
-- `IsTask`: a payload of 20 bytes, a compression and a write buffer of at least 1, files of at least one
-- warp, and nonces that are numbered within u64; for paths that may resume, write buffers of the size of
-- the plotter, and pools that run each of their tasks once.
pub rounds-IsDelivered :
    (task : PlotterTask) (rand : ℕ → List ℕ) (resumes : ℕ → ℕ) (rs : List Round) (there : Bool)
    (i : ℕ)
    → IsTask task
    → ((k : ℕ) → IsSeed (rand k))
    → IsResume task resumes
    → AreRounds task rs
    → i < task.num_paths
    → IsDelivered task
        (resumed task resumes)
        there
        i
        (rounds task rand rs (running (begin task rand resumes)))
rounds-IsDelivered task rand resumes rs there i ok rand_ok known served hi =
    IsOutcome-IsDelivered task (resumed task resumes) ok there i hi _ (
      rounds-IsOutcome task (resumed task resumes) ok rand rand_ok rs served _
        (inl (begin-IsRunning task ok rand rand_ok resumes known (omega (arith, hi)))))
