-- ===== src/Scheduler/Complete.antt =====
-- The loop ends with every file at its writer, if nothing stops it.
use pocx.Base.{
  ℕ, suc, ◌<◌, ◌≡◌, ◌≢◌, inl, inr, refl, ◌∙◌, ap, sym, subst, List, [], ◌∷◌, length, none, Bool,
  true, false, ltb, ◌||◌, for_range-keeps, Bool-cases, arith,
}
use native.Mathlib.Decide.{ℕ_discrete}
use pocx.Scheduler.{
  PlotterTask, Scheduler, Round, Outcome, running, left, panicked, end_task, active, all_done,
  compress_round, hash_round, round, rounds, flush_buffer, flush_taken, send_end, after_loop,
}
use pocx.Scheduler.Start.{begin}
use pocx.Scheduler.Progress.{Progress, Written, ended, elsewhere, IsSeed, IsTask, IsRound}
use pocx.Scheduler.Invariant.{IsRunning}
use pocx.Scheduler.Hashing.{hashed, hashed-IsCounted, hash_nonces_cpu-some}
use pocx.Scheduler.HandOver.{IsOutcome}
use pocx.Scheduler.Rounds.{round-IsRunning}
use pocx.Scheduler.Seeds.{IsResume, resumed}
use pocx.Scheduler.Going.{begin-stop}
use pocx.Scheduler.Begin.{begin-IsRunning}
use pocx.Scheduler.Work.{all_passes, work-le, work, all_done-le}
use pocx.Scheduler.Ends.{HasAll, IsPaid, compress_with-IsPaid}

-- Nothing stops the thread in this round.
pub record IsSmooth (task : PlotterTask) (r : Round) : Type 0 where
  pub served : IsRound task r
  pub goes_on : r.stop_requested ≡ false
  pub writer : r.writer_there ≡ true
  pub buffer : r.empty_buffer ≢ none

abbrev pub AreSmooth : PlotterTask → List Round → Type 0
AreSmooth task [] = Unit {0}
AreSmooth task (r ∷ rs) = IsSmooth task r × AreSmooth task rs

-- The loop is left, and the writer of path `i` has all its files when the thread ends.
abbrev pub IsComplete : PlotterTask → (ℕ → Progress) → Bool → ℕ → Outcome → Type 0
IsComplete task first there i (running s) = ⊥
IsComplete task first there i (left s) = HasAll task first (after_loop task there s) i
IsComplete task first there i panicked = ⊥

module _ (task : PlotterTask) (first : ℕ → Progress) (ok : IsTask task) where
  send_end-HasAll :
      (n : ℕ) (s : Scheduler) (i : ℕ) → HasAll task first s i → HasAll task first (send_end n s) i
  unfolding send_end
  send_end-HasAll n s i h =
      for_range-keeps (λ (t : Scheduler). HasAll task first t i) _ n 0
        (λ k lo hi t q. elim (ℕ_discrete k i) [
          | yes e ↦ (
            q.0,
            subst (λ j. Written task i (first i) ((j, end_task) ∷ t.sent) q.0) (sym e)
                (ended t.sent _ q.1),
            q.2,
          )
          | no ne ↦ (q.0, elsewhere k end_task t.sent _ ne q.1, q.2)
        ])
        s h

  after_loop-HasAll :
      (there : Bool) (s : Scheduler) (i : ℕ)
      → s.write_buffer ≡ none
      → HasAll task first s i
      → HasAll task first (after_loop task there s) i
  unfolding after_loop flush_buffer flush_taken
  after_loop-HasAll there s i empty h = elim (Bool-cases (ltb 0 s.warps_in_buffer)) [
    | inl t ↦ rw t (
        send_end-HasAll task.num_paths _ i (
          subst (λ u. HasAll task first u i)
            (sym (
              ap
                (flush_taken there (s.seeds s.buffer_path) (s.warp_offsets s.buffer_path)
                  (task.warps s.buffer_path) s)
                empty
              ∙ still))
            h))
    | inr t ↦ rw t (send_end-HasAll task.num_paths s i h)
  ]
    where
      still :
          flush_taken there
            (s.seeds s.buffer_path)
            (s.warp_offsets s.buffer_path)
            (task.warps s.buffer_path)
            s
            none
          ≡ s
      still = refl

  module _ (rand : ℕ → List ℕ) (rand_ok : (k : ℕ) → IsSeed (rand k)) where
    round-IsPaid :
        (r : Round)
        → IsSmooth task r
        → (s : Scheduler) → IsRunning task first s
        → s.stop ≡ false
        → IsPaid task first (work task s) (round task rand r s)
    unfolding round hash_round compress_round
    round-IsPaid r smooth s run go = elim (Bool-cases (all_done task s task.num_paths)) [
      | inl done ↦ rw done (
        empty done,
        λ i hi.
            let u = run.counted.writers i hi in
            (u.at, u.written, omega (arith, u.files, all_done-le task s task.num_paths done i hi)),
      )
      | inr more ↦
          let busy : active task s s.path_pointer ≡ true = elim run.busy [
            | inl b ↦ b
            | inr d ↦ absurd (ground (arith, d, more))
          ] in
          let (out, e, h) = hash_nonces_cpu-some task first ok s run busy r smooth.served in
          let counted = hashed-IsCounted task first ok s run busy out h.size in
          rw (more, goes, e)
            (compress_with-IsPaid task first ok rand rand_ok r smooth.served smooth.writer
              (hashed task first ok s run busy out) counted (run.inside busy) run.room h busy go
              s.write_buffer r.empty_buffer counted.buffer smooth.served.room smooth.buffer)
    ]
      where
        goes : (s.stop || r.stop_requested) ≡ false
        goes = ground (arith, go, smooth.goes_on)

        empty : all_done task s task.num_paths ≡ true → s.write_buffer ≡ none
        empty done = elim (Bool-cases (active task s s.path_pointer)) [
          | inl busy ↦ absurd (
              ground (
                arith,
                busy,
                all_done-le task s task.num_paths done s.path_pointer run.counted.pointer,
              ))
          | inr idle ↦ run.idle idle
        ]

    rounds-left : (rs : List Round) (t : Scheduler) → rounds task rand rs (left t) ≡ left t
    unfolding rounds
    rounds-left [] t = refl
    rounds-left (r ∷ rs) t = refl

    rounds-after :
        (there : Bool) (i : ℕ)
        → i < task.num_paths
        → (rs : List Round)
        → ((s : Scheduler)
            → IsRunning task first s
            → s.stop ≡ false
            → work task s < length rs
            → IsComplete task first there i (rounds task rand rs (running s)))
        → (w : ℕ) → w < suc (length rs)
        → (o : Outcome) → IsOutcome task first o
        → IsPaid task first w o
        → IsComplete task first there i (rounds task rand rs o)
    rounds-after there i hi rs rest w enough (running t) (inl run) paid =
        rest t run paid.0 (omega (arith, paid.1))
    rounds-after there i hi rs rest w enough (running t) (inr stopped) paid =
        absurd (ground (arith, stopped.stopped, paid.0))
    rounds-after there i hi rs rest w enough (left t) h paid =
        subst (IsComplete task first there i) (sym (rounds-left rs t))
          (after_loop-HasAll there t i paid.0 (paid.1 i hi))
    rounds-after there i hi rs rest w enough panicked h paid = absurd paid

    pub rounds-running :
        (there : Bool) (i : ℕ)
        → i < task.num_paths
        → (rs : List Round) → AreSmooth task rs
        → (s : Scheduler) → IsRunning task first s
        → s.stop ≡ false
        → work task s < length rs
        → IsComplete task first there i (rounds task rand rs (running s))
    unfolding rounds
    rounds-running there i hi [] smooth s run go enough = absurd (omega arith)
    rounds-running there i hi (r ∷ rs) smooth s run go enough =
        rounds-after there i hi rs (rounds-running there i hi rs smooth.1) (work task s) enough
          (round task rand r s) (round-IsRunning task first ok rand rand_ok r smooth.0.served s run)
          (round-IsPaid r smooth.0 s run go)

-- The thread ends: if it is not stopped and there are more rounds than all plots have passes, it leaves the
-- loop, and the writer of every path has all the files of the path, the tasks in the order of the file
-- format. For a task as in
-- `IsTask`: a payload of 20 bytes, a compression and a write buffer of at least 1, files of at least one
-- warp, and nonces that are numbered within u64; for paths that may resume, write buffers of the size of
-- the plotter, and pools that run each of their tasks once.
pub rounds-IsComplete :
    (task : PlotterTask) (rand : ℕ → List ℕ) (resumes : ℕ → ℕ) (rs : List Round) (there : Bool)
    (i : ℕ)
    → IsTask task
    → ((k : ℕ) → IsSeed (rand k))
    → IsResume task resumes
    → AreSmooth task rs
    → all_passes task < length rs
    → i < task.num_paths
    → IsComplete task
        (resumed task resumes)
        there
        i
        (rounds task rand rs (running (begin task rand resumes)))
rounds-IsComplete task rand resumes rs there i ok rand_ok known smooth enough hi =
    rounds-running task (resumed task resumes) ok rand rand_ok there i hi rs smooth
      (begin task rand resumes)
      (begin-IsRunning task ok rand rand_ok resumes known (omega (arith, hi)))
      (begin-stop task rand resumes) (omega (arith, enough, work-le task (begin task rand resumes)))
