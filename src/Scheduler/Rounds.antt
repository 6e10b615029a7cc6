-- ===== src/Scheduler/Rounds.antt =====
-- Every round of the loop keeps the tasks in order.
use pocx.Base.{
  ℕ, ◌+◌, ◌*◌, ◌<◌, ◌≡◌, ◌≢◌, inl, inr, refl, List, [], ◌∷◌, Option, none, some, true, false, ◌||◌,
  ◌==◌, Bool-cases, arith,
}
use pocx.Plotter.{compress_batch}
use pocx.Plotter.Hash.{IsHashed}
use pocx.Scheduler.{
  PlotterTask, Scheduler, Round, Outcome, running, left, panicked, active, all_done,
  passes_per_warp, finish_warp, compress_into, compress_with, compress_round, hash_round, round,
  rounds,
}
use pocx.Scheduler.Progress.{Progress, IsSeed, IsTask, IsRound, IsRoom}
use pocx.Scheduler.Invariant.{IsFilled, IsBuffer, IsCounted, IsRunning, IsSent, IsStopped}
use pocx.Scheduler.Hashing.{keep-IsUpToDate, hashed, hashed-IsCounted, hash_nonces_cpu-some}
use pocx.Scheduler.Passes.{
  passed, passed_over-IsRunning, grown, grown-inside, grown-IsFilled, grown-IsCounted,
}
use pocx.Scheduler.HandOver.{IsOutcome, hand_over-IsOutcome}

-- A new write buffer.
abbrev pub taken : Scheduler → List ℕ → Scheduler
taken s buf = record s {
  write_buffer = some buf;
  buffer_start_warp = s.warp_offsets s.path_pointer;
  buffer_path = s.path_pointer;
}

module _ (task : PlotterTask) (first : ℕ → Progress) (s : Scheduler)
    (counted : IsCounted task first 1 s) (buf : List ℕ) (h : IsBuffer task s none)
    (q : IsRoom task (some buf)) where
  pub fresh : IsFilled task (taken s buf) buf
  fresh = record {
    path = refl;
    start = omega (arith, h.0);
    holds = record { size = q; scoops = λ w x y hw hx hy. absurd (omega (arith, h.0, hw)) };
    part = λ x y hx hy. inl h.1;
  }

  pub taken-IsCounted : IsCounted task first 1 (taken s buf)
  taken-IsCounted = record {
    pointer = counted.pointer;
    passes = counted.passes;
    here = counted.here;
    others = counted.others;
    offsets = counted.offsets;
    scatter = counted.scatter;
    seeds = counted.seeds;
    buffer = fresh;
    writers = λ i hi.
        keep-IsUpToDate task first s (taken s buf) i refl refl refl refl (counted.writers i hi);
  }

abbrev pub AreRounds : PlotterTask → List Round → Type 0
AreRounds task [] = Unit {0}
AreRounds task (r ∷ rs) = IsRound task r × AreRounds task rs

module _ (task : PlotterTask) (first : ℕ → Progress) (ok : IsTask task) (rand : ℕ → List ℕ)
    (rand_ok : (k : ℕ) → IsSeed (rand k)) where
  module _ (r : Round) (served : IsRound task r) where
    compress_into-IsOutcome :
        (s : Scheduler)
        → IsCounted task first 1 s
        → s.warp_offsets s.path_pointer < task.warps s.path_pointer
        → s.warps_in_buffer < task.escalate
        → IsHashed task.address_payload
            (s.seeds s.path_pointer)
            ((s.warp_offsets s.path_pointer * passes_per_warp task + s.pass_in_warp)
              * compress_batch)
            s.scatter_buf
        → (buf : List ℕ) → IsFilled task s buf
        → active task s s.path_pointer ≡ true
        → IsOutcome task first (compress_into task rand r buf s)
    unfolding compress_into finish_warp
    compress_into-IsOutcome s counted inside room hashed_ok buf filled busy =
        elim (Bool-cases (s.pass_in_warp + 1 == passes_per_warp task)) [
          | inl last ↦
              let whole : s.pass_in_warp + 1 ≡ passes_per_warp task = ground (arith, last) in
              rw last (
                hand_over-IsOutcome task first ok rand rand_ok
                  (grown task first ok s counted inside room hashed_ok r served buf filled)
                  (grown-IsCounted task first ok s counted inside room hashed_ok r served buf filled
                    whole)
                  refl
                  (grown-inside task first ok s counted inside room hashed_ok r served buf filled)
                  (omega arith)
                  (passed task first ok s counted inside room hashed_ok r served buf filled)
                  (grown-IsFilled task first ok s counted inside room hashed_ok r served buf filled
                    whole)
                  refl busy (omega (arith, room)) r.writer_there)
          | inr more ↦ rw more (
              inl (
                passed_over-IsRunning task first ok s counted inside room hashed_ok r served buf
                  filled busy (omega (arith, counted.passes, not_last s more))))
        ]
      where
        not_last :
            (s : Scheduler)
            → (s.pass_in_warp + 1 == passes_per_warp task) ≡ false
            → s.pass_in_warp + 1 ≢ passes_per_warp task
        not_last s h = ground (arith, h)

    compress_with-IsOutcome :
        (s : Scheduler)
        → IsCounted task first 1 s
        → s.warp_offsets s.path_pointer < task.warps s.path_pointer
        → s.warps_in_buffer < task.escalate
        → IsHashed task.address_payload
            (s.seeds s.path_pointer)
            ((s.warp_offsets s.path_pointer * passes_per_warp task + s.pass_in_warp)
              * compress_batch)
            s.scatter_buf
        → active task s s.path_pointer ≡ true
        → (b received : Option (List ℕ)) → s.write_buffer ≡ b
        → IsBuffer task s b
        → IsRoom task received
        → IsOutcome task first (compress_with task rand r s b received)
    unfolding compress_with
    compress_with-IsOutcome s counted inside room hashed_ok busy (some buf) received e filled q =
        compress_into-IsOutcome s counted inside room hashed_ok buf filled busy
    compress_with-IsOutcome s counted inside room hashed_ok busy none none e h q =
        (λ i hi. ((counted.writers i hi).at, (counted.writers i hi).written), inl e)
    compress_with-IsOutcome s counted inside room hashed_ok busy none (some buf) e h q =
        compress_into-IsOutcome (taken s buf) (taken-IsCounted task first s counted buf h q) inside
          room hashed_ok buf (fresh task first s counted buf h q) busy

    pub round-IsRunning :
        (s : Scheduler) → IsRunning task first s → IsOutcome task first (round task rand r s)
    unfolding round hash_round compress_round
    round-IsRunning s run = elim (Bool-cases (all_done task s task.num_paths)) [
      | inl done ↦ rw done (all_sent, inr run)
      | inr more ↦ elim (Bool-cases (s.stop || r.stop_requested)) [
        | inl t ↦ rw (more, t) (all_sent, inr run)
        | inr t ↦
            let busy : active task s s.path_pointer ≡ true = elim run.busy [
              | inl b ↦ b
              | inr d ↦ absurd (ground (arith, d, more))
            ] in
            let (out, e, h) = hash_nonces_cpu-some task first ok s run busy r served in
            rw (more, t, e)
              (compress_with-IsOutcome (hashed task first ok s run busy out)
                (hashed-IsCounted task first ok s run busy out h.size) (run.inside busy) run.room h
                busy s.write_buffer r.empty_buffer refl
                (hashed-IsCounted task first ok s run busy out h.size).buffer served.room)
      ]
    ]
      where
        all_sent : IsSent task first s
        all_sent i hi = ((run.counted.writers i hi).at, (run.counted.writers i hi).written)

    round-IsStopped :
        (s : Scheduler) → IsStopped task first s → IsOutcome task first (round task rand r s)
    unfolding round
    round-IsStopped s h = elim (Bool-cases (all_done task s task.num_paths)) [
      | inl done ↦ rw done (h.sent, inl h.empty)
      | inr more ↦ rw (more, stops) (h.sent, inl h.empty)
    ]
      where
        stops : (s.stop || r.stop_requested) ≡ true
        stops = ground (arith, h.stopped)

  pub rounds-IsOutcome :
      (rs : List Round)
      → AreRounds task rs
      → (o : Outcome) → IsOutcome task first o
      → IsOutcome task first (rounds task rand rs o)
  unfolding rounds
  rounds-IsOutcome [] served o h = h
  rounds-IsOutcome (r ∷ rs) served (running s) (inl h) =
      rounds-IsOutcome rs served.1 (round task rand r s) (round-IsRunning r served.0 s h)
  rounds-IsOutcome (r ∷ rs) served (running s) (inr h) =
      rounds-IsOutcome rs served.1 (round task rand r s) (round-IsStopped r served.0 s h)
  rounds-IsOutcome (r ∷ rs) served (left s) h = h
  rounds-IsOutcome (r ∷ rs) served panicked h = absurd h
