-- ===== src/Scheduler/HandOver.antt =====
-- A full buffer goes to its writer, and the round robin moves on.
use pocx.Base.{
  ℕ, zero, suc, ◌+◌, ◌%◌, ◌≤◌, ◌<◌, ◌≡◌, ◌≢◌, ◌⊎◌, inl, inr, refl, ap, sym, subst, List, none, some,
  Bool, true, false, ltb, ltb→le, ◌==◌, ◌||◌, Bool-cases, Option-cases, arith,
}
use native.Mathlib.Decide.{ℕ_discrete}
use native.Mathlib.Nat.{mod-lt}
use pocx.Scheduler.{
  PlotterTask, Scheduler, Outcome, running, left, panicked, active, all_done, next_active, update,
  fill_seed, flush_buffer, flush_taken, count_file, move_on, next_path, hand_over,
}
use pocx.Scheduler.Progress.{Progress, IsSeed, IsTask}
use pocx.Scheduler.Invariant.{
  update_same, update_other, IsFilled, IsCounted, IsRunning, IsSent, IsStopped,
}
use pocx.Scheduler.Flush.{
  flushed-IsSent, IsCleared, IsCleared-IsRunning, flushed, moved-IsCleared, closed-IsCleared,
}

-- After a round: nothing was sent out of order, and if the loop goes on, the counters are right or a
-- stop is requested.
abbrev pub IsOutcome : PlotterTask → (ℕ → Progress) → Outcome → Type 0
IsOutcome task first (running s) = IsRunning task first s ⊎ IsStopped task first s
IsOutcome task first (left s) =
    IsSent task first s × ((s.write_buffer ≡ none) ⊎ IsRunning task first s)
IsOutcome task first panicked = ⊥

pub next_active-active :
    (task : PlotterTask) (s : Scheduler) (n i p : ℕ)
    → 0 < task.num_paths
    → next_active task s n i ≡ some p
    → (p < task.num_paths) × (active task s p ≡ true)
unfolding next_active
next_active-active task s zero i p h e = absurd (cc)
next_active-active task s (suc n) i p h e =
    elim (Bool-cases (active task s ((s.path_pointer + i) % task.num_paths))) [
      | inl t ↦
          let here : (s.path_pointer + i) % task.num_paths ≡ p = (ground (arith, e, t)) in
          subst (λ q. (q < task.num_paths) × (active task s q ≡ true)) here (mod-lt _ h, t)
      | inr t ↦ next_active-active task s n (suc i) p h (ground (arith, e, t))
    ]

pub or_true : (b : Bool) → (b || true) ≡ true
or_true true = refl
or_true false = refl

pub only_path :
    (task : PlotterTask) (s : Scheduler)
    → s.path_pointer < task.num_paths
    → ltb 1 task.num_paths ≡ false
    → (active task s s.path_pointer ≡ true) ⊎ (all_done task s task.num_paths ≡ true)
unfolding all_done
only_path task s pointer one = elim (Bool-cases (active task s s.path_pointer)) [
  | inl t ↦ inl t
  | inr t ↦ inr (
      subst (λ n. all_done task s n ≡ true) {x = 1} {y = task.num_paths}
        (omega (arith, pointer, ltb→le 1 task.num_paths one))
        (rw
          (subst (λ i. active task s i ≡ false) {x = s.path_pointer} {y = 0}
            (omega (arith, pointer, ltb→le 1 task.num_paths one)) t)
          refl))
]

module _ (task : PlotterTask) (first : ℕ → Progress) (ok : IsTask task) where
  next_path-IsOutcome :
      (b : Bool) (s : Scheduler)
      → s.path_pointer < task.num_paths
      → s.write_buffer ≡ none
      → IsSent task first s
      → ((p : ℕ) → IsCleared task first (move_on b p s))
      → IsOutcome task first (next_path task b s)
  unfolding next_path move_on
  next_path-IsOutcome b s pointer empty sent cleared = elim (Bool-cases (ltb 1 task.num_paths)) [
    | inl many ↦ elim (Option-cases (next_active task s task.num_paths 1)) [
      | inl e ↦ rw (many, e) (sent, inl empty)
      | inr (p, e) ↦
          let found = next_active-active task s task.num_paths 1 p (omega arith) e in
          rw (many, e)
            (inl
              (IsCleared-IsRunning task first ok (move_on b p s) (cleared p) found.0 (inl found.1)))
    ]
    | inr one ↦ rw one (
        inl (
          IsCleared-IsRunning task first ok (move_on b s.path_pointer s) (cleared s.path_pointer)
            pointer (only_path task (move_on b s.path_pointer s) pointer one)))
  ]

  -- A stop that is requested stays requested.
  next_path-IsStopped :
      (b : Bool) (s : Scheduler)
      → IsStopped task first s
      → IsOutcome task first (next_path task b s)
  unfolding next_path move_on
  next_path-IsStopped b s h = elim (Bool-cases (ltb 1 task.num_paths)) [
    | inl many ↦ elim (Option-cases (next_active task s task.num_paths 1)) [
      | inl e ↦ rw (many, e) (h.sent, inl h.empty)
      | inr (p, e) ↦
          rw (many, e) (inr (record { stopped = h.stopped; empty = h.empty; sent = h.sent }))
    ]
    | inr one ↦ rw one (inr (record { stopped = h.stopped; empty = h.empty; sent = h.sent }))
  ]

  module _ (rand : ℕ → List ℕ) (rand_ok : (k : ℕ) → IsSeed (rand k)) where
    -- What holds of the counted file with any seeds holds after `count_file`.
    pub count_file-any :
        (P : Scheduler → Type 0) (s : Scheduler)
        → ((seeds' : ℕ → List ℕ) (drawn' : ℕ)
            → ((i : ℕ) → i < task.num_paths → IsSeed (s.seeds i) → IsSeed (seeds' i))
            → ((i : ℕ) → s.path_pointer ≢ i → seeds' i ≡ s.seeds i)
            → P (record s {
              files_done = update s.files_done s.path_pointer (s.files_done s.path_pointer + 1);
              seeds = seeds';
              drawn = drawn';
            }))
        → P (count_file task rand s)
    unfolding count_file fill_seed
    count_file-any P s h =
        elim (Bool-cases (
          ltb (update s.files_done s.path_pointer (s.files_done s.path_pointer + 1) s.path_pointer)
            (task.number_of_plots s.path_pointer))) [
              | inl t ↦ rw t (
                  h (update s.seeds s.path_pointer (rand s.drawn)) (suc s.drawn)
                    (λ i hi old. drawn_ok i old)
                    (λ i ne. update_other s.seeds s.path_pointer i _ ne))
              | inr t ↦ rw t (h s.seeds s.drawn (λ i hi old. old) (λ i ne. refl))
            ]
      where
        drawn_ok :
            (i : ℕ) → IsSeed (s.seeds i) → IsSeed (update s.seeds s.path_pointer (rand s.drawn) i)
        drawn_ok i old = elim (ℕ_discrete s.path_pointer i) [
          | yes e ↦
              subst IsSeed
                (sym (
                  subst (λ j. update s.seeds s.path_pointer (rand s.drawn) j ≡ rand s.drawn) e
                    (update_same s.seeds s.path_pointer (rand s.drawn))))
                (rand_ok s.drawn)
          | no ne ↦ subst IsSeed (sym (update_other s.seeds s.path_pointer i _ ne)) old
        ]

    module _ (s : Scheduler) (counted : IsCounted task first 0 s) (no_pass : s.pass_in_warp ≡ 0)
        (inside : s.warp_offsets s.path_pointer ≤ task.warps s.path_pointer)
        (some_warps : 0 < s.warps_in_buffer) (buf : List ℕ) (filled : IsFilled task s buf)
        (held : s.write_buffer ≡ some buf) where
      abbrev pub flush : Bool → Scheduler
      flush there =
          flush_buffer there (s.seeds s.path_pointer) (s.warp_offsets s.path_pointer)
            (task.warps s.path_pointer) s

      all-IsSent : IsSent task first s
      all-IsSent i hi = ((counted.writers i hi).at, (counted.writers i hi).written)

      pub flush-there : flush true ≡ flushed task first ok s counted inside some_warps buf filled
      unfolding flush_buffer flush_taken
      flush-there =
          ap
            (flush_taken true (s.seeds s.path_pointer) (s.warp_offsets s.path_pointer)
              (task.warps s.path_pointer) s)
            held

      flush-gone : flush false ≡ record s { write_buffer = none; stop = true }
      unfolding flush_buffer flush_taken
      flush-gone =
          ap
            (flush_taken false (s.seeds s.path_pointer) (s.warp_offsets s.path_pointer)
              (task.warps s.path_pointer) s)
            held

      gone-IsStopped : IsStopped task first (record s { write_buffer = none; stop = true })
      gone-IsStopped = record { stopped = refl; empty = refl; sent = all-IsSent }

      pub hand_over-IsOutcome :
          active task s s.path_pointer ≡ true
          → s.warps_in_buffer ≤ task.escalate
          → (there : Bool) → IsOutcome task first (hand_over task rand there s)
      unfolding hand_over
      hand_over-IsOutcome busy room there =
          elim (Bool-cases (s.warp_offsets s.path_pointer == task.warps s.path_pointer)) [
            | inl at_end ↦
                rw (at_end, or_true (s.warps_in_buffer == task.escalate))
                  (end_on there (ground (arith, at_end)))
            | inr within ↦ elim (Bool-cases (s.warps_in_buffer == task.escalate)) [
              | inl full ↦ rw (full, within) (go_on there (ground (arith, within)))
              | inr more ↦
                  rw (more, within)
                    (inl (record {
                      counted = counted;
                      inside = λ e. ground (arith, inside, within);
                      room = ground (arith, room, more);
                      idle = λ e. absurd (ground (arith, e, busy));
                      busy = inl busy;
                    }))
            ]
          ]
        where
          go_on :
              (there : Bool)
              → s.warp_offsets s.path_pointer ≢ task.warps s.path_pointer
              → IsOutcome task first (next_path task false (flush there))
          go_on true ne =
              subst (λ t. IsOutcome task first (next_path task false t)) (sym flush-there)
                (next_path-IsOutcome false
                  (flushed task first ok s counted inside some_warps buf filled) counted.pointer
                  refl (flushed-IsSent task first ok s counted inside some_warps buf filled)
                  (λ p.
                    moved-IsCleared task first ok s counted inside some_warps buf filled no_pass ne
                      p))
          go_on false ne =
              subst (λ t. IsOutcome task first (next_path task false t)) (sym flush-gone)
                (next_path-IsStopped false _ gone-IsStopped)

          end_on :
              (there : Bool)
              → s.warp_offsets s.path_pointer ≡ task.warps s.path_pointer
              → IsOutcome task first (next_path task true (count_file task rand (flush there)))
          end_on true e =
              subst (λ t. IsOutcome task first (next_path task true (count_file task rand t)))
                (sym flush-there)
                (count_file-any (λ t. IsOutcome task first (next_path task true t))
                  (flushed task first ok s counted inside some_warps buf filled)
                  (λ seeds' drawn' seeds_ok same_seeds.
                    next_path-IsOutcome true _ counted.pointer refl
                      (flushed-IsSent task first ok s counted inside some_warps buf filled)
                      (λ p.
                        closed-IsCleared task first ok s counted inside some_warps buf filled
                          no_pass e seeds' (λ i hi. seeds_ok i hi (counted.seeds i hi)) same_seeds
                          drawn' p)))
          end_on false e =
              subst (λ t. IsOutcome task first (next_path task true (count_file task rand t)))
                (sym flush-gone)
                (count_file-any (λ t. IsOutcome task first (next_path task true t))
                  (record s { write_buffer = none; stop = true })
                  (λ seeds' drawn' seeds_ok same_seeds.
                    next_path-IsStopped true _
                      (record { stopped = refl; empty = refl; sent = all-IsSent })))
