-- ===== src/Scheduler/Ends.antt =====
-- What a round costs: a pass of the work that is left.
use pocx.Base.{
  ℕ, suc, ◌+◌, ◌*◌, ◌≤◌, ◌<◌, ◌≡◌, ◌≢◌, inl, inr, refl, ◌∙◌, ap, sym, subst, List, Option, none,
  some, Bool, true, false, ltb, ◌==◌, Bool-cases, Option-cases, arith,
}
use native.Mathlib.Decide.{ℕ_discrete}
use pocx.Plotter.{compress_batch}
use pocx.Plotter.Hash.{IsHashed}
use pocx.Scheduler.{
  PlotterTask, Scheduler, Round, Outcome, running, left, panicked, active, next_active,
  passes_per_warp, update, count_file, move_on, next_path, hand_over, finish_warp, compress_into,
  compress_with,
}
use pocx.Scheduler.Progress.{Progress, Written, IsSeed, IsTask, IsRound, IsRoom}
use pocx.Scheduler.Invariant.{update_other, IsFilled, IsBuffer, IsCounted}
use pocx.Scheduler.Passes.{
  grown_offset, passed, passed_over, grown, grown-inside, grown-IsFilled, grown-IsCounted,
}
use pocx.Scheduler.Flush.{IsCleared, flushed, moved-IsCleared, closed-IsCleared}
use pocx.Scheduler.HandOver.{count_file-any, flush, flush-there, or_true}
use pocx.Scheduler.Rounds.{taken, taken-IsCounted, fresh}
use pocx.Scheduler.Work.{work-more, work-last, next_plot, work, sum-ext, next_active-none}

-- The writer of path `i` has all its files.
abbrev pub HasAll : PlotterTask → (ℕ → Progress) → Scheduler → ℕ → Type 0
HasAll task first s i =
    (p : Progress) × Written task i (first i) s.sent p × (task.number_of_plots i ≤ p.files)

-- A round is paid for with one of `w` passes, or ends the loop when all is done.
abbrev pub IsPaid : PlotterTask → (ℕ → Progress) → ℕ → Outcome → Type 0
IsPaid task first w (running t) = (t.stop ≡ false) × (suc (work task t) ≡ w)
IsPaid task first w (left t) =
    (t.write_buffer ≡ none) × ((i : ℕ) → i < task.num_paths → HasAll task first t i)
IsPaid task first w panicked = ⊥

module _ (task : PlotterTask) (first : ℕ → Progress) (ok : IsTask task) where
  next_path-IsPaid :
      (b : Bool) (s : Scheduler) (w : ℕ)
      → s.path_pointer < task.num_paths
      → s.write_buffer ≡ none
      → s.stop ≡ false
      → ((p : ℕ) → IsCleared task first (move_on b p s))
      → ((p : ℕ) → suc (work task (move_on b p s)) ≡ w)
      → IsPaid task first w (next_path task b s)
  unfolding next_path move_on
  next_path-IsPaid b s w pointer empty go cleared paid = elim (Bool-cases (ltb 1 task.num_paths)) [
    | inl many ↦ elim (Option-cases (next_active task s task.num_paths 1)) [
      | inl e ↦
          rw (many, e)
            (
              empty,
              λ i hi.
                  let u = (cleared s.path_pointer).writers i hi in
                  (u.at, u.written, omega (arith, u.files, next_active-none task s pointer e i hi)),
            )
      | inr (p, e) ↦ rw (many, e) (go, paid p)
    ]
    | inr one ↦ rw one (go, paid s.path_pointer)
  ]

  module _ (rand : ℕ → List ℕ) (rand_ok : (k : ℕ) → IsSeed (rand k)) where
    module _ (s : Scheduler) (counted : IsCounted task first 0 s) (no_pass : s.pass_in_warp ≡ 0)
        (inside : s.warp_offsets s.path_pointer ≤ task.warps s.path_pointer)
        (some_warps : 0 < s.warps_in_buffer) (buf : List ℕ) (filled : IsFilled task s buf)
        (held : s.write_buffer ≡ some buf) (go : s.stop ≡ false) (w : ℕ)
        (paid : suc (work task s) ≡ w) where
      abbrev fl : Scheduler
      fl = flushed task first ok s counted inside some_warps buf filled

      moved-work : (p : ℕ) → work task (move_on false p fl) ≡ work task s
      unfolding move_on
      moved-work p = sum-ext task.num_paths _ _ (λ i hi. ground (arith, no_pass))

      closed-work :
          s.warp_offsets s.path_pointer ≡ task.warps s.path_pointer
          → active task s s.path_pointer ≡ true
          → (seeds' : ℕ → List ℕ) (drawn' p : ℕ)
          → work task (
              move_on true p (record fl {
                files_done = update s.files_done s.path_pointer (s.files_done s.path_pointer + 1);
                seeds = seeds';
                drawn = drawn';
              }))
            ≡ work task s
      unfolding move_on
      closed-work e busy seeds' drawn' p = sum-ext task.num_paths _ _ (λ i hi.
          elim (ℕ_discrete s.path_pointer i) [
            | yes q ↦ ground (
              arith,
              no_pass,
              q,
              e,
              next_plot (task.number_of_plots s.path_pointer) (s.files_done s.path_pointer)
                  (task.warps s.path_pointer) (some_plot busy),
            )
            | no ne ↦ ground (arith, no_pass, ne)
          ])
        where
          some_plot :
              active task s s.path_pointer ≡ true
              → s.files_done s.path_pointer < task.number_of_plots s.path_pointer
          some_plot h = ground (arith, h)

      hand_over-IsPaid :
          (there : Bool)
          → there ≡ true
          → active task s s.path_pointer ≡ true
          → IsPaid task first w (hand_over task rand there s)
      unfolding hand_over
      hand_over-IsPaid false e busy = absurd (cc)
      hand_over-IsPaid true e busy =
          elim (Bool-cases (s.warp_offsets s.path_pointer == task.warps s.path_pointer)) [
            | inl at_end ↦
                rw (at_end, or_true (s.warps_in_buffer == task.escalate))
                  (end_on (ground (arith, at_end)))
            | inr within ↦ elim (Bool-cases (s.warps_in_buffer == task.escalate)) [
              | inl full ↦ rw (full, within) (go_on (ground (arith, within)))
              | inr more ↦ rw (more, within) (go, paid)
            ]
          ]
        where
          go_on :
              s.warp_offsets s.path_pointer ≢ task.warps s.path_pointer
              → IsPaid task first w (
                  next_path task false (
                    flush task first ok rand rand_ok s counted no_pass inside some_warps buf filled
                      held true))
          go_on ne =
              subst (λ t. IsPaid task first w (next_path task false t))
                (sym (
                  flush-there task first ok rand rand_ok s counted no_pass inside some_warps buf
                    filled held))
                (next_path-IsPaid false fl w counted.pointer refl go
                  (λ p.
                    moved-IsCleared task first ok s counted inside some_warps buf filled no_pass ne
                      p)
                  (λ p. ap suc (moved-work p) ∙ paid))

          end_on :
              s.warp_offsets s.path_pointer ≡ task.warps s.path_pointer
              → IsPaid task first w (
                  next_path task true (
                    count_file task rand (
                      flush task first ok rand rand_ok s counted no_pass inside some_warps buf
                        filled held true)))
          end_on e =
              subst (λ t. IsPaid task first w (next_path task true (count_file task rand t)))
                (sym (
                  flush-there task first ok rand rand_ok s counted no_pass inside some_warps buf
                    filled held))
                (count_file-any task first ok rand rand_ok
                  (λ t. IsPaid task first w (next_path task true t)) fl
                  (λ seeds' drawn' seeds_ok same_seeds.
                    next_path-IsPaid true _ w counted.pointer refl go
                      (λ p.
                        closed-IsCleared task first ok s counted inside some_warps buf filled
                          no_pass e seeds' (λ i hi. seeds_ok i hi (counted.seeds i hi)) same_seeds
                          drawn' p)
                      (λ p. ap suc (closed-work e busy seeds' drawn' p) ∙ paid)))

    module _ (r : Round) (served : IsRound task r) (there : r.writer_there ≡ true) where
      compress_into-IsPaid :
          (s : Scheduler) (counted : IsCounted task first 1 s)
          (inside : s.warp_offsets s.path_pointer < task.warps s.path_pointer)
          (room : s.warps_in_buffer < task.escalate)
          (hashed_ok : IsHashed task.address_payload
            (s.seeds s.path_pointer)
            ((s.warp_offsets s.path_pointer * passes_per_warp task + s.pass_in_warp)
              * compress_batch)
            s.scatter_buf)
          (buf : List ℕ) (filled : IsFilled task s buf)
          → active task s s.path_pointer ≡ true
          → s.stop ≡ false
          → IsPaid task first (work task s) (compress_into task rand r buf s)
      unfolding compress_into finish_warp
      compress_into-IsPaid s counted inside room hashed_ok buf filled busy go =
          elim (Bool-cases (s.pass_in_warp + 1 == passes_per_warp task)) [
            | inl last ↦
                let whole : s.pass_in_warp + 1 ≡ passes_per_warp task = ground (arith, last) in
                rw last (
                  hand_over-IsPaid
                    (grown task first ok s counted inside room hashed_ok r served buf filled)
                    (grown-IsCounted task first ok s counted inside room hashed_ok r served buf
                      filled whole)
                    refl
                    (grown-inside task first ok s counted inside room hashed_ok r served buf filled)
                    (omega arith)
                    (passed task first ok s counted inside room hashed_ok r served buf filled)
                    (grown-IsFilled task first ok s counted inside room hashed_ok r served buf
                      filled whole)
                    refl go (work task s)
                    (work-last task s
                      (grown task first ok s counted inside room hashed_ok r served buf filled)
                      counted.pointer busy inside refl refl whole refl
                      (grown_offset task first ok s counted inside room hashed_ok r served buf
                        filled)
                      (λ i ne. update_other s.warp_offsets s.path_pointer i _ ne))
                    r.writer_there there busy)
            | inr more ↦ rw more (
              go,
              work-more task s
                  (passed_over task first ok s counted inside room hashed_ok r served buf filled)
                  counted.pointer busy inside refl refl
                  (omega (arith, counted.passes, not_last more)) refl refl,
            )
          ]
        where
          not_last :
              (s.pass_in_warp + 1 == passes_per_warp task) ≡ false
              → s.pass_in_warp + 1 ≢ passes_per_warp task
          not_last h = ground (arith, h)

      module _ (s : Scheduler) (counted : IsCounted task first 1 s)
          (inside : s.warp_offsets s.path_pointer < task.warps s.path_pointer)
          (room : s.warps_in_buffer < task.escalate)
          (hashed_ok : IsHashed task.address_payload
            (s.seeds s.path_pointer)
            ((s.warp_offsets s.path_pointer * passes_per_warp task + s.pass_in_warp)
              * compress_batch)
            s.scatter_buf)
          (busy : active task s s.path_pointer ≡ true) (go : s.stop ≡ false) where
        pub compress_with-IsPaid :
            (b received : Option (List ℕ))
            → IsBuffer task s b
            → IsRoom task received
            → received ≢ none
            → IsPaid task first (work task s) (compress_with task rand r s b received)
        unfolding compress_with
        compress_with-IsPaid (some buf) received filled q there =
            compress_into-IsPaid s counted inside room hashed_ok buf filled busy go
        compress_with-IsPaid none none h q there = absurd (there refl)
        compress_with-IsPaid none (some buf) h q there =
            compress_into-IsPaid (taken s buf) (taken-IsCounted task first s counted buf h q) inside
              room hashed_ok buf (fresh task first s counted buf h q) busy go
