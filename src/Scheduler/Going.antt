-- ===== src/Scheduler/Going.antt =====
-- No stop is requested when the loop starts.
use pocx.Base.{ℕ, ◌≡◌, refl, List, Option, none, some, false, for_range-keeps, arith}
use pocx.Scheduler.{PlotterTask, Scheduler, fill_seed}
use pocx.Scheduler.Start.{
  first_active, init_seed, init_nonces, init_finished, point_to, pick_path, blank, begin,
}

-- No step before the loop requests a stop.
abbrev Goes : Scheduler → Type 0
Goes s = s.stop ≡ false

init_seed-Goes :
    (rand : ℕ → List ℕ) (resumes : ℕ → ℕ) (i : ℕ) (o : Option (List ℕ)) (s : Scheduler)
    → Goes s
    → Goes (init_seed rand resumes i o s)
unfolding init_seed fill_seed
init_seed-Goes rand resumes i none s h = h
init_seed-Goes rand resumes i (some seed) s h = h

init_nonces-Goes :
    (task : PlotterTask) (resumes : ℕ → ℕ) (k : ℕ) (s : Scheduler)
    → Goes s
    → Goes (init_nonces task resumes k s)
unfolding init_nonces
init_nonces-Goes task resumes k s h = ground (arith, h)

init_finished-Goes :
    (task : PlotterTask) (rand : ℕ → List ℕ) (resumes : ℕ → ℕ) (k : ℕ) (s : Scheduler)
    → Goes s
    → Goes (init_finished task rand resumes k s)
unfolding init_finished fill_seed
init_finished-Goes task rand resumes k s h = ground (arith, h)

point_to-Goes : (o : Option ℕ) (s : Scheduler) → Goes s → Goes (point_to o s)
unfolding point_to
point_to-Goes none s h = h
point_to-Goes (some p) s h = h

pick_path-Goes : (task : PlotterTask) (s : Scheduler) → Goes s → Goes (pick_path task s)
unfolding pick_path
pick_path-Goes task s h =
    ground (arith, h, point_to-Goes (first_active task s task.num_paths 0) s h)

blank-Goes : Goes blank
unfolding blank
blank-Goes = refl

pub begin-stop :
    (task : PlotterTask) (rand : ℕ → List ℕ) (resumes : ℕ → ℕ)
    → (begin task rand resumes).stop ≡ false
unfolding begin
begin-stop task rand resumes = pick_path-Goes task _ (
    for_range-keeps Goes (init_finished task rand resumes) task.num_paths 0
      (λ k lo hi. init_finished-Goes task rand resumes k) _
      (for_range-keeps Goes (init_nonces task resumes) task.num_paths 0
        (λ k lo hi. init_nonces-Goes task resumes k) _
        (for_range-keeps Goes (λ i s. init_seed rand resumes i (task.initial_seeds i) s)
          task.num_paths 0 (λ k lo hi. init_seed-Goes rand resumes k (task.initial_seeds k)) blank
          blank-Goes)))
