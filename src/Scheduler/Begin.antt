-- ===== src/Scheduler/Begin.antt =====
-- The state in which the loop starts.
use pocx.Base.{
  ℕ, zero, suc, ◌+◌, ◌*◌, ◌≤◌, ◌<◌, ◌≡◌, ◌⊎◌, inl, inr, refl, ◌∙◌, ap, subst, List, none, some,
  true, false, Bool-cases, Option-cases, length, length-replicate, ltb, for_range, for_range-counts,
  arith,
}
use native.Mathlib.Decide.{ℕ_discrete}
use pocx.Nonce.{nonce_size}
use pocx.Plotter.{compress_batch}
use pocx.Scheduler.{PlotterTask, Scheduler, active, all_done}
use pocx.Scheduler.Start.{
  first_active, init_seed, init_nonces, init_finished, point_to, pick_path, blank, empty_scatter,
  begin,
}
use pocx.Scheduler.Progress.{IsSeed, IsTask}
use pocx.Scheduler.Invariant.{IsRunning}
use pocx.Scheduler.Flush.{IsCleared-IsRunning}
use pocx.Scheduler.Seeds.{IsResume, resumed, Seeded, Counted, init_seed-Seeded, init_nonces-Counted}
use pocx.Scheduler.Ready.{Ready, Counted-Ready, init_finished-Ready}

length-empty_scatter : length empty_scatter ≡ compress_batch * nonce_size
unfolding empty_scatter
length-empty_scatter = length-replicate {A = ℕ} (compress_batch * nonce_size) 0

module _ (task : PlotterTask) (ok : IsTask task) (rand : ℕ → List ℕ)
    (rand_ok : (k : ℕ) → IsSeed (rand k)) (resumes : ℕ → ℕ) (known : IsResume task resumes) where
  prepared : Scheduler
  prepared = for_range task.num_paths 0 (init_finished task rand resumes) (
      for_range task.num_paths 0 (init_nonces task resumes) (
        for_range task.num_paths 0 (λ i s. init_seed rand resumes i (task.initial_seeds i) s)
          blank))

  blank-Seeded : Seeded task ok rand rand_ok resumes known 0 blank
  unfolding blank
  blank-Seeded = record {
    empty = record {
      no_buffer = refl;
      no_warps = refl;
      no_pass = refl;
      at_first = refl;
      scatter = length-empty_scatter;
    };
    none_sent = refl;
    no_files = λ i. refl;
    no_nonces = λ i. refl;
    seeds = λ i hi. absurd (omega arith);
    seed = λ i hi. absurd (omega arith);
    offsets = λ i hi. absurd (omega arith);
    later = λ i hi. refl;
  }

  prepared-Ready : Ready task ok rand rand_ok resumes known task.num_paths prepared
  unfolding prepared
  prepared-Ready =
      for_range-counts (Ready task ok rand rand_ok resumes known) _ task.num_paths 0 task.num_paths
        (omega arith)
        (λ k lo hi s h. init_finished-Ready task ok rand rand_ok resumes known k s (omega arith) h)
        _
        (Counted-Ready task ok rand rand_ok resumes known _ (
          for_range-counts (Counted task ok rand rand_ok resumes known) _ task.num_paths 0
            task.num_paths (omega arith)
            (λ k lo hi s h. init_nonces-Counted task ok rand rand_ok resumes known k s h) _
            (Seeded-Counted _ (
              for_range-counts (Seeded task ok rand rand_ok resumes known) _ task.num_paths 0
                task.num_paths (omega arith)
                (λ k lo hi s h.
                  init_seed-Seeded task ok rand rand_ok resumes known k s (omega arith) h)
                _ blank-Seeded))))
    where
      Seeded-Counted :
          (s : Scheduler)
          → Seeded task ok rand rand_ok resumes known task.num_paths s
          → Counted task ok rand rand_ok resumes known 0 s
      Seeded-Counted s h = record {
        empty = h.empty;
        none_sent = h.none_sent;
        no_files = h.no_files;
        seeds = h.seeds;
        seed = h.seed;
        offsets = h.offsets;
        nonces = λ i hi. absurd (omega arith);
        later = λ i hi. h.no_nonces i;
      }

  first_active-active :
      (s : Scheduler) (n i p : ℕ)
      → first_active task s n i ≡ some p
      → (p < i + n) × (active task s p ≡ true)
  unfolding first_active
  first_active-active s zero i p e = absurd (cc)
  first_active-active s (suc n) i p e = elim (Bool-cases (active task s i)) [
    | inl t ↦
        let here : i ≡ p = ground (arith, e, t) in
        subst (λ q. (q < i + suc n) × (active task s q ≡ true)) here (omega arith, t)
    | inr t ↦
        let found = first_active-active s n (suc i) p (ground (arith, e, t)) in
        (omega (arith, found.0), found.1)
  ]

  none-active :
      (s : Scheduler) (n i : ℕ)
      → first_active task s n i ≡ none
      → (j : ℕ) → i ≤ j
      → j < i + n
      → active task s j ≡ false
  unfolding first_active
  none-active s zero i e j lo hi = absurd (omega arith)
  none-active s (suc n) i e j lo hi = elim (Bool-cases (active task s i)) [
    | inl t ↦ absurd (ground (arith, e, t))
    | inr t ↦ elim (ℕ_discrete i j) [
      | yes p ↦ subst (λ k. active task s k ≡ false) p t
      | no np ↦ none-active s n (suc i) (ground (arith, e, t)) j (omega arith) (omega arith)
    ]
  ]

  none-all_done :
      (s : Scheduler) (n : ℕ)
      → ((j : ℕ) → j < n → active task s j ≡ false)
      → all_done task s n ≡ true
  unfolding all_done
  none-all_done s zero h = refl
  none-all_done s (suc n) h =
      rw (h n (omega arith), none-all_done s n (λ j hj. h j (omega arith))) refl

  at_path :
      (s : Scheduler)
      → Ready task ok rand rand_ok resumes known task.num_paths s
      → (p b q : ℕ) → p < task.num_paths
      → (active task s p ≡ true)
        ⊎ ((t : Scheduler) → t.files_done ≡ s.files_done → all_done task t task.num_paths ≡ true)
      → IsRunning task
          (resumed task resumes)
          (record s { path_pointer = p; buffer_start_warp = b; buffer_path = q })
  at_path s h p b q hp busy =
      IsCleared-IsRunning task (resumed task resumes) ok t
        (record {
          no_buffer = h.empty.no_buffer;
          no_warps = h.empty.no_warps;
          no_pass = h.empty.no_pass;
          nonces = λ i hi. h.nonces i hi hi;
          offsets = λ i hi a. h.offsets i hi hi a;
          scatter = h.empty.scatter;
          seeds = h.seeds;
          writers = λ i hi.
              let u = h.writers i hi in
              record {
                at = u.at;
                written = u.written;
                files = u.files;
                offset = u.offset;
                seed = u.seed;
              };
        })
        hp (elim busy [ inl e ↦ inl e | inr f ↦ inr (f t refl) ])
    where
      t : Scheduler
      t = record s { path_pointer = p; buffer_start_warp = b; buffer_path = q }

  pointed :
      0 < task.num_paths
      → (s : Scheduler) → Ready task ok rand rand_ok resumes known task.num_paths s
      → IsRunning task (resumed task resumes) (pick_path task s)
  unfolding pick_path point_to
  pointed some_path s h = elim (Bool-cases (active task s s.path_pointer)) [
    | inl t ↦ rw t (at_path s h s.path_pointer _ _ here (inl t))
    | inr t ↦ elim (Option-cases (first_active task s task.num_paths 0)) [
      | inl e ↦
          rw (t, e)
            (at_path s h s.path_pointer _ _ here (
              inr (λ u same. none-all_done u task.num_paths (λ j hj.
                ap (λ f. ltb (f j) (task.number_of_plots j)) same
                ∙ none-active s task.num_paths 0 e j (omega arith) (omega (arith, hj))))))
      | inr (p, e) ↦
          let found = first_active-active s task.num_paths 0 p e in
          rw (t, e) (at_path s h p _ _ (omega (arith, found.0)) (inl found.1))
    ]
  ]
    where
      here : s.path_pointer < task.num_paths
      here = omega (arith, h.empty.at_first, some_path)

  pub begin-IsRunning :
      0 < task.num_paths → IsRunning task (resumed task resumes) (begin task rand resumes)
  unfolding begin prepared
  begin-IsRunning some_path = pointed some_path prepared prepared-Ready
