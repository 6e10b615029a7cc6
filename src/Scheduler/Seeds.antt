-- ===== src/Scheduler/Seeds.antt =====
-- The first two loops before the rounds: every path has its seed and its counters.
use pocx.Base.{
  ℕ, suc, ◌*◌, ◌%◌, ◌≤◌, ◌<◌, ◌≡◌, ◌⊎◌, inl, inr, ◌∙◌, ap, sym, subst, List, [], Option, none, some,
  Bool-cases, Option-cases, length, ltb, u64_mod, arith,
}
use native.Mathlib.Decide.{ℕ_discrete}
use pocx.Nonce.{nonce_size}
use pocx.Plotter.{compress_batch}
use pocx.Scheduler.{PlotterTask, Scheduler, passes_per_warp, update, fill_seed}
use pocx.Scheduler.Start.{init_seed, init_nonces}
use pocx.Scheduler.Progress.{Progress, IsSeed, IsTask}
use pocx.Scheduler.Invariant.{update_same, update_other}

-- What the plotter knows of the paths: seeds of 32 bytes, and progress only where there is a seed.
pub record IsResume (task : PlotterTask) (resumes : ℕ → ℕ) : Type 0 where
  pub given :
      (i : ℕ) (seed : List ℕ) → i < task.num_paths → task.initial_seeds i ≡ some seed → IsSeed seed
  pub drawn : (i : ℕ) → i < task.num_paths → task.initial_seeds i ≡ none → resumes i ≡ 0

abbrev pub seed_or : Option (List ℕ) → List ℕ
seed_or none = []
seed_or (some seed) = seed

-- The writer of a path starts with the warps that are there.
abbrev pub resumed : PlotterTask → (ℕ → ℕ) → ℕ → Progress
resumed task resumes i = record {
  files = 0;
  offset = resumes i;
  seed = seed_or (task.initial_seeds i);
}

module _ (task : PlotterTask) (ok : IsTask task) (rand : ℕ → List ℕ)
    (rand_ok : (k : ℕ) → IsSeed (rand k)) (resumes : ℕ → ℕ) (known : IsResume task resumes) where
  pub record IsEmpty (s : Scheduler) : Type 0 where
    pub no_buffer : s.write_buffer ≡ none
    pub no_warps : s.warps_in_buffer ≡ 0
    pub no_pass : s.pass_in_warp ≡ 0
    pub at_first : s.path_pointer ≡ 0
    pub scatter : length s.scatter_buf ≡ compress_batch * nonce_size

  -- The paths below `k` have their seeds.
  pub record Seeded (k : ℕ) (s : Scheduler) : Type 0 where
    pub empty : IsEmpty s
    pub none_sent : s.sent ≡ []
    pub no_files : (i : ℕ) → s.files_done i ≡ 0
    pub no_nonces : (i : ℕ) → s.global_nonces i ≡ 0
    pub seeds : (i : ℕ) → i < k → IsSeed (s.seeds i)
    pub seed : (i : ℕ) → i < k → (resumes i ≡ 0) ⊎ (seed_or (task.initial_seeds i) ≡ s.seeds i)
    pub offsets : (i : ℕ) → i < k → s.warp_offsets i ≡ resumes i
    pub later : (i : ℕ) → k ≤ i → s.warp_offsets i ≡ 0

  pub init_seed-Seeded :
      (k : ℕ) (s : Scheduler)
      → k < task.num_paths
      → Seeded k s
      → Seeded (suc k) (init_seed rand resumes k (task.initial_seeds k) s)
  unfolding init_seed fill_seed
  init_seed-Seeded k s hk h = elim (Option-cases (task.initial_seeds k)) [
    | inl e ↦
        subst (λ o. Seeded (suc k) (init_seed rand resumes k o s)) (sym e)
          (record {
            empty = record {
              no_buffer = h.empty.no_buffer;
              no_warps = h.empty.no_warps;
              no_pass = h.empty.no_pass;
              at_first = h.empty.at_first;
              scatter = h.empty.scatter;
            };
            none_sent = h.none_sent;
            no_files = h.no_files;
            no_nonces = h.no_nonces;
            seeds = λ i hi. elim (ℕ_discrete k i) [
              | yes p ↦
                  subst (λ j. IsSeed (update s.seeds k (rand s.drawn) j)) p
                    (subst IsSeed (sym (update_same s.seeds k (rand s.drawn))) (rand_ok s.drawn))
              | no np ↦ subst IsSeed (sym (update_other s.seeds k i _ np)) (h.seeds i (omega arith))
            ];
            seed = λ i hi. elim (ℕ_discrete k i) [
              | yes p ↦ inl (subst (λ j. resumes j ≡ 0) p (known.drawn k hk e))
              | no np ↦
                  subst (λ z. (resumes i ≡ 0) ⊎ (seed_or (task.initial_seeds i) ≡ z))
                    (sym (update_other s.seeds k i _ np)) (h.seed i (omega arith))
            ];
            offsets = λ i hi. elim (ℕ_discrete k i) [
              | yes p ↦
                  subst (λ j. s.warp_offsets j ≡ resumes j) p
                    (h.later k (omega arith) ∙ sym (known.drawn k hk e))
              | no np ↦ h.offsets i (omega arith)
            ];
            later = λ i hi. h.later i (omega arith);
          })
    | inr (z, e) ↦
        subst (λ o. Seeded (suc k) (init_seed rand resumes k o s)) (sym e)
          (record {
            empty = record {
              no_buffer = h.empty.no_buffer;
              no_warps = h.empty.no_warps;
              no_pass = h.empty.no_pass;
              at_first = h.empty.at_first;
              scatter = h.empty.scatter;
            };
            none_sent = h.none_sent;
            no_files = h.no_files;
            no_nonces = h.no_nonces;
            seeds = λ i hi. elim (ℕ_discrete k i) [
              | yes p ↦
                  subst (λ j. IsSeed (update s.seeds k z j)) p
                    (subst IsSeed (sym (update_same s.seeds k z)) (known.given k z hk e))
              | no np ↦ subst IsSeed (sym (update_other s.seeds k i _ np)) (h.seeds i (omega arith))
            ];
            seed = λ i hi. elim (ℕ_discrete k i) [
              | yes p ↦ inr (
                  subst (λ j. seed_or (task.initial_seeds j) ≡ update s.seeds k z j) p
                    (ap seed_or e ∙ sym (update_same s.seeds k z)))
              | no np ↦
                  subst (λ y. (resumes i ≡ 0) ⊎ (seed_or (task.initial_seeds i) ≡ y))
                    (sym (update_other s.seeds k i _ np)) (h.seed i (omega arith))
            ];
            offsets = λ i hi. elim (ℕ_discrete k i) [
              | yes p ↦
                  subst (λ j. update s.warp_offsets k (resumes k) j ≡ resumes j) p
                    (update_same s.warp_offsets k (resumes k))
              | no np ↦ update_other s.warp_offsets k i _ np ∙ h.offsets i (omega arith)
            ];
            later = λ i hi.
                update_other s.warp_offsets k i _ (λ p. absurd (omega arith))
                ∙ h.later i (omega arith);
          })
  ]

  -- The paths below `k` have their counters, and no path at all has been written to.
  pub record Counted (k : ℕ) (s : Scheduler) : Type 0 where
    pub empty : IsEmpty s
    pub none_sent : s.sent ≡ []
    pub no_files : (i : ℕ) → s.files_done i ≡ 0
    pub seeds : (i : ℕ) → i < task.num_paths → IsSeed (s.seeds i)
    pub seed :
        (i : ℕ)
        → i < task.num_paths
        → (resumes i ≡ 0) ⊎ (seed_or (task.initial_seeds i) ≡ s.seeds i)
    pub offsets : (i : ℕ) → i < task.num_paths → s.warp_offsets i ≡ resumes i
    pub nonces :
        (i : ℕ)
        → i < k
        → s.global_nonces i ≡ resumes i * passes_per_warp task * compress_batch % u64_mod
    pub later : (i : ℕ) → k ≤ i → s.global_nonces i ≡ 0

  pub init_nonces-Counted :
      (k : ℕ) (s : Scheduler) → Counted k s → Counted (suc k) (init_nonces task resumes k s)
  unfolding init_nonces
  init_nonces-Counted k s h = elim (Bool-cases (ltb 0 (resumes k))) [
    | inl t ↦ rw t (record {
      empty = record {
        no_buffer = h.empty.no_buffer;
        no_warps = h.empty.no_warps;
        no_pass = h.empty.no_pass;
        at_first = h.empty.at_first;
        scatter = h.empty.scatter;
      };
      none_sent = h.none_sent;
      no_files = h.no_files;
      seeds = h.seeds;
      seed = h.seed;
      offsets = h.offsets;
      nonces = λ i hi. elim (ℕ_discrete k i) [
        | yes p ↦
            subst
              (λ j.
                update s.global_nonces k
                  (resumes k * passes_per_warp task * compress_batch % u64_mod) j
                ≡ resumes j * passes_per_warp task * compress_batch % u64_mod)
              p (update_same s.global_nonces k _)
        | no np ↦ update_other s.global_nonces k i _ np ∙ h.nonces i (omega arith)
      ];
      later = λ i hi.
          update_other s.global_nonces k i _ (λ p. absurd (omega arith)) ∙ h.later i (omega arith);
    })
    | inr t ↦ rw t (record {
      empty = h.empty;
      none_sent = h.none_sent;
      no_files = h.no_files;
      seeds = h.seeds;
      seed = h.seed;
      offsets = h.offsets;
      nonces = λ i hi. elim (ℕ_discrete k i) [
        | yes p ↦
            subst
              (λ j. s.global_nonces j ≡ resumes j * passes_per_warp task * compress_batch % u64_mod)
              p
              (h.later k (omega arith)
                ∙ omega arith
                ∙ ap (λ n. n * passes_per_warp task * compress_batch % u64_mod) {x = 0}
                    {y = resumes k} (ground (arith, t)))
        | no np ↦ h.nonces i (omega arith)
      ];
      later = λ i hi. h.later i (omega arith);
    })
  ]
