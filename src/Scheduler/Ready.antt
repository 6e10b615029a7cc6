-- ===== src/Scheduler/Ready.antt =====
-- The third loop before the rounds: files that were whole are closed.
use pocx.Base.{
  ℕ, suc, ◌+◌, ◌*◌, ◌%◌, ◌≤◌, ◌<◌, ◌≡◌, ◌≢◌, ◌⊎◌, inl, inr, refl, ◌∙◌, ap, sym, subst, List, ◌∷◌,
  true, ◌||◌, ◌==◌, Bool-cases, ltb, u64_mod, arith,
}
use native.Mathlib.Decide.{ℕ_discrete}
use native.Mathlib.Nat.{mul-le-mul}
use pocx.Plotter.{compress_batch}
use pocx.Scheduler.{PlotterTask, Scheduler, finalize, active, passes_per_warp, update, fill_seed}
use pocx.Scheduler.Start.{init_finished}
use pocx.Scheduler.Progress.{Written, nothing, elsewhere, renamed, IsSeed, IsTask}
use pocx.Scheduler.Invariant.{update_same, update_other}
use pocx.Scheduler.Flush.{IsLevel}
use pocx.Scheduler.Seeds.{IsResume, resumed, IsEmpty, Counted}

module _ (task : PlotterTask) (ok : IsTask task) (rand : ℕ → List ℕ)
    (rand_ok : (k : ℕ) → IsSeed (rand k)) (resumes : ℕ → ℕ) (known : IsResume task resumes) where
  -- The paths below `k` are ready: a file that was whole is closed.
  pub record Ready (k : ℕ) (s : Scheduler) : Type 0 where
    pub empty : IsEmpty task ok rand rand_ok resumes known s
    pub seeds : (i : ℕ) → i < task.num_paths → IsSeed (s.seeds i)
    pub writers : (i : ℕ) → i < task.num_paths → IsLevel task (resumed task resumes) s i
    pub offsets :
        (i : ℕ)
        → i < k
        → i < task.num_paths
        → active task s i ≡ true
        → s.warp_offsets i < task.warps i
    pub nonces :
        (i : ℕ)
        → i < k
        → i < task.num_paths
        → s.global_nonces i ≡ s.warp_offsets i * passes_per_warp task * compress_batch
    pub later_offsets : (i : ℕ) → k ≤ i → i < task.num_paths → s.warp_offsets i ≡ resumes i
    pub later_nonces :
        (i : ℕ)
        → k ≤ i
        → i < task.num_paths
        → s.global_nonces i ≡ resumes i * passes_per_warp task * compress_batch % u64_mod

  pub Counted-Ready :
      (s : Scheduler) → Counted task ok rand rand_ok resumes known task.num_paths s → Ready 0 s
  Counted-Ready s h = record {
    empty = h.empty;
    seeds = h.seeds;
    writers = λ i hi. record {
      at = resumed task resumes i;
      written =
          subst (λ l. Written task i (resumed task resumes i) l (resumed task resumes i))
            (sym h.none_sent) nothing;
      files = sym (h.no_files i);
      offset = sym (h.offsets i hi);
      seed = h.seed i hi;
    };
    offsets = λ i none' hi a. absurd (omega arith);
    nonces = λ i none' hi. absurd (omega arith);
    later_offsets = λ i lo hi. h.offsets i hi;
    later_nonces = λ i lo hi. h.nonces i hi;
  }

  module _ (k : ℕ) (s : Scheduler) (hk : k < task.num_paths) (h : Ready k s) where
    -- A path with warps to write.
    kept : resumes k < task.warps k → Ready (suc k) s
    kept less = record {
      empty = h.empty;
      seeds = h.seeds;
      writers = h.writers;
      offsets = λ i hi ni a. elim (ℕ_discrete k i) [
        | yes p ↦
            subst (λ j. s.warp_offsets j < task.warps j) p
              (omega (arith, less, h.later_offsets k (omega arith) hk))
        | no np ↦ h.offsets i (omega arith) ni a
      ];
      nonces = λ i hi ni. elim (ℕ_discrete k i) [
        | yes p ↦
            subst
              (λ j. s.global_nonces j ≡ s.warp_offsets j * passes_per_warp task * compress_batch) p
              (h.later_nonces k (omega arith) hk
                ∙ no_wrap
                ∙ ap (λ n. n * passes_per_warp task * compress_batch)
                    (sym (h.later_offsets k (omega arith) hk)))
        | no np ↦ h.nonces i (omega arith) ni
      ];
      later_offsets = λ i lo hi. h.later_offsets i (omega arith) hi;
      later_nonces = λ i lo hi. h.later_nonces i (omega arith) hi;
    }
      where
        no_wrap :
            resumes k * passes_per_warp task * compress_batch % u64_mod
            ≡ resumes k * passes_per_warp task * compress_batch
        no_wrap = omega (
          arith,
          ok.no_wrap k hk,
          mul-le-mul {n₁ = resumes k} {m₁ = passes_per_warp task} {n₂ = task.warps k}
              {m₂ = passes_per_warp task} (omega (arith, less)) (omega arith),
        )

    module _ (whole : task.warps k ≤ resumes k) (seeds' : ℕ → List ℕ) (drawn' : ℕ)
        (seeds_ok : (i : ℕ) → IsSeed (s.seeds i) → IsSeed (seeds' i))
        (same_seeds : (i : ℕ) → k ≢ i → seeds' i ≡ s.seeds i) where
      abbrev closed : Scheduler
      closed = record s {
        sent = (k, finalize (s.seeds k) (task.warps k)) ∷ s.sent;
        files_done = update s.files_done k (s.files_done k + 1);
        warp_offsets = update s.warp_offsets k 0;
        global_nonces = update s.global_nonces k 0;
        seeds = seeds';
        drawn = drawn';
      }

      closed_here : IsLevel task (resumed task resumes) closed k
      closed_here =
          let u = h.writers k hk in
          let there : u.at.offset ≡ resumes k = u.offset ∙ h.later_offsets k (omega arith) hk in
          record {
            at = record { files = suc u.at.files; offset = 0; seed = s.seeds k };
            written =
                renamed (s.seeds k) s.sent u.at _ u.written
                  (elim u.seed [
                    | inl e ↦ absurd (omega (arith, ok.whole k hk, whole, there, e))
                    | inr e ↦ sym e
                  ])
                  (ok.whole k hk) (omega (arith, whole, there)) refl;
            files = sym (update_same s.files_done k _ ∙ omega (arith, u.files));
            offset = sym (update_same s.warp_offsets k 0);
            seed = inl refl;
          }

      closed_there :
          (i : ℕ) → i < task.num_paths → k ≢ i → IsLevel task (resumed task resumes) closed i
      closed_there i hi ne =
          let u = h.writers i hi in
          record {
            at = u.at;
            written = elsewhere k _ s.sent u.at ne u.written;
            files = u.files ∙ sym (update_other s.files_done k i _ ne);
            offset = u.offset ∙ sym (update_other s.warp_offsets k i 0 ne);
            seed = subst (λ z. (u.at.offset ≡ 0) ⊎ (u.at.seed ≡ z)) (sym (same_seeds i ne)) u.seed;
          }

      closed-Ready : Ready (suc k) closed
      closed-Ready = record {
        empty = record {
          no_buffer = h.empty.no_buffer;
          no_warps = h.empty.no_warps;
          no_pass = h.empty.no_pass;
          at_first = h.empty.at_first;
          scatter = h.empty.scatter;
        };
        seeds = λ i hi. seeds_ok i (h.seeds i hi);
        writers = λ i hi. elim (ℕ_discrete k i) [
          | yes p ↦ subst (IsLevel task (resumed task resumes) closed) p closed_here
          | no np ↦ closed_there i hi np
        ];
        offsets = λ i hi ni a. elim (ℕ_discrete k i) [
          | yes p ↦ ground (arith, p, ok.whole i ni)
          | no np ↦ ground (arith, np, a, h.offsets i (omega arith) ni)
        ];
        nonces = λ i hi ni. elim (ℕ_discrete k i) [
          | yes p ↦ ground (arith, p)
          | no np ↦ ground (arith, np, h.nonces i (omega arith) ni)
        ];
        later_offsets = λ i lo hi.
            update_other s.warp_offsets k i 0 (λ p. absurd (omega arith))
            ∙ h.later_offsets i (omega arith) hi;
        later_nonces = λ i lo hi.
            update_other s.global_nonces k i 0 (λ p. absurd (omega arith))
            ∙ h.later_nonces i (omega arith) hi;
      }

    pub init_finished-Ready : Ready (suc k) (init_finished task rand resumes k s)
    unfolding init_finished fill_seed
    init_finished-Ready =
        elim (Bool-cases ((task.warps k == 0) || ltb (resumes k) (task.warps k))) [
          | inl t ↦ rw t (kept (ground (arith, t, ok.whole k hk)))
          | inr t ↦
              let whole : task.warps k ≤ resumes k = ground (arith, t) in
              elim (Bool-cases
                (ltb (update s.files_done k (s.files_done k + 1) k) (task.number_of_plots k))) [
                  | inl more ↦
                      rw (t, more)
                        (closed-Ready whole (update s.seeds k (rand s.drawn)) (suc s.drawn) drawn_ok
                          (λ i ne. update_other s.seeds k i _ ne))
                  | inr last ↦
                      rw (t, last) (closed-Ready whole s.seeds s.drawn (λ i z. z) (λ i ne. refl))
                ]
        ]
      where
        drawn_ok : (i : ℕ) → IsSeed (s.seeds i) → IsSeed (update s.seeds k (rand s.drawn) i)
        drawn_ok i old = elim (ℕ_discrete k i) [
          | yes e ↦
              subst (λ j. IsSeed (update s.seeds k (rand s.drawn) j)) e
                (subst IsSeed (sym (update_same s.seeds k (rand s.drawn))) (rand_ok s.drawn))
          | no ne ↦ subst IsSeed (sym (update_other s.seeds k i _ ne)) old
        ]
