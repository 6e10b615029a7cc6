-- ===== src/Scheduler/Work.antt =====
-- The passes that are left, as a measure of the loop.
use pocx.Base.{
  ℕ, zero, suc, ◌+◌, ◌-◌, ◌*◌, ◌%◌, ◌≤◌, ◌<◌, ◌≡◌, ◌≢◌, inl, inr, refl, ◌∙◌, ap, sym, subst, none,
  true, false, ◌==◌, if◌then◌else◌, Bool-cases, arith,
}
use native.Mathlib.Decide.{ℕ_discrete, dec_lt}
use native.Mathlib.Nat.{mul-le-mul, mod-eq_of_lt, mod-eq-sub-mod}
use pocx.Scheduler.{PlotterTask, Scheduler, active, next_active, all_done, passes_per_warp}

abbrev pub sum : ℕ → (ℕ → ℕ) → ℕ
sum zero f = 0
sum (suc n) f = sum n f + f n

pub sum-ext : (n : ℕ) (f g : ℕ → ℕ) → ((i : ℕ) → i < n → f i ≡ g i) → sum n f ≡ sum n g
sum-ext zero f g h = refl
sum-ext (suc n) f g h = omega (arith, sum-ext n f g (λ i hi. h i (omega arith)), h n (omega arith))

pub sum-once :
    (n k : ℕ) (f g : ℕ → ℕ)
    → k < n
    → suc (f k) ≡ g k
    → ((i : ℕ) → i < n → k ≢ i → f i ≡ g i)
    → suc (sum n f) ≡ sum n g
sum-once zero k f g hk e h = absurd (omega arith)
sum-once (suc n) k f g hk e h = elim (ℕ_discrete k n) [
  | yes p ↦ omega (
    arith,
    sum-ext n f g (λ i hi. h i (omega arith) (λ q. absurd (omega arith))),
    subst (λ j. suc (f j) ≡ g j) p e,
  )
  | no np ↦
      omega
        (arith, sum-once n k f g (omega arith) e (λ i hi. h i (omega arith)), h n (omega arith) np)
]

-- The warps of path `i` that are still to be made.
abbrev pub warps_left : PlotterTask → Scheduler → ℕ → ℕ
warps_left task s i = (task.number_of_plots i - s.files_done i) * task.warps i - s.warp_offsets i

abbrev pub passes_left : PlotterTask → Scheduler → ℕ → ℕ
passes_left task s i =
    warps_left task s i * passes_per_warp task - (if s.path_pointer == i then s.pass_in_warp else 0)

abbrev pub work : PlotterTask → Scheduler → ℕ
work task s = sum task.num_paths (passes_left task s)

pub sum-le : (n : ℕ) (f g : ℕ → ℕ) → ((i : ℕ) → f i ≤ g i) → sum n f ≤ sum n g
sum-le zero f g h = omega arith
sum-le (suc n) f g h = omega (arith, sum-le n f g h, h n)

-- All passes of all plots.
abbrev pub all_passes : PlotterTask → ℕ
all_passes task =
    sum task.num_paths (λ i. task.number_of_plots i * task.warps i * passes_per_warp task)

pub work-le : (task : PlotterTask) (s : Scheduler) → work task s ≤ all_passes task
work-le task s = sum-le task.num_paths _ _ (λ i. at i)
  where
    fewer :
        (i : ℕ)
        → (task.number_of_plots i - s.files_done i) * task.warps i
          ≤ task.number_of_plots i * task.warps i
    fewer i =
        mul-le-mul {n₁ = task.number_of_plots i - s.files_done i} {m₁ = task.warps i}
          {n₂ = task.number_of_plots i} {m₂ = task.warps i} (omega arith) (omega arith)

    at :
        (i : ℕ)
        → passes_left task s i ≤ task.number_of_plots i * task.warps i * passes_per_warp task
    at i = omega (
      arith,
      mul-le-mul {n₁ = warps_left task s i} {m₁ = passes_per_warp task}
          {n₂ = task.number_of_plots i * task.warps i} {m₂ = passes_per_warp task}
          (omega (arith, fewer i)) (omega arith),
    )

module _ (task : PlotterTask) (s : Scheduler) where
  pub warps_left-positive :
      (i : ℕ) → active task s i ≡ true → s.warp_offsets i < task.warps i → 0 < warps_left task s i
  warps_left-positive i busy inside =
      let some_plot : s.files_done i < task.number_of_plots i = ground (arith, busy) in
      omega (
        arith,
        inside,
        mul-le-mul {n₁ = 1} {m₁ = task.warps i} {n₂ = task.number_of_plots i - s.files_done i}
            {m₂ = task.warps i} (omega (arith, some_plot)) (omega arith),
      )

  inactive : (i : ℕ) → active task s i ≡ false → task.number_of_plots i ≤ s.files_done i
  inactive i h = ground (arith, h)

  pub all_done-le :
      (n : ℕ) → all_done task s n ≡ true → (i : ℕ) → i < n → task.number_of_plots i ≤ s.files_done i
  unfolding all_done
  all_done-le zero h i hi = absurd (omega arith)
  all_done-le (suc n) h i hi = elim (ℕ_discrete i n) [
    | yes e ↦ subst (λ j. task.number_of_plots j ≤ s.files_done j) (sym e) (ground (arith, h))
    | no ne ↦ all_done-le n (ground (arith, h)) i (omega arith)
  ]

  none_next :
      (n k : ℕ)
      → next_active task s n k ≡ none
      → (j : ℕ) → k ≤ j
      → j < k + n
      → task.number_of_plots ((s.path_pointer + j) % task.num_paths)
        ≤ s.files_done ((s.path_pointer + j) % task.num_paths)
  unfolding next_active
  none_next zero k e j lo hi = absurd (omega arith)
  none_next (suc n) k e j lo hi =
      elim (Bool-cases (active task s ((s.path_pointer + k) % task.num_paths))) [
        | inl t ↦ absurd (ground (arith, e, t))
        | inr t ↦ elim (ℕ_discrete k j) [
          | yes p ↦
              subst
                (λ q.
                  task.number_of_plots ((s.path_pointer + q) % task.num_paths)
                  ≤ s.files_done ((s.path_pointer + q) % task.num_paths))
                p (inactive _ t)
          | no np ↦ none_next n (suc k) (ground (arith, e, t)) j (omega arith) (omega arith)
        ]
      ]

  -- The round robin looks at every path.
  pub next_active-none :
      s.path_pointer < task.num_paths
      → next_active task s task.num_paths 1 ≡ none
      → (i : ℕ) → i < task.num_paths
      → task.number_of_plots i ≤ s.files_done i
  next_active-none pointer e i hi = elim (dec_lt s.path_pointer i) [
    | yes above ↦
        subst (λ q. task.number_of_plots q ≤ s.files_done q)
          {x = (s.path_pointer + (i - s.path_pointer)) % task.num_paths} {y = i}
          (ap (λ n. n % task.num_paths) {x = s.path_pointer + (i - s.path_pointer)} {y = i}
              (omega arith)
            ∙ mod-eq_of_lt hi)
          (none_next task.num_paths 1 e (i - s.path_pointer) (omega arith) (omega arith))
    | no below ↦
        subst (λ q. task.number_of_plots q ≤ s.files_done q)
          {x = (s.path_pointer + (i + task.num_paths - s.path_pointer)) % task.num_paths} {y = i}
          (ap (λ n. n % task.num_paths) {x = s.path_pointer + (i + task.num_paths - s.path_pointer)}
              {y = i + task.num_paths} (omega arith)
            ∙ mod-eq-sub-mod {n = i + task.num_paths} {m = task.num_paths} (omega arith)
            ∙ ap (λ n. n % task.num_paths) {x = i + task.num_paths - task.num_paths} {y = i}
                (omega arith)
            ∙ mod-eq_of_lt hi)
          (none_next task.num_paths 1 e (i + task.num_paths - s.path_pointer) (omega arith)
            (omega arith))
  ]

-- One pass of a warp, and its last.
pay_more : (a n k : ℕ) → 0 < a → k + 1 < n → suc (a * n - (k + 1)) ≡ a * n - k
pay_more a n k ha hk =
    omega (arith, mul-le-mul {n₁ = 1} {m₁ = n} {n₂ = a} {m₂ = n} ha (omega arith))

pay_last : (a b n k : ℕ) → a ≡ suc b → k + 1 ≡ n → suc (b * n) ≡ a * n - k
pay_last a b n k e hk = omega (arith, ap (λ (j : ℕ). j * n) e)

-- The next file of a path.
pub next_plot :
    (plots files warps : ℕ)
    → files < plots
    → (plots - (files + 1)) * warps ≡ (plots - files) * warps - warps
next_plot plots files warps h =
    let e : plots - files ≡ suc (plots - (files + 1)) = omega arith in
    omega (arith, ap (λ (j : ℕ). j * warps) e)

-- The rounds of path `path_pointer` by what changes in them.
module _ (task : PlotterTask) (s t : Scheduler) (pointer : s.path_pointer < task.num_paths)
    (busy : active task s s.path_pointer ≡ true)
    (inside : s.warp_offsets s.path_pointer < task.warps s.path_pointer)
    (same_files : t.files_done ≡ s.files_done) (same_path : t.path_pointer ≡ s.path_pointer) where
  pub work-more :
      s.pass_in_warp + 1 < passes_per_warp task
      → t.pass_in_warp ≡ s.pass_in_warp + 1
      → t.warp_offsets ≡ s.warp_offsets
      → suc (work task t) ≡ work task s
  work-more more pass same =
      sum-once task.num_paths s.path_pointer (passes_left task t) (passes_left task s) pointer
        (here
          ∙ pay_more (warps_left task s s.path_pointer) (passes_per_warp task) s.pass_in_warp
              (warps_left-positive task s s.path_pointer busy inside) more
          ∙ sym (at_pointer s))
        (λ i hi ne. ground (arith, ne, same_path, files i, offsets i))
    where
      files : (i : ℕ) → t.files_done i ≡ s.files_done i
      files i = ap (λ f. f i) same_files

      offsets : (i : ℕ) → t.warp_offsets i ≡ s.warp_offsets i
      offsets i = ap (λ f. f i) same

      at_pointer :
          (u : Scheduler)
          → passes_left task u u.path_pointer
            ≡ warps_left task u u.path_pointer * passes_per_warp task - u.pass_in_warp
      at_pointer u = ground arith

      here :
          suc (passes_left task t s.path_pointer)
          ≡ suc (warps_left task s s.path_pointer * passes_per_warp task - (s.pass_in_warp + 1))
      here = ground (arith, same_path, pass, files s.path_pointer, offsets s.path_pointer)

  pub work-last :
      s.pass_in_warp + 1 ≡ passes_per_warp task
      → t.pass_in_warp ≡ 0
      → t.warp_offsets s.path_pointer ≡ s.warp_offsets s.path_pointer + 1
      → ((i : ℕ) → s.path_pointer ≢ i → t.warp_offsets i ≡ s.warp_offsets i)
      → suc (work task t) ≡ work task s
  work-last last pass one_more same =
      sum-once task.num_paths s.path_pointer (passes_left task t) (passes_left task s) pointer
        (here
          ∙ pay_last (warps_left task s s.path_pointer) (warps_left task t s.path_pointer)
              (passes_per_warp task) s.pass_in_warp less last
          ∙ sym (at_pointer s))
        (λ i hi ne. ground (arith, ne, same_path, files i, same i ne))
    where
      files : (i : ℕ) → t.files_done i ≡ s.files_done i
      files i = ap (λ f. f i) same_files

      at_pointer :
          (u : Scheduler)
          → passes_left task u u.path_pointer
            ≡ warps_left task u u.path_pointer * passes_per_warp task - u.pass_in_warp
      at_pointer u = ground arith

      here :
          suc (passes_left task t s.path_pointer)
          ≡ suc (warps_left task t s.path_pointer * passes_per_warp task)
      here = ground (arith, same_path, pass)

      less : warps_left task s s.path_pointer ≡ suc (warps_left task t s.path_pointer)
      less = omega (
        arith,
        one_more,
        warps_left-positive task s s.path_pointer busy inside,
        ap (λ (n : ℕ). (task.number_of_plots s.path_pointer - n) * task.warps s.path_pointer)
            (files s.path_pointer),
      )
