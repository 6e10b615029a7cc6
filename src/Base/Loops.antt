-- ===== src/Base/Loops.antt =====
-- Counted loops, with the rules that their proofs use.
use Prim.Native.Nat.{ℕ, zero, suc, ◌+◌, ◌≤◌, ◌<◌}
use mathlib.Core.Path.{◌≡◌, refl, ap, ◌∙◌, subst}
use mathlib.Core.Logic.{◌≢◌, ◌⊎◌, inl, inr}
use mathlib.Core.List.{List, [], ◌∷◌}
use native.Mathlib.Omega.{arith}
use native.Mathlib.Decide.{ℕ_discrete}
use pocx.Base.Interleave.{run}

-- for k in i .. i + n { s = body(k, s) }
unfoldable pub for_range {ℓ} : {S : Type ℓ} → ℕ → ℕ → (ℕ → S → S) → S → S
for_range zero i body s = s
for_range (suc n) i body s = for_range n (suc i) body (body i s)

-- What every round keeps holds at the end.
pub for_range-keeps {ℓ κ} :
    {S : Type ℓ} (P : S → Type κ) (body : ℕ → S → S) (n i : ℕ)
    → ((k : ℕ) → i ≤ k → k < i + n → (s : S) → P s → P (body k s))
    → (s : S) → P s
    → P (for_range n i body s)
unfolding for_range
for_range-keeps P body zero i keep s h = h
for_range-keeps P body (suc n) i keep s h =
    for_range-keeps P body n (suc i) (λ k lo hi. keep k (omega arith) (omega arith)) (body i s)
      (keep i (omega arith) (omega arith) s h)

-- What one round establishes and every round keeps holds at the end; `Q` is kept throughout.
pub for_range-hits {ℓ κ μ} :
    {S : Type ℓ} (Q : S → Type κ) (P : S → Type μ) (body : ℕ → S → S) (n i hit : ℕ)
    → i ≤ hit
    → hit < i + n
    → ((k : ℕ) → i ≤ k → k < i + n → (s : S) → Q s → Q (body k s))
    → ((k : ℕ) → i ≤ k → k < i + n → (s : S) → Q s → P s → P (body k s))
    → ((s : S) → Q s → P (body hit s))
    → (s : S) → Q s
    → P (for_range n i body s)
unfolding for_range
for_range-hits Q P body zero i hit lo hi qs ps at_hit s q = absurd (omega arith)
for_range-hits {S = S} Q P body (suc n) i hit lo hi qs ps at_hit s q = elim (ℕ_discrete hit i) [
  | yes e ↦
      (for_range-keeps (λ (t : S). Q t × P t) body n (suc i)
        (λ k a b t h.
          (qs k (omega arith) (omega arith) t h.0, ps k (omega arith) (omega arith) t h.0 h.1))
        (body i s)
        (qs i (omega arith) (omega arith) s q, subst (λ k. P (body k s)) e (at_hit s q))).1
  | no ne ↦
      for_range-hits Q P body n (suc i) hit (omega arith) (omega arith)
        (λ k a b. qs k (omega arith) (omega arith)) (λ k a b. ps k (omega arith) (omega arith))
        at_hit (body i s) (qs i (omega arith) (omega arith) s q)
]

-- An invariant over the count of rounds.
pub for_range-counts {ℓ κ} :
    {S : Type ℓ} (P : ℕ → S → Type κ) (body : ℕ → S → S) (n i j : ℕ)
    → j ≡ i + n
    → ((k : ℕ) → i ≤ k → k < i + n → (s : S) → P k s → P (suc k) (body k s))
    → (s : S) → P i s
    → P j (for_range n i body s)
unfolding for_range
for_range-counts P body zero i j e keep s h = subst (λ k. P k s) {x = i} {y = j} (omega arith) h
for_range-counts P body (suc n) i j e keep s h =
    for_range-counts P body n (suc i) j (omega arith)
      (λ k lo hi. keep k (omega arith) (omega arith)) (body i s)
      (keep i (omega arith) (omega arith) s h)

-- One round changes what `g` reads by `h`, and the other rounds leave it.
pub for_range-once {ℓ κ μ} :
    {S : Type ℓ} {V : Type κ} (Q : S → Type μ) (g : S → V) (h : V → V) (body : ℕ → S → S)
    (n i hit : ℕ)
    → i ≤ hit
    → hit < i + n
    → ((k : ℕ) → i ≤ k → k < i + n → (s : S) → Q s → Q (body k s))
    → ((k : ℕ) → i ≤ k → k < i + n → k ≢ hit → (s : S) → Q s → g (body k s) ≡ g s)
    → ((s : S) → Q s → g (body hit s) ≡ h (g s))
    → (s : S) → Q s
    → g (for_range n i body s) ≡ h (g s)
unfolding for_range
for_range-once Q g h body zero i hit lo hi qs leaves at_hit s q = absurd (omega arith)
for_range-once {S = S} Q g h body (suc n) i hit lo hi qs leaves at_hit s q =
    elim (ℕ_discrete i hit) [
      | yes e ↦
          (for_range-keeps (λ (t : S). Q t × (g t ≡ h (g s))) body n (suc i)
            (λ k a b t p. (
              qs k (omega arith) (omega arith) t p.0,
              leaves k (omega arith) (omega arith) (λ z. absurd (omega arith)) t p.0 ∙ p.1,
            ))
            (body i s)
            (qs i (omega arith) (omega arith) s q, ap (λ k. g (body k s)) e ∙ at_hit s q)).1
      | no ne ↦
          for_range-once Q g h body n (suc i) hit (omega arith) (omega arith)
            (λ k a b. qs k (omega arith) (omega arith))
            (λ k a b. leaves k (omega arith) (omega arith)) at_hit (body i s)
            (qs i (omega arith) (omega arith) s q)
          ∙ ap h (leaves i (omega arith) (omega arith) ne s q)
    ]

-- The number is in the list, and how often does not matter.
abbrev pub AllBelow : ℕ → List ℕ → Type 0
AllBelow n [] = Unit {0}
AllBelow n (x ∷ xs) = (x < n) × AllBelow n xs

abbrev pub Absent : ℕ → List ℕ → Type 0
Absent y [] = Unit {0}
Absent y (x ∷ xs) = (x ≢ y) × Absent y xs

-- The number is in the list once.
abbrev pub Once : ℕ → List ℕ → Type 0
Once y [] = ⊥
Once y (x ∷ xs) = ((x ≡ y) × Absent y xs) ⊎ ((x ≢ y) × Once y xs)

-- An order in which the numbers below `n` can be taken.
pub record IsTurns (n : ℕ) (order : List ℕ) : Type 0 where
  pub below : AllBelow n order
  pub once : (y : ℕ) → y < n → Once y order

module _ {ℓ κ μ} {S : Type ℓ} {V : Type κ} (Q : S → Type μ) (g : S → V) (n : ℕ) (body : ℕ → S → S)
    (qs : (k : ℕ) → k < n → (s : S) → Q s → Q (body k s)) where
  pub run-Absent :
      (hit : ℕ)
      → ((k : ℕ) → k < n → k ≢ hit → (s : S) → Q s → g (body k s) ≡ g s)
      → (order : List ℕ) → AllBelow n order
      → Absent hit order
      → (s : S) → Q s
      → Q (run body order s) × (g (run body order s) ≡ g s)
  run-Absent hit leaves [] b a s q = (q, refl)
  run-Absent hit leaves (k ∷ order) b a s q =
      let (q', e) = run-Absent hit leaves order b.1 a.1 (body k s) (qs k b.0 s q) in
      (q', e ∙ leaves k b.0 a.0 s q)

  -- As `for_range-once`, in any order.
  pub run-once :
      (h : V → V) (hit : ℕ)
      → ((k : ℕ) → k < n → k ≢ hit → (s : S) → Q s → g (body k s) ≡ g s)
      → ((s : S) → Q s → g (body hit s) ≡ h (g s))
      → (order : List ℕ) → AllBelow n order
      → Once hit order
      → (s : S) → Q s
      → g (run body order s) ≡ h (g s)
  run-once h hit leaves at_hit [] b o s q = elim o [ ]
  run-once h hit leaves at_hit (k ∷ order) b (inl (e, a)) s q =
      (run-Absent hit leaves order b.1 a (body k s) (qs k b.0 s q)).1
      ∙ ap (λ j. g (body j s)) e
      ∙ at_hit s q
  run-once h hit leaves at_hit (k ∷ order) b (inr (ne, o)) s q =
      run-once h hit leaves at_hit order b.1 o (body k s) (qs k b.0 s q)
      ∙ ap h (leaves k b.0 ne s q)

  pub run-keeps : (order : List ℕ) → AllBelow n order → (s : S) → Q s → Q (run body order s)
  run-keeps [] b s q = q
  run-keeps (k ∷ order) b s q = run-keeps order b.1 (body k s) (qs k b.0 s q)

-- The order from `n - 1` down to 0.
unfoldable pub countdown : ℕ → List ℕ
countdown zero = []
countdown (suc n) = n ∷ countdown n

countdown-AllBelow : (m n : ℕ) → n ≤ m → AllBelow m (countdown n)
unfolding countdown
countdown-AllBelow m zero h = tt
countdown-AllBelow m (suc n) h = (omega arith, countdown-AllBelow m n (omega arith))

countdown-Absent : (y n : ℕ) → n ≤ y → Absent y (countdown n)
unfolding countdown
countdown-Absent y zero h = tt
countdown-Absent y (suc n) h = (λ e. absurd (omega arith), countdown-Absent y n (omega arith))

countdown-Once : (y n : ℕ) → y < n → Once y (countdown n)
unfolding countdown
countdown-Once y zero h = absurd (omega arith)
countdown-Once y (suc n) h = elim (ℕ_discrete n y) [
  | yes e ↦ inl (e, countdown-Absent y n (omega arith))
  | no ne ↦ inr (ne, countdown-Once y n (omega arith))
]

pub countdown-IsTurns : (n : ℕ) → IsTurns n (countdown n)
countdown-IsTurns n = record {
  below = countdown-AllBelow n n (omega arith);
  once = λ y hy. countdown-Once y n hy;
}
