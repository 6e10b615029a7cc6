-- ===== src/Base/Interleave.antt =====
-- Threads that take their work from lists: every order in which the steps can happen.
use Prim.Native.Nat.{ℕ, zero, suc, ◌≤◌, ◌<◌}
use mathlib.Core.Path.{◌≡◌, refl, sym, ap, ◌∙◌}
use mathlib.Core.List.{List, [], ◌∷◌, ◌++◌}
use native.Mathlib.Omega.{arith}
use pocx.Base.Lists.{length, take, drop, length-drop, take-append-drop}

abbrev pub run {ℓ κ} : {A : Type ℓ} {S : Type κ} → (A → S → S) → List A → S → S
run f [] s = s
run f (x ∷ xs) s = run f xs (f x s)

abbrev pub flatten {ℓ} : {A : Type ℓ} → List (List A) → List A
flatten [] = []
flatten (c ∷ cs) = c ++ flatten cs

-- One of the lists loses its first entry.
pub data Takes {ℓ} {A : Type ℓ} : List (List A) → A → List (List A) → Type ℓ where
  here : {x : A} {xs : List A} {cs : List (List A)} → Takes ((x ∷ xs) ∷ cs) x (xs ∷ cs)
  there : {c : List A} {x : A} {cs ds : List (List A)} → Takes cs x ds → Takes (c ∷ cs) x (c ∷ ds)

-- The entries of the lists in an order in which threads, one for each list, can reach them.
pub data Interleaves {ℓ} {A : Type ℓ} : List (List A) → List A → Type ℓ where
  finished : {cs : List (List A)} → flatten cs ≡ [] → Interleaves cs []
  next :
      {cs ds : List (List A)} {x : A} {xs : List A}
      → Takes cs x ds
      → Interleaves ds xs
      → Interleaves cs (x ∷ xs)

pub run-append {ℓ κ} :
    {A : Type ℓ} {S : Type κ} (f : A → S → S) (xs ys : List A) (s : S)
    → run f (xs ++ ys) s ≡ run f ys (run f xs s)
run-append f [] ys s = refl
run-append f (x ∷ xs) ys s = run-append f xs ys (f x s)

module _ {ℓ κ} {A : Type ℓ} {S : Type κ} (f : A → S → S)
    (swap : (x y : A) (s : S) → f x (f y s) ≡ f y (f x s)) where
  run-late : (xs : List A) (y : A) (s : S) → run f xs (f y s) ≡ f y (run f xs s)
  run-late [] y s = refl
  run-late (x ∷ xs) y s = ap (run f xs) (swap x y s) ∙ run-late xs y (f x s)

  run-Takes :
      {cs ds : List (List A)} {x : A}
      → Takes cs x ds
      → (s : S) → run f (flatten cs) s ≡ run f (flatten ds) (f x s)
  run-Takes here s = refl
  run-Takes (there {c} {x} {cs} {ds} t) s =
      run-append f c (flatten cs) s
      ∙ run-Takes t (run f c s)
      ∙ sym (ap (run f (flatten ds)) (run-late c x s))
      ∙ sym (run-append f c (flatten ds) (f x s))

  -- When the steps commute, every interleaving ends as the lists one after the other.
  pub run-Interleaves :
      {cs : List (List A)} {xs : List A}
      → Interleaves cs xs
      → (s : S) → run f xs s ≡ run f (flatten cs) s
  run-Interleaves (finished e) s = ap (λ ys. run f ys s) (sym e)
  run-Interleaves (next {x = x} t rest) s = run-Interleaves rest (f x s) ∙ sym (run-Takes t s)

-- Slices of `k` entries each, of at most `n` slices.
abbrev pub chunks {ℓ} : {A : Type ℓ} → ℕ → ℕ → List A → List (List A)
chunks zero k xs = []
chunks (suc n) k [] = []
chunks (suc n) k (x ∷ xs) = take k (x ∷ xs) ∷ chunks n k (drop k (x ∷ xs))

pub flatten-chunks {ℓ} :
    {A : Type ℓ} (n k : ℕ) (xs : List A) → 0 < k → length xs ≤ n → flatten (chunks n k xs) ≡ xs
flatten-chunks zero k [] h le = refl
flatten-chunks zero k (x ∷ xs) h le = absurd (omega arith)
flatten-chunks (suc n) k [] h le = refl
flatten-chunks (suc n) k (x ∷ xs) h le =
    ap (λ ys. take k (x ∷ xs) ++ ys)
      (flatten-chunks n k (drop k (x ∷ xs)) h (omega (arith, length-drop k (x ∷ xs))))
    ∙ take-append-drop k (x ∷ xs)
