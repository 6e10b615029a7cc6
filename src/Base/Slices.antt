-- ===== src/Base/Slices.antt =====
-- Parts of an array: reading and overwriting a slice, entry by entry.
use Prim.Native.Nat.{ℕ, zero, suc, ◌+◌, ◌-◌, ◌≤◌, ◌<◌}
use mathlib.Core.Path.{◌≡◌, refl, ap, ap₂, ◌∙◌}
use mathlib.Core.List.{List, [], ◌∷◌, ◌++◌}
use native.Mathlib.Omega.{arith}
use pocx.Base.Lists.{
  length, take, drop, get_or, length-append, length-take, length-drop, drop-append,
}

module _ {ℓ} {A : Type ℓ} where
  -- `xs[i..j]`.
  abbrev pub slice : List A → ℕ → ℕ → List A
  slice xs i j = take (j - i) (drop i xs)

  -- `xs[i..i + ys.len()].clone_from_slice(ys)`, in range.
  unfoldable pub splice : List A → ℕ → List A → List A
  splice xs i ys = take i xs ++ (ys ++ drop (i + length ys) xs)

module _ {ℓ} {A : Type ℓ} (d : A) where
  pub get_or-append_lt :
      (xs ys : List A) (i : ℕ) → i < length xs → get_or (xs ++ ys) i d ≡ get_or xs i d
  get_or-append_lt [] ys i h = absurd (omega arith)
  get_or-append_lt (x ∷ xs) ys zero h = refl
  get_or-append_lt (x ∷ xs) ys (suc i) h = get_or-append_lt xs ys i (omega arith)

  pub get_or-append_add :
      (xs ys : List A) (i j : ℕ) → j ≡ length xs + i → get_or (xs ++ ys) j d ≡ get_or ys i d
  get_or-append_add [] ys i j h = ap (λ k. get_or ys k d) (omega arith)
  get_or-append_add (x ∷ xs) ys i zero h = absurd (omega arith)
  get_or-append_add (x ∷ xs) ys i (suc j) h = get_or-append_add xs ys i j (omega arith)

  pub get_or-take : (n i : ℕ) (xs : List A) → i < n → get_or (take n xs) i d ≡ get_or xs i d
  get_or-take zero i xs h = absurd (omega arith)
  get_or-take (suc n) i [] h = refl
  get_or-take (suc n) zero (x ∷ xs) h = refl
  get_or-take (suc n) (suc i) (x ∷ xs) h = get_or-take n i xs (omega arith)

  pub get_or-drop : (n i j : ℕ) (xs : List A) → j ≡ n + i → get_or (drop n xs) i d ≡ get_or xs j d
  get_or-drop zero i j xs h = ap (λ k. get_or xs k d) (omega arith)
  get_or-drop (suc n) i j [] h = refl
  get_or-drop (suc n) i zero (x ∷ xs) h = absurd (omega arith)
  get_or-drop (suc n) i (suc j) (x ∷ xs) h = get_or-drop n i j xs (omega arith)

  -- Lists of one length with the same entries are equal.
  pub list-ext :
      (xs ys : List A)
      → length xs ≡ length ys
      → ((i : ℕ) → i < length xs → get_or xs i d ≡ get_or ys i d)
      → xs ≡ ys
  list-ext [] [] h e = refl
  list-ext [] (y ∷ ys) h e = absurd (omega arith)
  list-ext (x ∷ xs) [] h e = absurd (omega arith)
  list-ext (x ∷ xs) (y ∷ ys) h e =
      ap₂ ◌∷◌ (e 0 (omega arith)) (list-ext xs ys (omega arith) (λ i p. e (suc i) (omega arith)))

  pub length-splice :
      (xs : List A) (i : ℕ) (ys : List A)
      → i + length ys ≤ length xs
      → length (splice xs i ys) ≡ length xs
  unfolding splice
  length-splice xs i ys h = omega (
    arith,
    length-append (take i xs) (ys ++ drop (i + length ys) xs),
    length-append ys (drop (i + length ys) xs),
    length-take i xs,
    length-drop (i + length ys) xs,
  )

  pub get_or-splice_in :
      (xs : List A) (i : ℕ) (ys : List A) (r j : ℕ)
      → i + length ys ≤ length xs
      → r < length ys
      → j ≡ i + r
      → get_or (splice xs i ys) j d ≡ get_or ys r d
  unfolding splice
  get_or-splice_in xs i ys r j h p e =
      get_or-append_add (take i xs) _ r j (omega (arith, length-take i xs))
      ∙ get_or-append_lt ys _ r p

  pub get_or-splice_before :
      (xs : List A) (i : ℕ) (ys : List A) (j : ℕ)
      → i ≤ length xs
      → j < i
      → get_or (splice xs i ys) j d ≡ get_or xs j d
  unfolding splice
  get_or-splice_before xs i ys j h p =
      get_or-append_lt (take i xs) _ j (omega (arith, length-take i xs)) ∙ get_or-take i j xs p

  pub get_or-splice_after :
      (xs : List A) (i : ℕ) (ys : List A) (j : ℕ)
      → i ≤ length xs
      → i + length ys ≤ j
      → get_or (splice xs i ys) j d ≡ get_or xs j d
  unfolding splice
  get_or-splice_after xs i ys j h p =
      get_or-append_add (take i xs) _ (j - i) j (omega (arith, length-take i xs))
      ∙ get_or-append_add ys _ (j - i - length ys) (j - i) (omega arith)
      ∙ get_or-drop (i + length ys) (j - i - length ys) j xs (omega arith)

module _ {ℓ} {A : Type ℓ} where
  pub take-all : (n : ℕ) (xs : List A) → length xs ≤ n → take n xs ≡ xs
  take-all zero [] h = refl
  take-all zero (x ∷ xs) h = absurd (omega arith)
  take-all (suc n) [] h = refl
  take-all (suc n) (x ∷ xs) h = ap (◌∷◌ x) (take-all n xs (omega arith))

  -- What stands from the written slice on.
  pub drop-splice :
      (xs : List A) (i : ℕ) (ys : List A)
      → i ≤ length xs
      → drop i (splice xs i ys) ≡ ys ++ drop (i + length ys) xs
  unfolding splice
  drop-splice xs i ys h =
      ap (λ k. drop k (take i xs ++ (ys ++ drop (i + length ys) xs))) {x = i}
        {y = length (take i xs)} (omega (arith, length-take i xs))
      ∙ drop-append (take i xs) (ys ++ drop (i + length ys) xs)

  pub length-slice : (xs : List A) (i j : ℕ) → j ≤ length xs → length (slice xs i j) ≡ j - i
  length-slice xs i j h = omega (arith, length-take (j - i) (drop i xs), length-drop i xs)

  pub drop-all : (n : ℕ) (xs : List A) → length xs ≤ n → drop n xs ≡ []
  drop-all zero [] h = refl
  drop-all zero (x ∷ xs) h = absurd (omega arith)
  drop-all (suc n) [] h = refl
  drop-all (suc n) (x ∷ xs) h = drop-all n xs (omega arith)
