-- ===== src/Plotfile/Slices.antt =====
-- Slices of an array that has been written to, and slices of slices.
use pocx.Base.{
  ℕ, ◌+◌, ◌≤◌, ◌<◌, ◌≡◌, ◌⊎◌, inl, inr, ◌∙◌, ap, sym, List, length, get_or, slice, splice, list-ext,
  length-slice, length-splice, get_or-splice_in, get_or-splice_before, get_or-splice_after, arith,
}
use pocx.Nonce.Layout.{get_or-slice}

-- A slice that a write covers, and one that it does not touch.
pub slice-splice_in :
    (xs : List ℕ) (i : ℕ) (ys : List ℕ) (a r len : ℕ)
    → i + length ys ≤ length xs
    → a ≡ i + r
    → r + len ≤ length ys
    → slice (splice xs i ys) a (a + len) ≡ slice ys r (r + len)
slice-splice_in xs i ys a r len h e fits = list-ext 0 _ _ (size ∙ sym size') (λ z hz.
    let small : z < len = omega (arith, size) in
    get_or-slice (splice xs i ys) a (a + len) z (omega arith)
    ∙ get_or-splice_in 0 xs i ys (r + z) (a + z) h (omega arith) (omega arith)
    ∙ sym (get_or-slice ys r (r + len) z (omega arith)))
  where
    size : length (slice (splice xs i ys) a (a + len)) ≡ len
    size =
        length-slice (splice xs i ys) a (a + len) (omega (arith, length-splice 0 xs i ys h))
        ∙ omega arith

    size' : length (slice ys r (r + len)) ≡ len
    size' = length-slice ys r (r + len) fits ∙ omega arith

pub slice-splice_out :
    (xs : List ℕ) (i : ℕ) (ys : List ℕ) (a len : ℕ)
    → i + length ys ≤ length xs
    → a + len ≤ length xs
    → (a + len ≤ i) ⊎ (i + length ys ≤ a)
    → slice (splice xs i ys) a (a + len) ≡ slice xs a (a + len)
slice-splice_out xs i ys a len h fits side = list-ext 0 _ _ (size ∙ sym size') (λ z hz.
    let small : z < len = omega (arith, size) in
    get_or-slice (splice xs i ys) a (a + len) z (omega arith)
    ∙ elim side [
      | inl before ↦ get_or-splice_before 0 xs i ys (a + z) (omega arith) (omega arith)
      | inr after ↦ get_or-splice_after 0 xs i ys (a + z) (omega arith) (omega arith)
    ]
    ∙ sym (get_or-slice xs a (a + len) z (omega arith)))
  where
    size : length (slice (splice xs i ys) a (a + len)) ≡ len
    size =
        length-slice (splice xs i ys) a (a + len) (omega (arith, length-splice 0 xs i ys h))
        ∙ omega arith

    size' : length (slice xs a (a + len)) ≡ len
    size' = length-slice xs a (a + len) fits ∙ omega arith

pub slice-slice :
    (xs : List ℕ) (i j r len a : ℕ)
    → a ≡ i + r
    → i + (r + len) ≤ j
    → j ≤ length xs
    → slice (slice xs i j) r (r + len) ≡ slice xs a (a + len)
slice-slice xs i j r len a e fits inside = list-ext 0 _ _ (size ∙ sym size') (λ z hz.
    let small : z < len = omega (arith, size) in
    get_or-slice (slice xs i j) r (r + len) z (omega arith)
    ∙ get_or-slice xs i j (r + z) (omega arith)
    ∙ ap (λ k. get_or xs k 0) {x = i + (r + z)} {y = a + z} (omega arith)
    ∙ sym (get_or-slice xs a (a + len) z (omega arith)))
  where
    size : length (slice (slice xs i j) r (r + len)) ≡ len
    size =
        length-slice (slice xs i j) r (r + len) (omega (arith, length-slice xs i j inside))
        ∙ omega arith

    size' : length (slice xs a (a + len)) ≡ len
    size' = length-slice xs a (a + len) (omega arith) ∙ omega arith
