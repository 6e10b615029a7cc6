-- ===== src/Base/Bits.antt =====
-- Bounds and laws of the bitwise operations at every width, from the digit recursion that the
-- native ones stand for.
use Prim.Native.Nat.{
  ℕ, zero, suc, ◌+◌, ◌*◌, ◌/◌, ◌%◌, ◌^◌, ◌≤◌, ◌<◌, bit_and, bit_or, bit_xor, digits, bitwise,
  bit_and-bitwise, bit_or-bitwise, bit_xor-bitwise, min, max, differ,
}
use mathlib.Core.Path.{◌≡◌, refl, ap, ap₂, sym, ◌∙◌}
use mathlib.Core.Logic.{◌⊎◌, inl, inr}
use native.Mathlib.Omega.{arith}
use native.Mathlib.Nat.{le_refl, pow-suc}

module _ (z : ℕ → ℕ) (f : ℕ → ℕ → ℕ) where
  -- The fuel of the digit recursion does not matter once it covers the first number.
  digits-irrelevant : (n m a b : ℕ) → a ≤ n → a ≤ m → digits z f n a b ≡ digits z f m a b
  digits-irrelevant zero zero a b p q = refl
  digits-irrelevant zero (suc m) zero b p q = refl
  digits-irrelevant zero (suc m) (suc a) b p q = absurd (omega arith)
  digits-irrelevant (suc n) zero zero b p q = refl
  digits-irrelevant (suc n) zero (suc a) b p q = absurd (omega arith)
  digits-irrelevant (suc n) (suc m) zero b p q = refl
  digits-irrelevant (suc n) (suc m) (suc a) b p q =
      rw (digits-irrelevant n m (suc a / 2) (b / 2) (omega arith) (omega arith))

  bitwise-lowest :
      (a b : ℕ)
      → bitwise z f (suc a) b ≡ bitwise z f (suc a / 2) (b / 2) * 2 + f (suc a % 2) (b % 2)
  bitwise-lowest a b =
      omega (arith, digits-irrelevant a (suc a / 2) (suc a / 2) (b / 2) (omega arith) (le_refl _))

pub bit_or_lowest : (a b : ℕ) → bit_or a b ≡ bit_or (a / 2) (b / 2) * 2 + max (a % 2) (b % 2)
bit_or_lowest zero b = simp bit_or-bitwise (omega arith)
bit_or_lowest (suc a) b = simp bit_or-bitwise (bitwise-lowest (λ y. y) max a b)

pub bit_and_lowest : (a b : ℕ) → bit_and a b ≡ bit_and (a / 2) (b / 2) * 2 + min (a % 2) (b % 2)
bit_and_lowest zero b = simp bit_and-bitwise (omega arith)
bit_and_lowest (suc a) b = simp bit_and-bitwise (bitwise-lowest (λ y. 0) min a b)

pub bit_xor_lowest : (a b : ℕ) → bit_xor a b ≡ bit_xor (a / 2) (b / 2) * 2 + differ (a % 2) (b % 2)
bit_xor_lowest zero b = simp bit_xor-bitwise (omega arith)
bit_xor_lowest (suc a) b = simp bit_xor-bitwise (bitwise-lowest (λ y. y) differ a b)

differ-digit : (x y : ℕ) → x < 2 → y < 2 → differ x y < 2
differ-digit zero y p q = q
differ-digit (suc x) zero p q = p
differ-digit (suc x) (suc y) p q = differ-digit x y (omega arith) (omega arith)

-- A result is as wide as its arguments.
pub bit_or-lt : (k a b : ℕ) → a < 2 ^ k → b < 2 ^ k → bit_or a b < 2 ^ k
bit_or-lt zero zero zero p q = omega arith
bit_or-lt zero zero (suc b) p q = absurd (omega arith)
bit_or-lt zero (suc a) b p q = absurd (omega arith)
bit_or-lt (suc k) a b p q =
    ground (arith, pow-suc 2 k, bit_or_lowest a b, bit_or-lt k (a / 2) (b / 2))

pub bit_xor-lt : (k a b : ℕ) → a < 2 ^ k → b < 2 ^ k → bit_xor a b < 2 ^ k
bit_xor-lt zero zero zero p q = omega arith
bit_xor-lt zero zero (suc b) p q = absurd (omega arith)
bit_xor-lt zero (suc a) b p q = absurd (omega arith)
bit_xor-lt (suc k) a b p q = ground (
  arith,
  pow-suc 2 k,
  bit_xor_lowest a b,
  bit_xor-lt k (a / 2) (b / 2),
  differ-digit (a % 2) (b % 2),
)

pub bit_and-lt : (k a b : ℕ) → a < 2 ^ k → bit_and a b < 2 ^ k
bit_and-lt zero zero b p = simp bit_and-bitwise (omega arith)
bit_and-lt zero (suc a) b p = absurd (omega arith)
bit_and-lt (suc k) a b p =
    ground (arith, pow-suc 2 k, bit_and_lowest a b, bit_and-lt k (a / 2) (b / 2))

pub bit_and-zero : (n a : ℕ) → a ≤ n → bit_and a 0 ≡ 0
bit_and-zero n zero h = refl
bit_and-zero zero (suc a) h = absurd (omega arith)
bit_and-zero (suc n) (suc a) h =
    omega (arith, bit_and_lowest (suc a) 0, bit_and-zero n (suc a / 2) (omega arith))

pub bit_and-fifteen : (a : ℕ) → bit_and a 15 ≡ a % 16
bit_and-fifteen a = omega (
  arith,
  bit_and_lowest a 15,
  bit_and_lowest (a / 2) 7,
  bit_and_lowest (a / 2 / 2) 3,
  bit_and_lowest (a / 2 / 2 / 2) 1,
  bit_and-zero (a / 2 / 2 / 2 / 2) (a / 2 / 2 / 2 / 2) (le_refl _),
)

pub bit_and-one : (a : ℕ) → bit_and a 1 ≡ a % 2
bit_and-one a = omega (arith, bit_and_lowest a 1, bit_and-zero (a / 2) (a / 2) (le_refl _))

bit_or-zero : (n a : ℕ) → a ≤ n → bit_or a 0 ≡ a
bit_or-zero n zero h = refl
bit_or-zero zero (suc a) h = absurd (omega arith)
bit_or-zero (suc n) (suc a) h =
    omega (arith, bit_or_lowest (suc a) 0, bit_or-zero n (suc a / 2) (omega arith))

-- Below the lowest `k` digits an or is a sum.
pub bit_or-shifted : (k x y : ℕ) → y < 2 ^ k → bit_or (x * 2 ^ k) y ≡ x * 2 ^ k + y
bit_or-shifted zero x zero h =
    ap (λ a. bit_or a 0) {x = x * 2 ^ 0} {y = x} (omega arith)
    ∙ bit_or-zero x x (le_refl x)
    ∙ omega arith
bit_or-shifted zero x (suc y) h = absurd (omega arith)
bit_or-shifted (suc k) x y h =
    let twice : x * 2 ^ suc k ≡ 2 * (x * 2 ^ k) = ap (λ p. x * p) (pow-suc 2 k) ∙ omega arith in
    let half : x * 2 ^ suc k / 2 ≡ x * 2 ^ k = omega (arith, twice) in
    let small : y / 2 < 2 ^ k = omega (arith, pow-suc 2 k) in
    omega (
      arith,
      twice,
      bit_or_lowest (x * 2 ^ suc k) y,
      ap (λ a. bit_or a (y / 2)) half,
      bit_or-shifted k x (y / 2) small,
    )

digit : (x : ℕ) → (x % 2 ≡ 0) ⊎ (x % 2 ≡ 1)
digit x = ground arith

differ-swap :
    (x y z : ℕ) → differ (differ (x % 2) (y % 2)) (z % 2) ≡ differ (differ (x % 2) (z % 2)) (y % 2)
differ-swap x y z = elim (digit x) [
  | inl ex ↦ elim (digit y) [
    | inl ey ↦ elim (digit z) [ inl ez ↦ rw (ex, ey, ez) refl | inr ez ↦ rw (ex, ey, ez) refl ]
    | inr ey ↦ elim (digit z) [ inl ez ↦ rw (ex, ey, ez) refl | inr ez ↦ rw (ex, ey, ez) refl ]
  ]
  | inr ex ↦ elim (digit y) [
    | inl ey ↦ elim (digit z) [ inl ez ↦ rw (ex, ey, ez) refl | inr ez ↦ rw (ex, ey, ez) refl ]
    | inr ey ↦ elim (digit z) [ inl ez ↦ rw (ex, ey, ez) refl | inr ez ↦ rw (ex, ey, ez) refl ]
  ]
]

bit_xor-halves :
    (a b : ℕ)
    → (bit_xor a b / 2 ≡ bit_xor (a / 2) (b / 2)) × (bit_xor a b % 2 ≡ differ (a % 2) (b % 2))
bit_xor-halves a b = (
  omega (arith, bit_xor_lowest a b, differ-digit (a % 2) (b % 2)),
  omega (arith, bit_xor_lowest a b, differ-digit (a % 2) (b % 2)),
)

bit_xor-twice :
    (a b c : ℕ)
    → bit_xor (bit_xor a b) c
      ≡ bit_xor (bit_xor (a / 2) (b / 2)) (c / 2) * 2 + differ (differ (a % 2) (b % 2)) (c % 2)
bit_xor-twice a b c =
    bit_xor_lowest (bit_xor a b) c
    ∙ ap₂ (λ h d. bit_xor h (c / 2) * 2 + differ d (c % 2)) (bit_xor-halves a b).0
        (bit_xor-halves a b).1

-- The order of the arguments after the first does not matter.
bit_xor-swap_le :
    (n a b c : ℕ) → a ≤ n → b ≤ n → c ≤ n → bit_xor (bit_xor a b) c ≡ bit_xor (bit_xor a c) b
bit_xor-swap_le zero a b c p q r =
    ap (λ x. bit_xor (bit_xor a x) c) {x = b} {y = c} (omega arith)
    ∙ ap (λ y. bit_xor (bit_xor a c) y) {x = c} {y = b} (omega arith)
bit_xor-swap_le (suc n) a b c p q r =
    bit_xor-twice a b c
    ∙ ap₂ (λ h d. h * 2 + d)
        (bit_xor-swap_le n (a / 2) (b / 2) (c / 2) (omega arith) (omega arith) (omega arith))
        (differ-swap a b c)
    ∙ sym (bit_xor-twice a c b)

pub bit_xor-swap : (a b c : ℕ) → bit_xor (bit_xor a b) c ≡ bit_xor (bit_xor a c) b
bit_xor-swap a b c = bit_xor-swap_le (a + b + c) a b c (omega arith) (omega arith) (omega arith)
