-- ===== src/TimeBending/CubeRoot.antt =====
-- The integer cube root.
use pocx.Base.{
  ℕ, zero, suc, ◌+◌, ◌-◌, ◌*◌, ◌/◌, ◌^◌, ◌≤◌, ◌<◌, ◌≡◌, ◌∙◌, ap, sym, subst, ltb, leb, ltb→lt,
  ltb→le, leb→le, leb→gt, Bool-cases, inl, inr, dec_lt, arith,
}
use native.Mathlib.Nat.{
  mul-le-mul, mul-lt-mul_of_pos_left, mul-pos, pow-suc, mul_assoc, mul_comm, pow-le-pow_right,
}
use pocx.TimeBending.{cube, double_up, bisect, int_cuberoot_u256}

pub record IsCubeRoot (x r : ℕ) : Type 0 where
  pub below : cube r ≤ x
  pub above : x < cube (r + 1)

pub cube-le : (a b : ℕ) → a ≤ b → cube a ≤ cube b
cube-le a b h = mul-le-mul (mul-le-mul h h) h

pub cube-lt : (a b : ℕ) → a < b → cube a < cube b
cube-lt a b h = elim (dec_lt 0 b) [
  | yes p ↦ omega (
    arith,
    mul-le-mul {n₁ = a * a} {m₁ = a} {n₂ = b * b} {m₂ = a}
        (mul-le-mul {n₁ = a} {m₁ = a} {n₂ = b} {m₂ = b} (omega arith) (omega arith)) (omega arith),
    mul-lt-mul_of_pos_left {m = a} {n = b} {k = b * b} h (mul-pos p p),
  )
  | no np ↦ absurd (omega arith)
]

-- A larger number has no smaller root.
pub IsCubeRoot-le : (x y r s : ℕ) → IsCubeRoot x r → IsCubeRoot y s → x ≤ y → r ≤ s
IsCubeRoot-le x y r s p q h = elim (dec_lt s r) [
  | yes lt ↦ absurd (omega (arith, p.below, q.above, cube-le (s + 1) r (omega arith)))
  | no np ↦ omega arith
]

double_up-bounds :
    (n x hi : ℕ)
    → cube (hi / 2) ≤ x
    → x ≤ cube (2 ^ n * hi)
    → (cube (double_up n x hi / 2) ≤ x)
      × (x ≤ cube (double_up n x hi))
      × (double_up n x hi ≤ 2 ^ n * hi)
unfolding double_up
double_up-bounds zero x hi lo up =
    (lo, subst (λ h. x ≤ cube h) {x = 2 ^ 0 * hi} {y = hi} (omega arith) up, omega arith)
double_up-bounds (suc n) x hi lo up = elim (Bool-cases (ltb (cube hi) x)) [
  | inl e ↦
      let shift : 2 ^ suc n * hi ≡ 2 ^ n * (hi * 2) =
        ap (λ p. p * hi) (pow-suc 2 n)
        ∙ mul_assoc (2 ^ n) 2 hi
        ∙ ap (λ k. 2 ^ n * k) (mul_comm 2 hi) in
      let (a, b, c) =
        double_up-bounds n x (hi * 2)
          (subst (λ h. cube h ≤ x) {x = hi} {y = hi * 2 / 2} (omega arith)
            (omega (arith, ltb→lt _ _ e)))
          (subst (λ h. x ≤ cube h) shift up) in
      rw e (a, b, subst (λ k. double_up n x (hi * 2) ≤ k) (sym shift) c)
  | inr e ↦ rw e (lo, ltb→le _ _ e, grows)
]
  where
    grows : hi ≤ 2 ^ suc n * hi
    grows = omega (
      arith,
      mul-le-mul {n₁ = 1} {m₁ = hi} {n₂ = 2 ^ suc n} {m₂ = hi}
          (pow-le-pow_right {n = 2} (omega arith) {i = 0} {j = suc n} (omega arith)) (omega arith),
    )

bisect-IsCubeRoot :
    (n x lo hi : ℕ)
    → cube lo ≤ x
    → x < cube (hi + 1)
    → lo ≤ hi
    → hi < lo + 2 ^ n
    → IsCubeRoot x (bisect n x lo hi)
unfolding bisect
bisect-IsCubeRoot zero x lo hi low high le near = record {
  below = low;
  above = subst (λ k. x < cube (k + 1)) {x = hi} {y = lo} (omega arith) high;
}
bisect-IsCubeRoot (suc n) x lo hi low high le near = elim (Bool-cases (ltb lo hi)) [
  | inl e ↦ elim (Bool-cases (leb (cube mid) x)) [
    | inl m ↦
        rw (e, m)
          (bisect-IsCubeRoot n x mid hi (leb→le _ _ m) high (omega (arith, ltb→lt _ _ e))
            (omega (arith, ltb→lt _ _ e, pow-suc 2 n)))
    | inr m ↦
        rw (e, m)
          (bisect-IsCubeRoot n x lo (mid - 1) low
            (subst (λ k. x < cube k) {x = mid} {y = mid - 1 + 1} (omega (arith, ltb→lt _ _ e))
              (omega (arith, leb→gt _ _ m)))
            (omega (arith, ltb→lt _ _ e)) (omega (arith, ltb→lt _ _ e, pow-suc 2 n)))
  ]
  | inr e ↦ rw e (record {
    below = low;
    above = subst (λ k. x < cube (k + 1)) {x = hi} {y = lo} (omega (arith, ltb→le _ _ e)) high;
  })
]
  where
    mid : ℕ
    mid = (lo + hi + 1) / 2

-- The fuel is enough below 2^768: the result is the largest number whose cube is at most the argument.
pub int_cuberoot_u256-IsCubeRoot : (x : ℕ) → x < 2 ^ 768 → IsCubeRoot x (int_cuberoot_u256 x)
unfolding int_cuberoot_u256
int_cuberoot_u256-IsCubeRoot x h =
    let hi = double_up 256 x 1 in
    let (a, b, c) = double_up-bounds 256 x 1 (omega arith) (omega arith) in
    bisect-IsCubeRoot 256 x (hi / 2) hi a (omega (arith, b, cube-lt hi (hi + 1) (omega arith)))
      (omega arith) (omega (arith, c))
