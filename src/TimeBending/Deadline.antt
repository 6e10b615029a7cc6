-- ===== src/TimeBending/Deadline.antt =====
-- When a deadline exists, and that a better quality never has a later one.
use pocx.Base.{
  ℕ, zero, suc, ◌+◌, ◌*◌, ◌/◌, ◌%◌, ◌^◌, ◌≤◌, ◌<◌, ◌≡◌, ◌≢◌, ◌⊎◌, inl, inr, refl, ◌∙◌, ap, Option,
  none, some, u64_mod, ◌==◌, ==_iff, Bool-cases, false, arith,
}
use native.Mathlib.Nat.{
  mul-le-mul, div-mul-le_self, div-le_self, le-div_iff_mul-le, div-lt_iff_lt-mul,
}
use pocx.TimeBending.{
  int_cuberoot_u256, gamma_fp, qscale_denominator, calculate_qscale_uint, bended, scaled,
  calculate_time_bended_deadline,
}
use pocx.TimeBending.CubeRoot.{IsCubeRoot, IsCubeRoot-le, cube-lt, int_cuberoot_u256-IsCubeRoot}

==-no : (a b : ℕ) → a ≢ b → (a == b) ≡ false
==-no a b h = elim (Bool-cases (a == b)) [ inl e ↦ absurd (h ((==_iff a b).0 e)) | inr e ↦ e ]

int_cuberoot_u256-le : (x y : ℕ) → y < 2 ^ 768 → x ≤ y → int_cuberoot_u256 x ≤ int_cuberoot_u256 y
int_cuberoot_u256-le x y h le =
    IsCubeRoot-le x y _ _ (int_cuberoot_u256-IsCubeRoot x (omega arith))
      (int_cuberoot_u256-IsCubeRoot y h) le

power-IsCubeRoot : IsCubeRoot (2 ^ 126) (2 ^ 42)
power-IsCubeRoot = record { below = omega arith; above = omega arith }

large-IsCubeRoot : IsCubeRoot (2 ^ 129) (2 ^ 43)
large-IsCubeRoot = record { below = omega arith; above = omega arith }

-- The divisor of the scale factor is at least Gamma(4/3) for a positive block time.
qscale_denominator-pos : (t : ℕ) → 0 < t → t < 2 ^ 64 → gamma_fp ≤ qscale_denominator t
unfolding qscale_denominator
qscale_denominator-pos t pos h = omega (
  arith,
  IsCubeRoot-le (2 ^ 126) (t * 2 ^ 126) _ _ power-IsCubeRoot
      (int_cuberoot_u256-IsCubeRoot (t * 2 ^ 126) (omega arith)) (omega arith),
)

root-zero : (r : ℕ) → IsCubeRoot 0 r → r ≡ 0
root-zero zero h = refl
root-zero (suc r) h = absurd (omega (arith, h.below, cube-lt 0 (suc r) (omega arith)))

calculate_qscale_uint-zero : calculate_qscale_uint 0 ≡ none
unfolding calculate_qscale_uint
calculate_qscale_uint-zero = rw ((==_iff (qscale_denominator 0) 0).1 none_left) refl
  where
    none_left : qscale_denominator 0 ≡ 0
    none_left =
        unfold qscale_denominator in
        omega (arith, root-zero _ (int_cuberoot_u256-IsCubeRoot 0 (omega arith)))

-- A positive block time below 2^64 has a scale factor, of less than 2^76 below 2^32.
calculate_qscale_uint-some :
    (t : ℕ)
    → 0 < t
    → t < 2 ^ 64
    → (scale : ℕ) × (calculate_qscale_uint t ≡ some scale) × (t < 2 ^ 32 → scale < 2 ^ 76)
unfolding calculate_qscale_uint
calculate_qscale_uint-some t pos h = (
  (t * 2 ^ 84 + qscale_denominator t / 2) / qscale_denominator t,
  rw (==-no (qscale_denominator t) 0 (λ e. absurd (omega (arith, e, large)))) refl,
  λ short.
      (div-lt_iff_lt-mul {k = qscale_denominator t} {x = t * 2 ^ 84 + qscale_denominator t / 2}
          {y = 2 ^ 76} (omega (arith, large))).1
        (omega (arith, large)),
)
  where
    large : gamma_fp ≤ qscale_denominator t
    large = qscale_denominator-pos t pos h

module _ (base_target : ℕ) (target_pos : 0 < base_target) where
  root_of : ℕ → ℕ
  root_of raw = int_cuberoot_u256 (raw * 2 ^ 63 / base_target)

  quotient-le : (a b : ℕ) → a ≤ b → a * 2 ^ 63 / base_target ≤ b * 2 ^ 63 / base_target
  quotient-le a b h =
      (le-div_iff_mul-le target_pos).1 (omega (arith, div-mul-le_self (a * 2 ^ 63) base_target))

  root_of-le : (a b : ℕ) → a ≤ b → b < 2 ^ 64 → root_of a ≤ root_of b
  unfolding root_of
  root_of-le a b le h =
      int_cuberoot_u256-le _ _ (omega (arith, div-le_self (b * 2 ^ 63) base_target))
        (quotient-le a b le)

  root_of-small : (raw : ℕ) → raw < 2 ^ 64 → root_of raw ≤ 2 ^ 43
  unfolding root_of
  root_of-small raw h =
      IsCubeRoot-le (raw * 2 ^ 63 / base_target) (2 ^ 129) _ _
        (int_cuberoot_u256-IsCubeRoot _ (omega (arith, div-le_self (raw * 2 ^ 63) base_target)))
        large-IsCubeRoot (omega (arith, div-le_self (raw * 2 ^ 63) base_target))

  bended-le :
      (scale a b : ℕ) → a ≤ b → b < 2 ^ 64 → bended scale a base_target ≤ bended scale b base_target
  unfolding bended root_of
  bended-le scale a b le h = omega (
    arith,
    mul-le-mul {n₁ = scale} {m₁ = root_of a} {n₂ = scale} {m₂ = root_of b} (omega arith)
        (root_of-le a b le h),
  )

  bended-small :
      (scale raw : ℕ) → scale < 2 ^ 76 → raw < 2 ^ 64 → bended scale raw base_target < u64_mod
  unfolding bended root_of
  bended-small scale raw hs h = omega (
    arith,
    mul-le-mul {n₁ = scale} {m₁ = root_of raw} {n₂ = 2 ^ 76} {m₂ = 2 ^ 43} (omega arith)
        (root_of-small raw h),
  )

  -- The deadline of a scale factor that is found.
  deadline-scaled :
      (raw t scale : ℕ)
      → 0 < raw
      → calculate_qscale_uint t ≡ some scale
      → calculate_time_bended_deadline raw base_target t
        ≡ some (bended scale raw base_target % u64_mod)
  unfolding calculate_time_bended_deadline
  deadline-scaled raw t scale pos e =
      rw
        (
          ==-no raw 0 (λ z. absurd (omega (arith, z))),
          e,
          ==-no base_target 0 (λ z. absurd (omega (arith, z))),
        )
        refl

  deadline-exists :
      (raw t : ℕ)
      → 0 < t
      → t < 2 ^ 64
      → (d : ℕ) × (calculate_time_bended_deadline raw base_target t ≡ some d) × (d < 2 ^ 64)
  unfolding calculate_time_bended_deadline
  deadline-exists zero t pos h = (0, refl, omega arith)
  deadline-exists (suc raw) t pos h =
      let (scale, e, small) = calculate_qscale_uint-some t pos h in
      (
        bended scale (suc raw) base_target % u64_mod,
        deadline-scaled (suc raw) t scale (omega arith) e,
        omega arith,
      )

  -- A positive base target and a block time from 1 below 2^32: both deadlines exist, and the one of the
  -- better quality is not later.
  pub calculate_time_bended_deadline-le :
      (better worse block_time : ℕ)
      → 0 < block_time
      → block_time < 2 ^ 32
      → better ≤ worse
      → worse < 2 ^ 64
      → (d e : ℕ) × (calculate_time_bended_deadline better base_target block_time ≡ some d)
        × (calculate_time_bended_deadline worse base_target block_time ≡ some e)
        × (d ≤ e)
  unfolding calculate_time_bended_deadline
  calculate_time_bended_deadline-le zero worse t pos short le h =
      let (e, at_e, small) = deadline-exists worse t pos (omega arith) in
      (0, e, refl, at_e, omega arith)
  calculate_time_bended_deadline-le (suc a) b t pos short le h =
      let (scale, e, small) = calculate_qscale_uint-some t pos (omega arith) in
      (
        bended scale (suc a) base_target % u64_mod,
        bended scale b base_target % u64_mod,
        deadline-scaled (suc a) t scale (omega arith) e,
        deadline-scaled b t scale (omega arith) e,
        omega (
          arith,
          bended-le scale (suc a) b le h,
          bended-small scale (suc a) (small short) (omega arith),
          bended-small scale b (small short) h,
        ),
      )

-- A raw quality of 0 has the deadline 0. Any other has none if the block time or the base target is 0,
-- where the source divides by zero, and else a deadline that fits into 64 bits, for a block time below
-- 2^64.
pub calculate_time_bended_deadline-outcomes :
    (raw base_target block_time : ℕ)
    → block_time < 2 ^ 64
    → (raw ≡ 0 → calculate_time_bended_deadline raw base_target block_time ≡ some 0)
      × (0 < raw
          → (block_time ≡ 0) ⊎ (base_target ≡ 0)
          → calculate_time_bended_deadline raw base_target block_time ≡ none)
      × (0 < block_time
          → 0 < base_target
          → (d : ℕ) × (calculate_time_bended_deadline raw base_target block_time ≡ some d)
            × (d < 2 ^ 64))
unfolding calculate_time_bended_deadline
calculate_time_bended_deadline-outcomes raw bt t h = (
  λ z. rw ((==_iff raw 0).1 z) refl,
  λ pos bad. rw (==-no raw 0 (λ z. absurd (omega (arith, z)))) (missing bad),
  λ tp bp. deadline-exists bt bp raw t tp h,
)
  where
    no_target : (o : Option ℕ) → bt ≡ 0 → scaled raw bt o ≡ none
    no_target none e = refl
    no_target (some s) e = rw ((==_iff bt 0).1 e) refl

    missing : (t ≡ 0) ⊎ (bt ≡ 0) → scaled raw bt (calculate_qscale_uint t) ≡ none
    missing (inl e) =
        ap (λ k. scaled raw bt (calculate_qscale_uint k)) e
        ∙ ap (scaled raw bt) calculate_qscale_uint-zero
    missing (inr e) = no_target _ e
