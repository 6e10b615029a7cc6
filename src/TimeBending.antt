-- ===== src/TimeBending.antt =====
-- pocx_aggregator/src/time_bending.rs: the integer arithmetic that turns a raw quality into a deadline.
-- A `BigUint` is a number. Its division by zero panics, which is `none` here. The loops recur on fuel;
-- 256 rounds are enough for every number below 2^768, and the callers stay below 2^190.
pub mod CubeRoot
pub mod Deadline
mod Tests
use pocx.Base.{
  ℕ, zero, suc, ◌+◌, ◌-◌, ◌*◌, ◌/◌, ◌%◌, ◌^◌, Option, none, some, u64_mod, ltb, leb, ◌==◌,
  if◌then◌else◌,
}

abbrev pub cube : ℕ → ℕ
cube n = n * n * n

-- `while hi * hi * hi < x`.
unfoldable pub double_up : ℕ → ℕ → ℕ → ℕ
double_up zero x hi = hi
double_up (suc fuel) x hi =
    let rest = double_up fuel x (hi * 2) in if ltb (cube hi) x then rest else hi

-- `while lo < hi`.
unfoldable pub bisect : ℕ → ℕ → ℕ → ℕ → ℕ
bisect zero x lo hi = lo
bisect (suc fuel) x lo hi =
    let mid = (lo + hi + 1) / 2 in
    let upper = bisect fuel x mid hi in
    let lower = bisect fuel x lo (mid - 1) in
    if ltb lo hi then (if leb (cube mid) x then upper else lower) else lo

unfoldable pub int_cuberoot_u256 : ℕ → ℕ
int_cuberoot_u256 x = let hi = double_up 256 x 1 in bisect 256 x (hi / 2) hi

abbrev pub gamma_fp : ℕ
gamma_fp = 3927365422841

-- `t_cbrt * GAMMA_FP >> Q` for the root of `block_time << 3 * Q`.
unfoldable pub qscale_denominator : ℕ → ℕ
qscale_denominator block_time = int_cuberoot_u256 (block_time * 2 ^ 126) * gamma_fp / 2 ^ 42

unfoldable pub calculate_qscale_uint : ℕ → Option ℕ
calculate_qscale_uint block_time =
    let denominator = qscale_denominator block_time in
    if denominator == 0 then none else some ((block_time * 2 ^ 84 + denominator / 2) / denominator)

-- The part after the scale factor, before the low 64 bits are taken.
unfoldable pub bended : ℕ → ℕ → ℕ → ℕ
bended scale_q raw_quality base_target =
    (scale_q * int_cuberoot_u256 (raw_quality * 2 ^ 63 / base_target) + 2 ^ 63 / 2) / 2 ^ 63

abbrev pub scaled : ℕ → ℕ → Option ℕ → Option ℕ
scaled raw_quality base_target none = none
scaled raw_quality base_target (some scale_q) =
    if base_target == 0 then none else some (bended scale_q raw_quality base_target % u64_mod)

unfoldable pub calculate_time_bended_deadline : ℕ → ℕ → ℕ → Option ℕ
calculate_time_bended_deadline raw_quality base_target block_time =
    if raw_quality == 0
    then some 0
    else scaled raw_quality base_target (calculate_qscale_uint block_time)
