-- ===== src/TimeBending/Tests.antt =====
-- The theorems about deadlines at concrete inputs.
use pocx.Base.{ℕ, ◌*◌, ◌^◌, ◌≤◌, ◌<◌, ◌≡◌, ◌⊎◌, some, none, arith}
use pocx.TimeBending.{int_cuberoot_u256, calculate_time_bended_deadline}
use pocx.TimeBending.CubeRoot.{IsCubeRoot, int_cuberoot_u256-IsCubeRoot}
use pocx.TimeBending.Deadline.{
  calculate_time_bended_deadline-le, calculate_time_bended_deadline-outcomes,
}

int_cuberoot_u256-IsCubeRoot_example : IsCubeRoot (27 * 2 ^ 126) (int_cuberoot_u256 (27 * 2 ^ 126))
int_cuberoot_u256-IsCubeRoot_example = int_cuberoot_u256-IsCubeRoot (27 * 2 ^ 126) (omega arith)

calculate_time_bended_deadline-le_example :
    (d e : ℕ) × (calculate_time_bended_deadline 265949979000 265949979 120 ≡ some d)
    × (calculate_time_bended_deadline 531899958000 265949979 120 ≡ some e)
    × (d ≤ e)
calculate_time_bended_deadline-le_example =
    calculate_time_bended_deadline-le 265949979 (omega arith) 265949979000 531899958000 120
      (omega arith) (omega arith) (omega arith) (omega arith)

abbrev raw : ℕ
raw = 5

abbrev target : ℕ
target = 7

abbrev block_time : ℕ
block_time = 120

calculate_time_bended_deadline-outcomes_example :
    (raw ≡ 0 → calculate_time_bended_deadline raw target block_time ≡ some 0)
    × (0 < raw
        → (block_time ≡ 0) ⊎ (target ≡ 0)
        → calculate_time_bended_deadline raw target block_time ≡ none)
    × (0 < block_time
        → 0 < target
        → (d : ℕ) × (calculate_time_bended_deadline raw target block_time ≡ some d) × (d < 2 ^ 64))
calculate_time_bended_deadline-outcomes_example =
    calculate_time_bended_deadline-outcomes raw target block_time (omega arith)
