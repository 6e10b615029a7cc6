-- ===== src/Validation.antt =====
-- pocx_hashlib/src/batch_validation.rs: the validation of a batch of proofs, as on a target without
-- vector code. The threads of the scope share the accumulators, each behind a mutex, so a run is the
-- sequence `order` in which the work units are accumulated; which sequences can happen is `IsOrder`.
pub mod Order
pub mod Sequence
pub mod Outcome
mod Tests
use pocx.Base.{
  ℕ, zero, suc, ◌+◌, ◌-◌, ◌*◌, ◌/◌, ◌%◌, ◌^◌, min, List, [], ◌∷◌, ◌++◌, Option, none, some, length,
  replicate, Bool, true, false, u64_max, leb, ◌==◌, if◌then◌else◌, run, chunks, Interleaves,
}
use pocx.Shabal.Hash.{shabal256_lite}
use pocx.Nonce.{scoop_size}
use pocx.Nonce.Generate.{generate_and_extract_scoop_32}
use pocx.Quality.{HashError, quality_mismatch, xor_bytes, scoop_x, nonce_x, calculate_scoop}

-- A computation that may panic, and what follows it.
infixl 5 ◌>>=◌
abbrev pub ◌>>=◌ {ℓ κ} : {A : Type ℓ} {B : Type κ} → Option A → (A → Option B) → Option B
none >>= f = none
some a >>= f = f a

pub data SurrenderPolicy : Type 0 where
  stop_on_first continue_all : SurrenderPolicy

pub record ProofInput : Type 0 where
  pub address_payload : List ℕ
  pub seed : List ℕ
  pub nonce : ℕ
  pub compression : ℕ
  pub block_height : ℕ
  pub generation_signature : List ℕ
  pub base_target : ℕ
  pub claimed_quality : Option ℕ

pub record ValidationResult : Type 0 where
  pub quality : ℕ
  pub deadline : ℕ
  pub is_valid : Bool
  pub error : Option HashError

pub record BatchValidationResult : Type 0 where
  pub results : List ValidationResult
  pub early_surrender : Bool
  pub surrender_index : Option ℕ

pub record WorkUnit : Type 0 where
  pub proof_index : ℕ
  pub address_payload : List ℕ
  pub seed : List ℕ
  pub base_nonce : ℕ
  pub scoop : ℕ

pub record ProofAccumulator : Type 0 where
  pub xor_result : List ℕ
  pub units_completed : ℕ
  pub units_expected : ℕ

-- `1u64 << compression`, whose shift is taken modulo 64.
abbrev pub num_uncompressed : ℕ → ℕ
num_uncompressed compression = 2 ^ (compression % 64)

-- Unit `i` of a proof.
abbrev pub work_unit : ℕ → ProofInput → ℕ → ℕ → ℕ → WorkUnit
work_unit proof_index input scoop count i = record {
  proof_index = proof_index;
  address_payload = input.address_payload;
  seed = input.seed;
  base_nonce = nonce_x scoop input.nonce count i;
  scoop = scoop_x scoop input.nonce i;
}

-- The loop over `n` units from number `i` on.
abbrev pub units_from : ℕ → ProofInput → ℕ → ℕ → ℕ → ℕ → List WorkUnit
units_from proof_index input scoop count zero i = []
units_from proof_index input scoop count (suc n) i =
    work_unit proof_index input scoop count i ∷ units_from proof_index input scoop count n (suc i)

-- A vector of `n` work units, of 80 bytes each, is at most `isize::MAX` bytes; else a call that reserves
-- room for it panics.
abbrev pub has_capacity : ℕ → Bool
has_capacity n = leb (n * 80) (2 ^ 63 - 1)

-- A panic of `Vec::with_capacity` is `none`.
unfoldable pub expand_work_units : ℕ → ProofInput → ℕ → Option (List WorkUnit)
expand_work_units proof_index input scoop =
    let count = num_uncompressed input.compression in
    if has_capacity count then some (units_from proof_index input scoop count count 0) else none

-- The entry at `i` is replaced; the source indexes only entries that exist.
abbrev pub update_at {ℓ} : {A : Type ℓ} → ℕ → (A → A) → List A → List A
update_at i f [] = []
update_at zero f (x ∷ xs) = f x ∷ xs
update_at (suc i) f (x ∷ xs) = x ∷ update_at i f xs

abbrev pub add_scoop : List ℕ → ProofAccumulator → ProofAccumulator
add_scoop scoop_data acc = record acc {
  xor_result = xor_bytes acc.xor_result scoop_data;
  units_completed = suc acc.units_completed;
}

unfoldable pub accumulate_scoop : ℕ → List ℕ → List ProofAccumulator → List ProofAccumulator
accumulate_scoop proof_index scoop_data accs = update_at proof_index (add_scoop scoop_data) accs

unfoldable pub process_single_scalar : WorkUnit → List ProofAccumulator → List ProofAccumulator
process_single_scalar wu accs =
    accumulate_scoop wu.proof_index
      (generate_and_extract_scoop_32 wu.address_payload wu.seed wu.base_nonce wu.scoop) accs

-- Nothing sets the flag `surrender`, which is false from the start; the loop leaves only at the end.
unfoldable pub process_work_range : List WorkUnit → List ProofAccumulator → List ProofAccumulator
process_work_range work_units accs = run process_single_scalar work_units accs

-- `work_units.extend(units)`. How much more than is needed a vector reserves is not said of it, so this is
-- where it must panic.
unfoldable pub extend : List WorkUnit → List WorkUnit → Option (List WorkUnit)
extend work_units units =
    if has_capacity (length work_units + length units) then some (work_units ++ units) else none

-- The units of the proofs, the first of which has number `idx`, behind `work_units`.
unfoldable pub expand : ℕ → List ProofInput → List WorkUnit → Option (List WorkUnit)
expand idx [] work_units = some work_units
expand idx (input ∷ inputs) work_units =
    expand_work_units idx input (calculate_scoop input.block_height input.generation_signature)
    >>= λ units. extend work_units units >>= λ extended. expand (suc idx) inputs extended

abbrev pub new_accumulator : ProofInput → ProofAccumulator
new_accumulator input = record {
  xor_result = replicate scoop_size 0;
  units_completed = 0;
  units_expected = num_uncompressed input.compression;
}

abbrev pub new_accumulators : List ProofInput → List ProofAccumulator
new_accumulators [] = []
new_accumulators (input ∷ inputs) = new_accumulator input ∷ new_accumulators inputs

abbrev pub div_ceil : ℕ → ℕ → ℕ
div_ceil n k = (n + (k - 1)) / k

-- `detect_simd_width` is 1 on these targets.
unfoldable pub num_threads : ℕ → ℕ → ℕ
num_threads hw_threads total_work =
    let max_threads = if leb (hw_threads - 1) 1 then 1 else hw_threads - 1 in
    min max_threads (div_ceil total_work 1)

-- The work of each thread.
unfoldable pub work_chunks : ℕ → List WorkUnit → List (List WorkUnit)
work_chunks hw_threads units =
    let threads = num_threads hw_threads (length units) in
    if leb threads 1
    then units ∷ []
    else chunks (length units) (div_ceil (length units) threads) units

-- The orders of accumulation of work units on a machine with `hw_threads` threads.
abbrev pub IsOrder : ℕ → List WorkUnit → List WorkUnit → Type 0
IsOrder hw_threads units order = Interleaves (work_chunks hw_threads units) order

-- `quality.checked_div(base_target).unwrap_or(u64::MAX)`.
abbrev pub deadline_of : ℕ → ℕ → ℕ
deadline_of quality base_target = if base_target == 0 then u64_max else quality / base_target

abbrev pub verdict : ℕ → ℕ → Option ℕ → Bool × Option HashError
verdict idx quality none = (true, none)
verdict idx quality (some claimed) =
    if quality == claimed
    then (true, none)
    else (false, some (quality_mismatch claimed quality idx))

-- One turn of the loop at the end, without the update of the flags.
abbrev pub result_of : ℕ → ProofInput → ℕ → ValidationResult
result_of idx input quality =
    let (is_valid, error) = verdict idx quality input.claimed_quality in
    record {
      quality = quality;
      deadline = deadline_of quality input.base_target;
      is_valid = is_valid;
      error = error;
    }

-- `early_surrender_flag` and `surrender_index`.
abbrev pub flagged : SurrenderPolicy → ℕ → Bool → Bool × Option ℕ → Bool × Option ℕ
flagged stop_on_first idx false (flag, none) = (true, some idx)
flagged stop_on_first idx false (flag, some first) = (true, some first)
flagged stop_on_first idx true flags = flags
flagged continue_all idx is_valid flags = flags

unfoldable pub finalize :
    SurrenderPolicy
    → ℕ
    → List ProofInput
    → List ProofAccumulator
    → Bool × Option ℕ
    → BatchValidationResult
finalize policy idx [] accs (flag, index) = record {
  results = [];
  early_surrender = flag;
  surrender_index = index;
}
finalize policy idx (input ∷ inputs) [] (flag, index) = record {
  results = [];
  early_surrender = flag;
  surrender_index = index;
}
finalize policy idx (input ∷ inputs) (acc ∷ accs) flags =
    let quality = shabal256_lite acc.xor_result input.generation_signature in
    let result = result_of idx input quality in
    let rest = finalize policy (suc idx) inputs accs (flagged policy idx result.is_valid flags) in
    record rest { results = result ∷ rest.results }

-- An empty batch gives an empty result, as the source's early return does; a panic is `none`.
unfoldable pub validate_proofs :
    List ProofInput → SurrenderPolicy → List WorkUnit → Option BatchValidationResult
validate_proofs inputs policy order = expand 0 inputs [] >>= λ units.
    some
      (finalize policy 0 inputs (process_work_range order (new_accumulators inputs)) (false, none))

abbrev pub head_result : List ValidationResult → Option ValidationResult
head_result [] = none
head_result (r ∷ rs) = some r

unfoldable pub validate_proof : ProofInput → List WorkUnit → Option ValidationResult
validate_proof input order =
    validate_proofs (input ∷ []) continue_all order >>= λ batch. head_result batch.results
