-- ===== src/Validation/Outcome.antt =====
-- The results of a batch, and its flags.
use pocx.Base.{
  ℕ, suc, ◌≤◌, ◌^◌, arith, ◌≡◌, ◌∙◌, refl, ap, sym, subst, List, [], ◌∷◌, Option, none, some, Bool,
  true, false, Bool-cases, inl, inr, if◌then◌else◌,
}
use native.Mathlib.Nat.{pow-le-pow_right}
use pocx.Shabal.Hash.{shabal256_lite}
use pocx.Quality.{ok, calculate_quality_from_height, calculate_scoop}
use pocx.Quality.Scoop.{compressed_scoop-Sized}
use pocx.Quality.Messages.{shabal256_lite-message, calculate_scoop-lt}
use pocx.Quality.Outcome.{quality_of, calculate_quality_from_height-quality}
use pocx.Validation.{
  SurrenderPolicy, stop_on_first, continue_all, ProofInput, ValidationResult, BatchValidationResult,
  WorkUnit, ProofAccumulator, IsOrder, result_of, flagged, finalize, validate_proofs,
  validate_proof, head_result, new_accumulators, ◌>>=◌, expand, process_work_range,
}
use pocx.Validation.Order.{process_work_range-order}
use pocx.Validation.Sequence.{
  all_units, total_units, expand-all_units, IsProof, AllProofs, proof_scoop, full_accumulators,
  process_work_range-full,
}

-- The quality of a proof by the rules.
abbrev pub rule_quality : ProofInput → ℕ
rule_quality input = quality_of (proof_scoop input) input.generation_signature

-- It is what the direct computation returns.
rule_quality-height :
    (input : ProofInput)
    → IsProof input
    → calculate_quality_from_height input.address_payload input.seed input.nonce input.compression
        input.block_height input.generation_signature
      ≡ ok (rule_quality input)
rule_quality-height input p =
    calculate_quality_from_height-quality input.address_payload input.seed
      input.generation_signature p.len_payload p.len_seed p.len_signature p.b_payload p.b_seed
      p.b_signature input.nonce input.compression input.block_height

full-quality :
    (input : ProofInput)
    → IsProof input
    → shabal256_lite (proof_scoop input) input.generation_signature ≡ rule_quality input
unfolding quality_of
full-quality input p =
    let s =
      compressed_scoop-Sized input.address_payload input.seed p.len_payload p.len_seed p.b_payload
        p.b_seed (calculate_scoop input.block_height input.generation_signature) input.nonce
        (calculate_scoop-lt input.block_height input.generation_signature) input.compression in
    shabal256_lite-message (proof_scoop input) input.generation_signature s.0 p.len_signature s.1
      p.b_signature

-- `rs` are the results of the proofs from number `idx` on, each for the quality that
-- `calculate_quality_from_height` returns.
pub data AreResults : ℕ → List ProofInput → List ValidationResult → Type 0 where
  no_results : {idx : ℕ} → AreResults idx [] []
  one_result :
      {idx : ℕ} {input : ProofInput} {inputs : List ProofInput} {rs : List ValidationResult}
      (quality : ℕ)
      → calculate_quality_from_height input.address_payload input.seed input.nonce input.compression
          input.block_height input.generation_signature
        ≡ ok quality
      → AreResults (suc idx) inputs rs
      → AreResults idx (input ∷ inputs) (result_of idx input quality ∷ rs)

finalize-AreResults :
    (policy : SurrenderPolicy) (inputs : List ProofInput)
    → AllProofs inputs
    → (idx : ℕ) (flags : Bool × Option ℕ)
    → AreResults idx inputs (finalize policy idx inputs (full_accumulators inputs) flags).results
unfolding finalize
finalize-AreResults policy [] ps idx flags = no_results
finalize-AreResults policy (input ∷ inputs) ps idx flags =
    one_result (shabal256_lite (proof_scoop input) input.generation_signature)
      (rule_quality-height input ps.0 ∙ ap ok (sym (full-quality input ps.0)))
      (finalize-AreResults policy inputs ps.1 (suc idx) _)

-- What the loop at the end makes of an order of the units.
validated : List ProofInput → SurrenderPolicy → List WorkUnit → BatchValidationResult
validated inputs policy order =
    finalize policy 0 inputs (process_work_range order (new_accumulators inputs)) (false, none)

validate_proofs-validated :
    (inputs : List ProofInput) (policy : SurrenderPolicy) (units order : List WorkUnit)
    → expand 0 inputs [] ≡ some units
    → validate_proofs inputs policy order ≡ some (validated inputs policy order)
unfolding validate_proofs validated
validate_proofs-validated inputs policy units order e =
    ap (λ r. r >>= λ _. some (validated inputs policy order)) e

-- Whatever the number of threads and the order in which they accumulate the work units of the batch: it
-- is expanded and validated without a panic, and the result of each proof is the verdict on exactly the
-- quality that `calculate_quality_from_height` returns for it. For payloads of 20 bytes, seeds and
-- generation signatures of 32, and batches of at most 2^55 uncompressed nonces, each of a compression
-- below 64. Both policies are meant: under `stop_on_first` the code too computes all results, also those
-- after a mismatch.
pub validate_proofs-AreResults :
    (hw_threads : ℕ) (inputs : List ProofInput) (policy : SurrenderPolicy) (order : List WorkUnit)
    → AllProofs inputs
    → total_units inputs ≤ 2 ^ 55
    → IsOrder hw_threads (all_units 0 inputs) order
    → (expand 0 inputs [] ≡ some (all_units 0 inputs))
      × (batch : BatchValidationResult) × (validate_proofs inputs policy order ≡ some batch)
      × AreResults 0 inputs batch.results
unfolding validated
validate_proofs-AreResults hw inputs policy order ps few is = (
  expand-all_units inputs ps few,
  validated inputs policy order,
  validate_proofs-validated inputs policy (all_units 0 inputs) order
      (expand-all_units inputs ps few),
  subst (λ accs. AreResults 0 inputs (finalize policy 0 inputs accs (false, none)).results)
      (sym (
        process_work_range-order hw (all_units 0 inputs) order is (new_accumulators inputs)
        ∙ process_work_range-full inputs ps))
      (finalize-AreResults policy inputs ps 0 (false, none)),
)

-- The first invalid result, numbered from `idx` on.
abbrev pub first_invalid : ℕ → List ValidationResult → Option ℕ
first_invalid idx [] = none
first_invalid idx (r ∷ rs) = if r.is_valid then first_invalid (suc idx) rs else some idx

abbrev pub is_some {ℓ} : {A : Type ℓ} → Option A → Bool
is_some none = false
is_some (some a) = true

-- What the flags should say of the results.
abbrev pub expected_flags : SurrenderPolicy → ℕ → List ValidationResult → Bool × Option ℕ
expected_flags stop_on_first idx rs = (is_some (first_invalid idx rs), first_invalid idx rs)
expected_flags continue_all idx rs = (false, none)

abbrev flags_of : BatchValidationResult → Bool × Option ℕ
flags_of b = (b.early_surrender, b.surrender_index)

finalize-surrendered :
    (policy : SurrenderPolicy) (idx first : ℕ) (inputs : List ProofInput)
    (accs : List ProofAccumulator)
    → flags_of (finalize policy idx inputs accs (true, some first)) ≡ (true, some first)
unfolding finalize
finalize-surrendered policy idx first [] accs = refl
finalize-surrendered policy idx first (input ∷ inputs) [] = refl
finalize-surrendered policy idx first (input ∷ inputs) (acc ∷ accs) =
    ap (λ flags. flags_of (finalize policy (suc idx) inputs accs flags)) (keeps policy valid)
    ∙ finalize-surrendered policy (suc idx) first inputs accs
  where
    valid : Bool
    valid =
        (result_of idx input (shabal256_lite acc.xor_result input.generation_signature)).is_valid

    keeps :
        (q : SurrenderPolicy) (v : Bool) → flagged q idx v (true, some first) ≡ (true, some first)
    keeps stop_on_first true = refl
    keeps stop_on_first false = refl
    keeps continue_all v = refl

finalize-flags :
    (policy : SurrenderPolicy) (idx : ℕ) (inputs : List ProofInput) (accs : List ProofAccumulator)
    → flags_of (finalize policy idx inputs accs (false, none))
      ≡ expected_flags policy idx (finalize policy idx inputs accs (false, none)).results
unfolding finalize
finalize-flags stop_on_first idx [] accs = refl
finalize-flags continue_all idx [] accs = refl
finalize-flags stop_on_first idx (input ∷ inputs) [] = refl
finalize-flags continue_all idx (input ∷ inputs) [] = refl
finalize-flags continue_all idx (input ∷ inputs) (acc ∷ accs) =
    finalize-flags continue_all (suc idx) inputs accs
finalize-flags stop_on_first idx (input ∷ inputs) (acc ∷ accs) = elim (Bool-cases valid) [
  | inl e ↦ rw e (finalize-flags stop_on_first (suc idx) inputs accs)
  | inr e ↦ rw e (finalize-surrendered stop_on_first (suc idx) idx inputs accs)
]
  where
    valid : Bool
    valid =
        (result_of idx input (shabal256_lite acc.xor_result input.generation_signature)).is_valid

-- A batch whose expansion does not panic is validated, in any order of its units. Under `stop_on_first`
-- it surrenders exactly if a result is invalid, and names the first that is; under `continue_all` it never
-- does.
pub validate_proofs-flags :
    (inputs : List ProofInput) (policy : SurrenderPolicy) (units order : List WorkUnit)
    → expand 0 inputs [] ≡ some units
    → (batch : BatchValidationResult) × (validate_proofs inputs policy order ≡ some batch)
      × ((batch.early_surrender, batch.surrender_index) ≡ expected_flags policy 0 batch.results)
unfolding validated
validate_proofs-flags inputs policy units order e = (
  validated inputs policy order,
  validate_proofs-validated inputs policy units order e,
  finalize-flags policy 0 inputs _,
)

-- A single proof has a result, on any number of threads: the verdict on the quality that
-- `calculate_quality_from_height` returns for it, for a payload of 20 bytes, a seed and a generation
-- signature of 32, and a compression of at most 55.
pub validate_proof-result :
    (hw_threads : ℕ) (input : ProofInput) (order : List WorkUnit)
    → IsProof input
    → input.compression ≤ 55
    → IsOrder hw_threads (all_units 0 (input ∷ [])) order
    → (quality : ℕ) × (calculate_quality_from_height input.address_payload input.seed input.nonce
          input.compression input.block_height input.generation_signature
        ≡ ok quality)
      × (validate_proof input order ≡ some (result_of 0 input quality))
unfolding validate_proof
validate_proof-result hw input order p few is =
    let (expanded, batch, valid, results) =
      validate_proofs-AreResults hw (input ∷ []) continue_all order (p, tt)
        (omega (arith, pow-le-pow_right {n = 2} (omega arith) {i = input.compression} {j = 55} few))
        is in
    let (quality, e, head) = one results in
    (quality, e, ap (λ r. r >>= λ b. head_result b.results) valid ∙ head)
  where
    one :
        {rs : List ValidationResult}
        → AreResults 0 (input ∷ []) rs
        → (quality : ℕ) × (calculate_quality_from_height input.address_payload input.seed
              input.nonce input.compression input.block_height input.generation_signature
            ≡ ok quality)
          × (head_result rs ≡ some (result_of 0 input quality))
    one (one_result quality e rest) = (quality, e, refl)
