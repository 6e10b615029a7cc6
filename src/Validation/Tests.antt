-- ===== src/Validation/Tests.antt =====
-- The theorems about batches at concrete inputs: two units, which two threads take in either order.
use pocx.Base.{
  ℕ, ◌≡◌, refl, List, [], ◌∷◌, some, replicate, replicate-Below, arith, here, there, next, finished,
}
use pocx.Quality.{ok, calculate_quality_from_height, calculate_scoop}
use pocx.Validation.{
  ProofInput, WorkUnit, BatchValidationResult, stop_on_first, IsOrder, work_unit, work_chunks,
  num_threads, validate_proofs, validate_proof, result_of, process_work_range, expand,
  new_accumulators,
}
use pocx.Validation.Order.{process_work_range-order}
use pocx.Validation.Sequence.{IsProof, all_units, expand-all_units}
use pocx.Validation.Outcome.{
  AreResults, expected_flags, validate_proofs-AreResults, validate_proofs-flags,
  validate_proof-result,
}

abbrev input : ProofInput
input = record {
  address_payload = replicate 20 1;
  seed = replicate 32 2;
  nonce = 5000;
  compression = 1;
  block_height = 7;
  generation_signature = replicate 32 3;
  base_target = 1000;
  claimed_quality = some 9;
}

input-IsProof : IsProof input
input-IsProof = record {
  len_payload = refl;
  len_seed = refl;
  len_signature = refl;
  b_payload = replicate-Below 256 20 (omega arith);
  b_seed = replicate-Below 256 32 (omega arith);
  b_signature = replicate-Below 256 32 (omega arith);
  small = omega arith;
}

unit : ℕ → WorkUnit
unit i = work_unit 0 input (calculate_scoop 7 (replicate 32 3)) 2 i

-- The second thread is first.
abbrev order : List WorkUnit
order = unit 1 ∷ unit 0 ∷ []

order-IsOrder : IsOrder 3 (all_units 0 (input ∷ [])) order
unfolding work_chunks num_threads unit
order-IsOrder = next (there here) (next here (finished refl))

validate_proofs-AreResults_example :
    (expand 0 (input ∷ []) [] ≡ some (all_units 0 (input ∷ [])))
    × (batch : BatchValidationResult) × (validate_proofs (input ∷ []) stop_on_first order
        ≡ some batch)
    × AreResults 0 (input ∷ []) batch.results
validate_proofs-AreResults_example =
    validate_proofs-AreResults 3 (input ∷ []) stop_on_first order (input-IsProof, tt) (omega arith)
      order-IsOrder

process_work_range-order_example :
    process_work_range order (new_accumulators (input ∷ []))
    ≡ process_work_range (all_units 0 (input ∷ [])) (new_accumulators (input ∷ []))
process_work_range-order_example =
    process_work_range-order 3 (all_units 0 (input ∷ [])) order order-IsOrder
      (new_accumulators (input ∷ []))

validate_proofs-flags_example :
    (batch : BatchValidationResult) × (validate_proofs (input ∷ []) stop_on_first order
      ≡ some batch)
    × ((batch.early_surrender, batch.surrender_index)
        ≡ expected_flags stop_on_first 0 batch.results)
validate_proofs-flags_example =
    validate_proofs-flags (input ∷ []) stop_on_first (all_units 0 (input ∷ [])) order
      (expand-all_units (input ∷ []) (input-IsProof, tt) (omega arith))

validate_proof-result_example :
    (quality : ℕ) × (calculate_quality_from_height
        (replicate 20 1)
        (replicate 32 2)
        5000
        1
        7
        (replicate 32 3)
      ≡ ok quality)
    × (validate_proof input order ≡ some (result_of 0 input quality))
validate_proof-result_example =
    validate_proof-result 3 input order input-IsProof (omega arith) order-IsOrder
