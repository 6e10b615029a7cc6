-- ===== src/Validation/Sequence.antt =====
-- The accumulators after all work units, one proof after the other.
use pocx.Base.{
  ℕ, zero, suc, ◌+◌, ◌%◌, ◌^◌, ◌<◌, ◌≡◌, ◌∙◌, refl, ap, ap₂, sym, List, [], ◌∷◌, ◌++◌, append_assoc,
  append-nil, ◌*◌, ◌≤◌, some, true, le→leb, ◌-◌, length, length-append, run, run-append, replicate,
  Below, arith,
}
use native.Mathlib.Nat.{pow-le-pow_right}
use pocx.Nonce.{scoop_size}
use pocx.Nonce.Cache.{generate_and_extract_scoop_32-nonce_scoop}
use pocx.Quality.{calculate_scoop, pow2}
use pocx.Quality.Scoop.{xor_blocks, contribution, compressed_scoop}
use pocx.Validation.{
  ProofInput, WorkUnit, ProofAccumulator, ◌>>=◌, has_capacity, extend, update_at, add_scoop,
  accumulate_scoop, process_single_scalar, process_work_range, expand, units_from, work_unit,
  expand_work_units, num_uncompressed, new_accumulator, new_accumulators,
}

-- What the types of a `ProofInput` guarantee, and a compression below 64.
pub record IsProof (input : ProofInput) : Type 0 where
  pub len_payload : length input.address_payload ≡ 20
  pub len_seed : length input.seed ≡ 32
  pub len_signature : length input.generation_signature ≡ 32
  pub b_payload : Below 256 input.address_payload
  pub b_seed : Below 256 input.seed
  pub b_signature : Below 256 input.generation_signature
  pub small : input.compression < 64

abbrev pub AllProofs : List ProofInput → Type 0
AllProofs [] = Unit {0}
AllProofs (input ∷ inputs) = IsProof input × AllProofs inputs

update_at-append {ℓ} :
    {A : Type ℓ} (pre : List A) (i : ℕ) (f : A → A) (x : A) (rest : List A)
    → length pre ≡ i
    → update_at i f (pre ++ x ∷ rest) ≡ pre ++ f x ∷ rest
update_at-append [] zero f x rest h = refl
update_at-append [] (suc i) f x rest h = absurd (omega arith)
update_at-append (y ∷ pre) zero f x rest h = absurd (omega arith)
update_at-append (y ∷ pre) (suc i) f x rest h =
    ap (◌∷◌ y) (update_at-append pre i f x rest (omega arith))

module _ (input : ProofInput) (p : IsProof input) (scoop : ℕ) where
  blocks : ℕ → ℕ → List ℕ
  blocks count = contribution input.address_payload input.seed scoop input.nonce count

  -- An accumulator after `n` more units of its proof.
  abbrev completed : ℕ → ℕ → ℕ → ProofAccumulator → ProofAccumulator
  completed count n i acc = record acc {
    xor_result = xor_blocks (blocks count) n i acc.xor_result;
    units_completed = n + acc.units_completed;
  }

  process_single_scalar-blocks :
      (idx count i : ℕ) (pre rest : List ProofAccumulator) (acc : ProofAccumulator)
      → length pre ≡ idx
      → process_single_scalar (work_unit idx input scoop count i) (pre ++ acc ∷ rest)
        ≡ pre ++ add_scoop (blocks count i) acc ∷ rest
  unfolding process_single_scalar accumulate_scoop blocks
  process_single_scalar-blocks idx count i pre rest acc h =
      update_at-append pre idx _ acc rest h
      ∙ ap (λ s. pre ++ add_scoop s acc ∷ rest)
          (generate_and_extract_scoop_32-nonce_scoop input.address_payload input.seed p.len_payload
            p.len_seed p.b_payload p.b_seed _ _)

  run-units_from :
      (idx count n i : ℕ) (pre rest : List ProofAccumulator) (acc : ProofAccumulator)
      → length pre ≡ idx
      → run process_single_scalar (units_from idx input scoop count n i) (pre ++ acc ∷ rest)
        ≡ pre ++ completed count n i acc ∷ rest
  unfolding xor_blocks
  run-units_from idx count zero i pre rest acc h =
      ap (λ k. pre ++ record acc { units_completed = k } ∷ rest) {x = acc.units_completed}
        {y = 0 + acc.units_completed} (omega arith)
  run-units_from idx count (suc n) i pre rest acc h =
      ap (run process_single_scalar (units_from idx input scoop count n (suc i)))
        (process_single_scalar-blocks idx count i pre rest acc h)
      ∙ run-units_from idx count n (suc i) pre rest (add_scoop (blocks count i) acc) h
      ∙ ap
          (λ k.
            pre
            ++ record acc {
              xor_result = xor_blocks (blocks count) (suc n) i acc.xor_result;
              units_completed = k;
            }
              ∷ rest)
          {x = n + suc acc.units_completed} {y = suc n + acc.units_completed} (omega arith)

-- The scoop of a proof.
abbrev pub proof_scoop : ProofInput → List ℕ
proof_scoop input =
    compressed_scoop input.address_payload input.seed
      (calculate_scoop input.block_height input.generation_signature) input.nonce input.compression

-- The accumulator of a proof all of whose units are completed.
abbrev pub full_accumulator : ProofInput → ProofAccumulator
full_accumulator input = record {
  xor_result = proof_scoop input;
  units_completed = num_uncompressed input.compression;
  units_expected = num_uncompressed input.compression;
}

abbrev pub full_accumulators : List ProofInput → List ProofAccumulator
full_accumulators [] = []
full_accumulators (input ∷ inputs) = full_accumulator input ∷ full_accumulators inputs

num_uncompressed-pow2 : (c : ℕ) → c < 64 → num_uncompressed c ≡ pow2 c
num_uncompressed-pow2 c h =
    ap (λ k. 2 ^ k) {x = c % 64} {y = c} (omega arith)
    ∙ omega (arith, pow-le-pow_right {n = 2} (omega arith) {i = c} {j = 63} (omega arith))

-- The units of one proof, and those of all proofs, one proof after the other.
abbrev pub proof_units : ℕ → ProofInput → List WorkUnit
proof_units idx input =
    units_from idx input (calculate_scoop input.block_height input.generation_signature)
      (num_uncompressed input.compression) (num_uncompressed input.compression) 0

abbrev pub all_units : ℕ → List ProofInput → List WorkUnit
all_units idx [] = []
all_units idx (input ∷ inputs) = proof_units idx input ++ all_units (suc idx) inputs

-- How many nonces a batch stands for.
abbrev pub total_units : List ProofInput → ℕ
total_units [] = 0
total_units (input ∷ inputs) = 2 ^ input.compression + total_units inputs

num_uncompressed-pow : (c : ℕ) → c < 64 → num_uncompressed c ≡ 2 ^ c
num_uncompressed-pow c h = ap (λ k. 2 ^ k) {x = c % 64} {y = c} (omega arith)

length-units_from :
    (idx : ℕ) (input : ProofInput) (scoop count n i : ℕ)
    → length (units_from idx input scoop count n i) ≡ n
length-units_from idx input scoop count zero i = refl
length-units_from idx input scoop count (suc n) i =
    ap suc (length-units_from idx input scoop count n (suc i))

-- Below 2^55 units no vector comes near its limit.
has_capacity-true : (n : ℕ) → n ≤ 2 ^ 55 → has_capacity n ≡ true
has_capacity-true n h = le→leb (n * 80) (2 ^ 63 - 1) (omega arith)

expand_work_units-proof_units :
    (idx : ℕ) (input : ProofInput)
    → num_uncompressed input.compression ≤ 2 ^ 55
    → expand_work_units idx input (calculate_scoop input.block_height input.generation_signature)
      ≡ some (proof_units idx input)
unfolding expand_work_units
expand_work_units-proof_units idx input h =
    rw (has_capacity-true (num_uncompressed input.compression) h) refl

extend-append :
    (xs ys : List WorkUnit) → length xs + length ys ≤ 2 ^ 55 → extend xs ys ≡ some (xs ++ ys)
unfolding extend
extend-append xs ys h = rw (has_capacity-true (length xs + length ys) h) refl

-- The expansion of a batch does not panic and gives the units of all its proofs.
expand-append :
    (inputs : List ProofInput)
    → AllProofs inputs
    → (idx : ℕ) (units : List WorkUnit) → length units + total_units inputs ≤ 2 ^ 55
    → expand idx inputs units ≡ some (units ++ all_units idx inputs)
unfolding expand
expand-append [] ps idx units h = ap some (sym (append-nil units))
expand-append (input ∷ inputs) ps idx units h =
    let same = num_uncompressed-pow input.compression (ps.0).small in
    let size =
      length-units_from idx input (calculate_scoop input.block_height input.generation_signature)
        (num_uncompressed input.compression) (num_uncompressed input.compression) 0 in
    ap (λ r. r >>= λ us. extend units us >>= λ extended. expand (suc idx) inputs extended)
      (expand_work_units-proof_units idx input (omega (arith, same)))
    ∙ ap (λ r. r >>= λ extended. expand (suc idx) inputs extended)
        (extend-append units (proof_units idx input) (omega (arith, same, size)))
    ∙ expand-append inputs ps.1 (suc idx) (units ++ proof_units idx input)
        (omega (arith, same, size, length-append units (proof_units idx input)))
    ∙ ap some (append_assoc units (proof_units idx input) (all_units (suc idx) inputs))

pub expand-all_units :
    (inputs : List ProofInput)
    → AllProofs inputs
    → total_units inputs ≤ 2 ^ 55
    → expand 0 inputs [] ≡ some (all_units 0 inputs)
expand-all_units inputs ps h = expand-append inputs ps 0 [] (omega arith)

run-proof_units :
    (input : ProofInput)
    → IsProof input
    → (idx : ℕ) (pre rest : List ProofAccumulator) → length pre ≡ idx
    → run process_single_scalar (proof_units idx input) (pre ++ new_accumulator input ∷ rest)
      ≡ pre ++ full_accumulator input ∷ rest
unfolding compressed_scoop blocks
run-proof_units input p idx pre rest h =
    run-units_from input p _ idx (num_uncompressed input.compression)
      (num_uncompressed input.compression) 0 pre rest (new_accumulator input) h
    ∙ ap₂
        (λ c k.
          pre
          ++ record {
            xor_result =
                xor_blocks
                  (contribution input.address_payload input.seed
                    (calculate_scoop input.block_height input.generation_signature) input.nonce c)
                  c 0 (replicate scoop_size 0);
            units_completed = k;
            units_expected = num_uncompressed input.compression;
          }
            ∷ rest)
        (num_uncompressed-pow2 input.compression p.small) (omega arith)

run-all_units :
    (inputs : List ProofInput)
    → AllProofs inputs
    → (idx : ℕ) (pre : List ProofAccumulator) → length pre ≡ idx
    → run process_single_scalar (all_units idx inputs) (pre ++ new_accumulators inputs)
      ≡ pre ++ full_accumulators inputs
run-all_units [] ps idx pre h = refl
run-all_units (input ∷ inputs) ps idx pre h =
    run-append process_single_scalar (proof_units idx input) (all_units (suc idx) inputs) _
    ∙ ap (run process_single_scalar (all_units (suc idx) inputs)) (
        run-proof_units input ps.0 idx pre (new_accumulators inputs) h
        ∙ sym (append_assoc pre (full_accumulator input ∷ []) (new_accumulators inputs)))
    ∙ run-all_units inputs ps.1 (suc idx) (pre ++ full_accumulator input ∷ [])
        (omega (arith, length-append pre (full_accumulator input ∷ [])))
    ∙ append_assoc pre (full_accumulator input ∷ []) (full_accumulators inputs)

-- One proof after the other, all units of all proofs fill each accumulator with the scoop of its proof.
pub process_work_range-full :
    (inputs : List ProofInput)
    → AllProofs inputs
    → process_work_range (all_units 0 inputs) (new_accumulators inputs) ≡ full_accumulators inputs
unfolding process_work_range
process_work_range-full inputs ps = run-all_units inputs ps 0 [] refl
