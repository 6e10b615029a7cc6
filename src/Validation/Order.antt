-- ===== src/Validation/Order.antt =====
-- The order of accumulation does not matter.
use pocx.Base.{
  ℕ, zero, suc, ◌+◌, ◌-◌, ◌≤◌, ◌<◌, ◌≡◌, ◌∙◌, refl, ap, ap₂, List, [], ◌∷◌, append-nil, length,
  bit_xor-swap, run, flatten, flatten-chunks, run-Interleaves, Bool-cases, inl, inr, leb, leb→gt,
  arith,
}
use native.Mathlib.Nat.{le-div_iff_mul-le}
use pocx.Quality.{xor_bytes}
use pocx.Validation.{
  WorkUnit, ProofAccumulator, update_at, add_scoop, accumulate_scoop, process_single_scalar,
  process_work_range, div_ceil, num_threads, work_chunks, IsOrder,
}

pub xor_bytes-swap :
    (xs ys zs : List ℕ) → xor_bytes (xor_bytes xs ys) zs ≡ xor_bytes (xor_bytes xs zs) ys
unfolding xor_bytes
xor_bytes-swap [] ys zs = refl
xor_bytes-swap (x ∷ xs) [] [] = refl
xor_bytes-swap (x ∷ xs) [] (z ∷ zs) = refl
xor_bytes-swap (x ∷ xs) (y ∷ ys) [] = refl
xor_bytes-swap (x ∷ xs) (y ∷ ys) (z ∷ zs) = ap₂ ◌∷◌ (bit_xor-swap x y z) (xor_bytes-swap xs ys zs)

add_scoop-swap :
    (xs ys : List ℕ) (acc : ProofAccumulator)
    → add_scoop xs (add_scoop ys acc) ≡ add_scoop ys (add_scoop xs acc)
add_scoop-swap xs ys acc =
    ap (λ r. record acc { xor_result = r; units_completed = suc (suc acc.units_completed) })
      (xor_bytes-swap acc.xor_result ys xs)

update_at-swap {ℓ} :
    {A : Type ℓ} (f g : A → A)
    → ((x : A) → f (g x) ≡ g (f x))
    → (i j : ℕ) (xs : List A) → update_at i f (update_at j g xs) ≡ update_at j g (update_at i f xs)
update_at-swap f g swap i j [] = refl
update_at-swap f g swap zero zero (x ∷ xs) = ap (λ y. y ∷ xs) (swap x)
update_at-swap f g swap zero (suc j) (x ∷ xs) = refl
update_at-swap f g swap (suc i) zero (x ∷ xs) = refl
update_at-swap f g swap (suc i) (suc j) (x ∷ xs) = ap (◌∷◌ x) (update_at-swap f g swap i j xs)

process_single_scalar-swap :
    (u v : WorkUnit) (accs : List ProofAccumulator)
    → process_single_scalar u (process_single_scalar v accs)
      ≡ process_single_scalar v (process_single_scalar u accs)
unfolding process_single_scalar accumulate_scoop
process_single_scalar-swap u v accs =
    update_at-swap _ _ (add_scoop-swap _ _) u.proof_index v.proof_index accs

div_ceil-pos : (n k : ℕ) → 0 < k → k ≤ n → 0 < div_ceil n k
div_ceil-pos n k pos le = (le-div_iff_mul-le {k = k} {x = 1} {y = n + (k - 1)} pos).1 (omega arith)

flatten-work_chunks :
    (hw_threads : ℕ) (units : List WorkUnit) → flatten (work_chunks hw_threads units) ≡ units
unfolding work_chunks num_threads
flatten-work_chunks hw units = elim (Bool-cases (leb (num_threads hw (length units)) 1)) [
  | inl e ↦ rw e (append-nil units)
  | inr e ↦ rw e (
      flatten-chunks (length units) _ units
        (div_ceil-pos (length units) (num_threads hw (length units)) (omega (arith, leb→gt _ _ e))
          (omega arith))
        (omega arith))
]

-- A run in any order that the threads can take ends with the accumulators of a run over the units one
-- after the other.
pub process_work_range-order :
    (hw_threads : ℕ) (units order : List WorkUnit)
    → IsOrder hw_threads units order
    → (accs : List ProofAccumulator) → process_work_range order accs ≡ process_work_range units accs
unfolding process_work_range
process_work_range-order hw units order is accs =
    run-Interleaves process_single_scalar process_single_scalar-swap is accs
    ∙ ap (λ us. run process_single_scalar us accs) (flatten-work_chunks hw units)
