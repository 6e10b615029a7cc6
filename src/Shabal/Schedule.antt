-- ===== src/Shabal/Schedule.antt =====
-- The unrolled calls of `perm_elt` and the additions of `c`, against the index formulas of Shabal.
use pocx.Base.{ℕ, zero, suc, ◌+◌, ◌-◌, ◌%◌, ◌≡◌, refl, List, ◌++◌, tabulate}
use pocx.Shabal.{Pair, at, perm, perm_dl, perm_elt, add_all_c, add_c}

-- `n` steps from number `i` on.
abbrev pub steps {ℓ} : {S : Type ℓ} → (ℕ → S → S) → ℕ → ℕ → S → S
steps f zero i s = s
steps f (suc n) i s = steps f n (suc i) (f i s)

-- Step `j` of the permutation, of 48.
abbrev pub perm_step : List ℕ → List ℕ → ℕ → Pair → Pair
perm_step c block j =
    perm_elt (j % 12) ((j + 11) % 12) (j % 16) ((j + 13) % 16) ((j + 9) % 16) ((j + 6) % 16)
      (at c ((56 - j) % 16)) (at block (j % 16))

-- Addition `i` of `c` into `a`, of 12.
abbrev pub add_step : List ℕ → ℕ → Pair → Pair
add_step c i = add_c i (at c ((i + 11) % 16)) (at c ((i + 15) % 16)) (at c ((i + 3) % 16))

pub perm-steps : (c block : List ℕ) (s : Pair) → perm c block s ≡ steps (perm_step c block) 48 0 s
unfolding perm
perm-steps c block s = refl

pub add_all_c-steps : (c : List ℕ) (s : Pair) → add_all_c c s ≡ steps (add_step c) 12 0 s
unfolding add_all_c
add_all_c-steps c s = refl

pub perm_dl-perm :
    (f : ℕ → ℕ) (c data_b : List ℕ) (s : Pair)
    → perm_dl c (tabulate 8 f) data_b s ≡ perm c (tabulate 8 f ++ data_b) s
unfolding perm perm_dl
perm_dl-perm f c data_b s = refl
