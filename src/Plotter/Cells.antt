-- ===== src/Plotter/Cells.antt =====
-- The places of bytes in a buffer, and writing one.
use pocx.Base.{
  ℕ, zero, suc, ◌*◌, ◌<◌, ◌≡◌, ◌≢◌, refl, ap, List, [], ◌∷◌, length, get_or, set, arith,
}
use native.Mathlib.Nat.{mul-le-mul}
use pocx.Nonce.Layout.{product_unique}
use pocx.Plotter.{dim, warp_size, cell}

pub get_or-set : (xs : List ℕ) (i v : ℕ) → i < length xs → get_or (set xs i v) i 0 ≡ v
get_or-set [] i v h = absurd (omega arith)
get_or-set (x ∷ xs) zero v h = refl
get_or-set (x ∷ xs) (suc i) v h = get_or-set xs i v (omega arith)

pub get_or-set_other : (xs : List ℕ) (i j v : ℕ) → i ≢ j → get_or (set xs i v) j 0 ≡ get_or xs j 0
get_or-set_other [] i j v h = refl
get_or-set_other (x ∷ xs) zero zero v h = absurd (h refl)
get_or-set_other (x ∷ xs) zero (suc j) v h = refl
get_or-set_other (x ∷ xs) (suc i) zero v h = refl
get_or-set_other (x ∷ xs) (suc i) (suc j) v h = get_or-set_other xs i j v (λ e. h (ap suc e))

-- Two cells of a buffer at the same place are the same cell.
pub cell_unique :
    (warps y n z y' n' z' : ℕ)
    → n < warps * dim
    → n' < warps * dim
    → z < 64
    → z' < 64
    → cell warps y n z ≡ cell warps y' n' z'
    → (y ≡ y') × (n ≡ n') × (z ≡ z')
cell_unique warps y n z y' n' z' hn hn' hz hz' e =
    let low : z ≡ z' = omega arith in
    let rows : (y ≡ y') × (n ≡ n') = product_unique y y' n n' (warps * dim) hn hn' (omega arith) in
    (rows.0, rows.1, low)

-- A buffer of `warps` warps has the cell.
pub cell-lt :
    (warps y n z : ℕ) → y < dim → n < warps * dim → z < 64 → cell warps y n z < warps * warp_size
cell-lt warps y n z hy hn hz =
    omega
      (arith, mul-le-mul {n₁ = y} {m₁ = warps} {n₂ = 4095} {m₂ = warps} (omega arith) (omega arith))
