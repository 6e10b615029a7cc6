-- ===== src/Quality/Xor.antt =====
-- The exclusive or of blocks: its laws, and a fold that is taken from its end.
use pocx.Base.{
  ℕ, zero, suc, ◌+◌, ◌≡◌, refl, ◌∙◌, ap, ap₂, sym, List, [], ◌∷◌, length, get_or, replicate,
  bit_xor, bit_xor-swap, arith,
}
use Prim.Native.Nat.{bit_xor-bitwise}
use pocx.Quality.{xor_bytes}
use pocx.Quality.Scoop.{xor_blocks, length-xor_bytes}

pub get_or-xor_bytes :
    (xs ys : List ℕ) (i : ℕ)
    → length xs ≡ length ys
    → get_or (xor_bytes xs ys) i 0 ≡ bit_xor (get_or xs i 0) (get_or ys i 0)
unfolding xor_bytes
get_or-xor_bytes [] [] i h = refl
get_or-xor_bytes [] (y ∷ ys) i h = absurd (omega arith)
get_or-xor_bytes (x ∷ xs) [] i h = absurd (omega arith)
get_or-xor_bytes (x ∷ xs) (y ∷ ys) zero h = refl
get_or-xor_bytes (x ∷ xs) (y ∷ ys) (suc i) h = get_or-xor_bytes xs ys i (omega arith)

bit_xor_zero : (b : ℕ) → bit_xor 0 b ≡ b
bit_xor_zero b = simp bit_xor-bitwise refl

bit_xor_comm : (a b : ℕ) → bit_xor a b ≡ bit_xor b a
bit_xor_comm a b =
    ap (λ x. bit_xor x b) (sym (bit_xor_zero a))
    ∙ bit_xor-swap 0 a b
    ∙ ap (λ x. bit_xor x a) (bit_xor_zero b)

bit_xor_assoc : (a b c : ℕ) → bit_xor (bit_xor a b) c ≡ bit_xor a (bit_xor b c)
bit_xor_assoc a b c =
    ap (λ x. bit_xor x c) (bit_xor_comm a b) ∙ bit_xor-swap b a c ∙ bit_xor_comm (bit_xor b c) a

pub xor_bytes_zero : (n : ℕ) (ys : List ℕ) → length ys ≡ n → xor_bytes (replicate n 0) ys ≡ ys
unfolding xor_bytes
xor_bytes_zero zero [] h = refl
xor_bytes_zero zero (y ∷ ys) h = absurd (omega arith)
xor_bytes_zero (suc n) [] h = absurd (omega arith)
xor_bytes_zero (suc n) (y ∷ ys) h = ap₂ ◌∷◌ (bit_xor_zero y) (xor_bytes_zero n ys (omega arith))

pub xor_bytes_assoc :
    (xs ys zs : List ℕ)
    → length xs ≡ length ys
    → xor_bytes (xor_bytes xs ys) zs ≡ xor_bytes xs (xor_bytes ys zs)
unfolding xor_bytes
xor_bytes_assoc [] ys zs h = refl
xor_bytes_assoc (x ∷ xs) [] zs h = absurd (omega arith)
xor_bytes_assoc (x ∷ xs) (y ∷ ys) [] h = refl
xor_bytes_assoc (x ∷ xs) (y ∷ ys) (z ∷ zs) h =
    ap₂ ◌∷◌ (bit_xor_assoc x y z) (xor_bytes_assoc xs ys zs (omega arith))

-- The last block is added last.
pub xor_blocks-suc :
    (f : ℕ → List ℕ) (n i j : ℕ) (acc : List ℕ)
    → j ≡ i + n
    → xor_blocks f (suc n) i acc ≡ xor_bytes (xor_blocks f n i acc) (f j)
unfolding xor_blocks
xor_blocks-suc f zero i j acc e = ap (λ k. xor_bytes acc (f k)) {x = i} {y = j} (omega arith)
xor_blocks-suc f (suc n) i j acc e =
    xor_blocks-suc f n (suc i) j (xor_bytes acc (f i)) (omega arith)

pub length-xor_blocks :
    (f : ℕ → List ℕ) (n i : ℕ) (acc : List ℕ) → length (xor_blocks f n i acc) ≡ length acc
unfolding xor_blocks
length-xor_blocks f zero i acc = refl
length-xor_blocks f (suc n) i acc =
    length-xor_blocks f n (suc i) (xor_bytes acc (f i)) ∙ length-xor_bytes acc (f i)
