-- ===== src/Base/Words.antt =====
-- Machine words as native numbers: `u32` arithmetic with its wrap-around, and the bytes of a word in
-- the order of a little-endian machine, on which the source reinterprets byte arrays as words.
use Prim.Native.Nat.{ℕ, zero, suc, ◌+◌, ◌-◌, ◌*◌, ◌/◌, ◌%◌, ◌^◌, ◌<◌}
use mathlib.Core.Path.{◌≡◌, refl, ap, ap₂}
use mathlib.Core.List.{List, [], ◌∷◌, ◌++◌}
use native.Mathlib.Omega.{arith}
use pocx.Base.Lists.{length, take, drop, replicate, get_or}

abbrev pub u32_mod : ℕ
u32_mod = 2 ^ 32

abbrev pub u64_mod : ℕ
u64_mod = 2 ^ 64

abbrev pub u64_max : ℕ
u64_max = 2 ^ 64 - 1

abbrev pub wrapping_add : ℕ → ℕ → ℕ
wrapping_add a b = (a + b) % u32_mod

abbrev pub wrapping_sub : ℕ → ℕ → ℕ
wrapping_sub a b = (a + u32_mod - b) % u32_mod

abbrev pub wrapping_mul : ℕ → ℕ → ℕ
wrapping_mul a b = a * b % u32_mod

abbrev pub wrapping_shl : ℕ → ℕ → ℕ
wrapping_shl a k = a * 2 ^ k % u32_mod

abbrev pub wrapping_shr : ℕ → ℕ → ℕ
wrapping_shr a k = a / 2 ^ k

-- `!x` of a `u32`.
abbrev pub not32 : ℕ → ℕ
not32 x = u32_mod - 1 - x

abbrev pub word_of : ℕ → ℕ → ℕ → ℕ → ℕ
word_of b0 b1 b2 b3 = b0 + b1 * 2 ^ 8 + b2 * 2 ^ 16 + b3 * 2 ^ 24

-- The words of a byte array; bytes after the last whole word are left out.
abbrev pub words_of : List ℕ → List ℕ
words_of (b0 ∷ b1 ∷ b2 ∷ b3 ∷ rest) = word_of b0 b1 b2 b3 ∷ words_of rest
words_of rest = []

abbrev pub bytes_of_word : ℕ → List ℕ
bytes_of_word w = w % 256 ∷ w / 2 ^ 8 % 256 ∷ w / 2 ^ 16 % 256 ∷ w / 2 ^ 24 % 256 ∷ []

abbrev pub bytes_of : List ℕ → List ℕ
bytes_of [] = []
bytes_of (w ∷ ws) = w % 256 ∷ w / 2 ^ 8 % 256 ∷ w / 2 ^ 16 % 256 ∷ w / 2 ^ 24 % 256 ∷ bytes_of ws

-- All entries are below a bound.
abbrev pub Below : ℕ → List ℕ → Type 0
Below n [] = Unit {0}
Below n (x ∷ xs) = (x < n) × Below n xs

pub words_of-bytes_of : (ws : List ℕ) → Below u32_mod ws → words_of (bytes_of ws) ≡ ws
words_of-bytes_of [] h = refl
words_of-bytes_of (w ∷ ws) h = ap₂ ◌∷◌ (omega arith) (words_of-bytes_of ws h.1)

pub length-bytes_of : (ws : List ℕ) → length (bytes_of ws) ≡ 4 * length ws
length-bytes_of [] = omega arith
length-bytes_of (w ∷ ws) = omega (arith, length-bytes_of ws)

pub bytes_of-Below : (ws : List ℕ) → Below 256 (bytes_of ws)
bytes_of-Below [] = tt
bytes_of-Below (w ∷ ws) =
    (omega arith, (omega arith, (omega arith, (omega arith, bytes_of-Below ws))))

-- An array of whole words is converted on its own, whatever follows it.
pub words_of-append :
    (k : ℕ) (xs ys : List ℕ) → length xs ≡ 4 * k → words_of (xs ++ ys) ≡ words_of xs ++ words_of ys
words_of-append k [] ys h = refl
words_of-append k (x0 ∷ []) ys h = absurd (omega arith)
words_of-append k (x0 ∷ x1 ∷ []) ys h = absurd (omega arith)
words_of-append k (x0 ∷ x1 ∷ x2 ∷ []) ys h = absurd (omega arith)
words_of-append zero (x0 ∷ x1 ∷ x2 ∷ x3 ∷ xs) ys h = absurd (omega arith)
words_of-append (suc k) (x0 ∷ x1 ∷ x2 ∷ x3 ∷ xs) ys h =
    ap₂ ◌∷◌ refl (words_of-append k xs ys (omega arith))

pub length-words_of : (k : ℕ) (xs : List ℕ) → length xs ≡ 4 * k → length (words_of xs) ≡ k
length-words_of k [] h = omega arith
length-words_of k (x0 ∷ []) h = absurd (omega arith)
length-words_of k (x0 ∷ x1 ∷ []) h = absurd (omega arith)
length-words_of k (x0 ∷ x1 ∷ x2 ∷ []) h = absurd (omega arith)
length-words_of zero (x0 ∷ x1 ∷ x2 ∷ x3 ∷ xs) h = absurd (omega arith)
length-words_of (suc k) (x0 ∷ x1 ∷ x2 ∷ x3 ∷ xs) h =
    omega (arith, length-words_of k xs (omega arith))

pub words_of-Below :
    (k : ℕ) (xs : List ℕ) → Below 256 xs → length xs ≡ 4 * k → Below u32_mod (words_of xs)
words_of-Below k [] b h = tt
words_of-Below k (x0 ∷ []) b h = absurd (omega arith)
words_of-Below k (x0 ∷ x1 ∷ []) b h = absurd (omega arith)
words_of-Below k (x0 ∷ x1 ∷ x2 ∷ []) b h = absurd (omega arith)
words_of-Below zero (x0 ∷ x1 ∷ x2 ∷ x3 ∷ xs) b h = absurd (omega arith)
words_of-Below (suc k) (x0 ∷ x1 ∷ x2 ∷ x3 ∷ xs) b h =
    (omega arith, words_of-Below k xs b.1.1.1.1 (omega arith))

pub Below-append : (n : ℕ) (xs ys : List ℕ) → Below n xs → Below n ys → Below n (xs ++ ys)
Below-append n [] ys p q = q
Below-append n (x ∷ xs) ys p q = (p.0, Below-append n xs ys p.1 q)

pub take-Below : (n k : ℕ) (xs : List ℕ) → Below n xs → Below n (take k xs)
take-Below n zero xs h = tt
take-Below n (suc k) [] h = tt
take-Below n (suc k) (x ∷ xs) h = (h.0, take-Below n k xs h.1)

pub drop-Below : (n k : ℕ) (xs : List ℕ) → Below n xs → Below n (drop k xs)
drop-Below n zero xs h = h
drop-Below n (suc k) [] h = tt
drop-Below n (suc k) (x ∷ xs) h = drop-Below n k xs h.1

pub bytes_of-append : (xs ys : List ℕ) → bytes_of (xs ++ ys) ≡ bytes_of xs ++ bytes_of ys
bytes_of-append [] ys = refl
bytes_of-append (x ∷ xs) ys =
    ap (λ r. x % 256 ∷ x / 2 ^ 8 % 256 ∷ x / 2 ^ 16 % 256 ∷ x / 2 ^ 24 % 256 ∷ r)
      (bytes_of-append xs ys)

pub bytes_of-words_of :
    (k : ℕ) (xs : List ℕ) → length xs ≡ 4 * k → Below 256 xs → bytes_of (words_of xs) ≡ xs
bytes_of-words_of k [] h b = refl
bytes_of-words_of k (x0 ∷ []) h b = absurd (omega arith)
bytes_of-words_of k (x0 ∷ x1 ∷ []) h b = absurd (omega arith)
bytes_of-words_of k (x0 ∷ x1 ∷ x2 ∷ []) h b = absurd (omega arith)
bytes_of-words_of zero (x0 ∷ x1 ∷ x2 ∷ x3 ∷ xs) h b = absurd (omega arith)
bytes_of-words_of (suc k) (x0 ∷ x1 ∷ x2 ∷ x3 ∷ xs) h b =
    λ d. p0 d ∷ p1 d ∷ p2 d ∷ p3 d ∷ bytes_of-words_of k xs (omega arith) b.1.1.1.1 d
  where
    p0 : word_of x0 x1 x2 x3 % 256 ≡ x0
    p0 = omega arith

    p1 : word_of x0 x1 x2 x3 / 2 ^ 8 % 256 ≡ x1
    p1 = omega arith

    p2 : word_of x0 x1 x2 x3 / 2 ^ 16 % 256 ≡ x2
    p2 = omega arith

    p3 : word_of x0 x1 x2 x3 / 2 ^ 24 % 256 ≡ x3
    p3 = omega arith

pub replicate-Below : (n k : ℕ) {v : ℕ} → v < n → Below n (replicate k v)
replicate-Below n zero h = tt
replicate-Below n (suc k) h = (h, replicate-Below n k h)

pub get_or-Below : (n : ℕ) (xs : List ℕ) (i : ℕ) → 0 < n → Below n xs → get_or xs i 0 < n
get_or-Below n [] i h b = h
get_or-Below n (x ∷ xs) zero h b = b.0
get_or-Below n (x ∷ xs) (suc i) h b = get_or-Below n xs i h b.1

pub Below-get_or :
    (n : ℕ) (xs : List ℕ) → ((i : ℕ) → i < length xs → get_or xs i 0 < n) → Below n xs
Below-get_or n [] h = tt
Below-get_or n (x ∷ xs) h = (h 0 (omega arith), Below-get_or n xs (λ i lt. h (suc i) (omega arith)))
