-- ===== src/Nonce/Layout.antt =====
-- Where the two functions put the bytes of a nonce.
use pocx.Base.{
  ℕ, ◌+◌, ◌-◌, ◌*◌, ◌/◌, ◌%◌, ◌≤◌, ◌<◌, ◌≡◌, ◌⊎◌, inl, inr, refl, ◌∙◌, ap, List, length, get_or,
  slice, bit_and, bit_and-one, arith, length-splice, get_or-splice_in, get_or-splice_before,
  get_or-splice_after, get_or-take, get_or-drop, length-slice, drop, if◌then◌else◌, ◌==◌, le→ltb,
}
use native.Mathlib.Nat.{mul-le-mul_right}
use native.Mathlib.Decide.{ℕ_discrete, dec_lt}
use pocx.Nonce.{copy_word, data_offset, buffer_offset, scatter_word, nonce_size}

abbrev pub byte : List ℕ → ℕ → ℕ
byte xs i = get_or xs i 0

pub get_or-slice : (xs : List ℕ) (i j r : ℕ) → r < j - i → byte (slice xs i j) r ≡ byte xs (i + r)
get_or-slice xs i j r h = get_or-take 0 (j - i) r (drop i xs) h ∙ get_or-drop 0 i r (i + r) xs refl

module _ (source : List ℕ) (so : ℕ) (target : List ℕ) (to : ℕ)
    (fits_source : so + 4 ≤ length source) (fits : to + 4 ≤ length target) where
  pub length-copy_word : length (copy_word source so target to) ≡ length target
  unfolding copy_word
  length-copy_word =
      length-splice 0 target to (slice source so (so + 4))
        (omega (arith, length-slice source so (so + 4) fits_source))

  pub copy_word-in :
      (r : ℕ) → r < 4 → byte (copy_word source so target to) (to + r) ≡ byte source (so + r)
  unfolding copy_word
  copy_word-in r h =
      get_or-splice_in 0 target to _ r (to + r)
        (omega (arith, length-slice source so (so + 4) fits_source))
        (omega (arith, length-slice source so (so + 4) fits_source)) refl
      ∙ get_or-slice source so (so + 4) r (omega arith)

  pub copy_word-out :
      (p : ℕ) → (p < to) ⊎ (to + 4 ≤ p) → byte (copy_word source so target to) p ≡ byte target p
  unfolding copy_word
  copy_word-out p (inl h) = get_or-splice_before 0 target to _ p (omega arith) h
  copy_word-out p (inr h) =
      get_or-splice_after 0 target to _ p (omega arith)
        (omega (arith, length-slice source so (so + 4) fits_source))

-- The scoop that hash `i` of a nonce belongs to.
abbrev pub row : ℕ → ℕ
row i = if (i % 2) == 0 then i / 2 else 4095 - i / 2

mod_two : (n : ℕ) → (n % 2 ≡ 0) ⊎ (n % 2 ≡ 1)
mod_two n = ground arith

pub data_offset-row :
    (ts to i j k : ℕ)
    → data_offset ts to i j k ≡ 64 * (row i * ts) + 64 * (k + to) + 32 * (i % 2) + j
data_offset-row ts to i j k = elim (mod_two i) [
  | inl e ↦
      let low : bit_and i 1 ≡ 0 = omega (arith, bit_and-one i) in
      let high : bit_and (i + 1) 1 ≡ 1 = omega (arith, bit_and-one (i + 1)) in
      rw (low, high, e) (omega arith)
  | inr e ↦
      let low : bit_and i 1 ≡ 1 = omega (arith, bit_and-one i) in
      let high : bit_and (i + 1) 1 ≡ 0 = omega (arith, bit_and-one (i + 1)) in
      rw (low, high, e) (omega arith)
]

product-lt : (a a' k k' ts : ℕ) → k < ts → a < a' → a * ts + k < a' * ts + k'
product-lt a a' k k' ts h p = omega (arith, mul-le-mul_right ts p)

pub product_unique :
    (a a' k k' ts : ℕ) → k < ts → k' < ts → a * ts + k ≡ a' * ts + k' → (a ≡ a') × (k ≡ k')
product_unique a a' k k' ts h h' e = elim (ℕ_discrete a a') [
  | yes p ↦ (p, omega (arith, ap (λ n. n * ts) p))
  | no ne ↦ elim (dec_lt a a') [
    | yes p ↦ absurd (omega (arith, product-lt a a' k k' ts h p))
    | no np ↦ absurd (omega (arith, product-lt a' a k' k ts h' (omega arith)))
  ]
]

row_unique : (i i' : ℕ) → i < 8192 → i' < 8192 → i % 2 ≡ i' % 2 → row i ≡ row i' → i ≡ i'
row_unique i i' h h' e p = ground arith

-- Two words that overlap in the target are the same word of the same lane.
pub data_offset_unique :
    (ts to i j k i' j' k' r r' : ℕ)
    → i < 8192
    → i' < 8192
    → j < 8
    → j' < 8
    → r < 4
    → r' < 4
    → k + to < ts
    → k' + to < ts
    → data_offset ts to i (j * 4) k + r ≡ data_offset ts to i' (j' * 4) k' + r'
    → (i ≡ i') × (j ≡ j') × (k ≡ k') × (r ≡ r')
data_offset_unique ts to i j k i' j' k' r r' hi hi' hj hj' hr hr' hk hk' e = (
  row_unique i i' hi hi' (omega (arith, low)) rows.0,
  omega (arith, low),
  omega (arith, rows.1),
  omega (arith, low),
)
  where
    rows : (row i ≡ row i') × (k + to ≡ k' + to)
    rows =
        product_unique (row i) (row i') (k + to) (k' + to) ts hk hk'
          (omega (arith, data_offset-row ts to i (j * 4) k, data_offset-row ts to i' (j' * 4) k'))

    low : 32 * (i % 2) + j * 4 + r ≡ 32 * (i' % 2) + j' * 4 + r'
    low = omega (arith, data_offset-row ts to i (j * 4) k, data_offset-row ts to i' (j' * 4) k')

row-le : (i : ℕ) → i < 8192 → row i ≤ 4095
row-le i h = ground arith

-- The buffers of a call: `source` holds the nonces of `vs` lanes, `target` has room for `ts`
-- nonces, of which the call fills those from `to` on.
pub record Fits (source : List ℕ) (size ts to vs : ℕ) : Type 0 where
  pub lanes : length source ≡ vs * nonce_size
  pub room : ts * nonce_size ≤ size
  pub inside : to + vs ≤ ts

module _ (source : List ℕ) (size ts to vs : ℕ) (f : Fits source size ts to vs) where
  pub word-fits :
      (i j k : ℕ)
      → i < 8192
      → j < 8
      → k < vs
      → (buffer_offset vs i (j * 4) k + 4 ≤ length source)
        × (data_offset ts to i (j * 4) k + 4 ≤ size)
  word-fits i j k hi hj hk = (
    omega (arith, f.lanes, mul-le-mul_right {m = i * 32 + j * 4} {n = 262140} vs (omega arith)),
    omega (
      arith,
      f.room,
      f.inside,
      data_offset-row ts to i (j * 4) k,
      mul-le-mul_right ts (row-le i hi),
    ),
  )

  module _ (t : List ℕ) (len : length t ≡ size) (i j k : ℕ) (hi : i < 8192) (hj : j < 8)
      (hk : k < vs) where
    scatter_word-copy :
        scatter_word source ts to vs i (j * 4) k t
        ≡ copy_word source (buffer_offset vs i (j * 4) k) t (data_offset ts to i (j * 4) k)
    unfolding scatter_word
    scatter_word-copy = rw (
      le→ltb (length t) (data_offset ts to i (j * 4) k + 4)
          (omega (arith, word-fits i j k hi hj hk)),
      le→ltb (length source) (buffer_offset vs i (j * 4) k + 4) (word-fits i j k hi hj hk).0,
    )

    pub length-scatter_word : length (scatter_word source ts to vs i (j * 4) k t) ≡ size
    length-scatter_word =
        ap length scatter_word-copy
        ∙ length-copy_word source _ t _ (word-fits i j k hi hj hk).0
            (omega (arith, word-fits i j k hi hj hk))
        ∙ len

    pub scatter_word-in :
        (r : ℕ)
        → r < 4
        → byte (scatter_word source ts to vs i (j * 4) k t) (data_offset ts to i (j * 4) k + r)
          ≡ byte source (buffer_offset vs i (j * 4) k + r)
    scatter_word-in r h =
        ap (λ xs. byte xs (data_offset ts to i (j * 4) k + r)) scatter_word-copy
        ∙ copy_word-in source _ t _ (word-fits i j k hi hj hk).0
            (omega (arith, word-fits i j k hi hj hk)) r h

    pub scatter_word-out :
        (p : ℕ)
        → (p < data_offset ts to i (j * 4) k) ⊎ (data_offset ts to i (j * 4) k + 4 ≤ p)
        → byte (scatter_word source ts to vs i (j * 4) k t) p ≡ byte t p
    scatter_word-out p h =
        ap (λ xs. byte xs p) scatter_word-copy
        ∙ copy_word-out source _ t _ (word-fits i j k hi hj hk).0
            (omega (arith, word-fits i j k hi hj hk)) p h
