-- ===== src/Shabal.antt =====
-- pocx_hashlib/src/shabal256.rs: the parts of the Shabal256 round function. Arrays of `u32` are lists
-- of numbers below 2^32, and what a function does to a `&mut` array is its result.
pub mod Hash
pub mod Schedule
pub mod Sizes
pub mod Digest
pub mod Cut
pub mod Lite
mod Tests
use pocx.Base.{
  ℕ, ◌-◌, List, [], ◌∷◌, map, get_or, set, bit_and, bit_or, bit_xor, wrapping_add, wrapping_sub,
  wrapping_mul, wrapping_shl, wrapping_shr, not32, ◌==◌, if◌then◌else◌,
}

abbrev pub a_init : List ℕ
a_init =
    0x52F84552 ∷ 0xE54B7999 ∷ 0x2D8EE3EC ∷ 0xB9645191 ∷ 0xE0078B86 ∷ 0xBB7C44C9 ∷ 0xD2B5C1CA
    ∷ 0xB0D2EB8C ∷ 0x14CE5A45 ∷ 0x22AF50DC ∷ 0xEFFDBC6B ∷ 0xEB21B74A ∷ []

abbrev pub b_init : List ℕ
b_init =
    0xB555C6EE ∷ 0x3E710596 ∷ 0xA72A652F ∷ 0x9301515F ∷ 0xDA28C1FA ∷ 0x696FD868 ∷ 0x9CB6BF72
    ∷ 0x0AFE4002 ∷ 0xA6E03615 ∷ 0x5138C1D4 ∷ 0xBE216306 ∷ 0xB38B8890 ∷ 0x3EA8B96B ∷ 0x3299ACE4
    ∷ 0x30924DD4 ∷ 0x55CB34A5 ∷ []

abbrev pub c_init : List ℕ
c_init =
    0xB405F031 ∷ 0xC4233EBA ∷ 0xB3733979 ∷ 0xC0DD9D55 ∷ 0xC51C28AE ∷ 0xA327B8E1 ∷ 0x56C56167
    ∷ 0xED614433 ∷ 0x88B59D60 ∷ 0x60E2CEBA ∷ 0x758B4B8B ∷ 0x83E82A7F ∷ 0xBC968828 ∷ 0xE6E00BF7
    ∷ 0xBA839E55 ∷ 0x9B491C60 ∷ []

-- An array access; every index that is used is in range.
abbrev pub at : List ℕ → ℕ → ℕ
at xs i = get_or xs i 0

-- The two arrays that the permutation writes.
pub record Pair : Type 0 where
  pub a : List ℕ
  pub b : List ℕ

infixl 1 ◌|>◌
abbrev ◌|>◌ {ℓ κ} : {A : Type ℓ} {B : Type κ} → A → (A → B) → B
x |> f = f x

-- The loop runs over the shorter of the two.
pub input_block_add : List ℕ → List ℕ → List ℕ
input_block_add [] ws = []
input_block_add (x ∷ xs) [] = x ∷ xs
input_block_add (x ∷ xs) (w ∷ ws) = wrapping_add x w ∷ input_block_add xs ws

pub input_block_sub : List ℕ → List ℕ → List ℕ
input_block_sub [] ws = []
input_block_sub (x ∷ xs) [] = x ∷ xs
input_block_sub (x ∷ xs) (w ∷ ws) = wrapping_sub x w ∷ input_block_sub xs ws

-- `b[i] = b[i].wrapping_add(x)`, and with `wrapping_sub`.
add_at : ℕ → ℕ → List ℕ → List ℕ
add_at i x b = set b i (wrapping_add (at b i) x)

sub_at : ℕ → ℕ → List ℕ → List ℕ
sub_at i x b = set b i (wrapping_sub (at b i) x)

pub input_block_add_dl : List ℕ → List ℕ → List ℕ → List ℕ
unfolding add_at
input_block_add_dl b data_a data_b =
    b
    |> add_at 0 (at data_a 0)
    |> add_at 1 (at data_a 1)
    |> add_at 2 (at data_a 2)
    |> add_at 3 (at data_a 3)
    |> add_at 4 (at data_a 4)
    |> add_at 5 (at data_a 5)
    |> add_at 6 (at data_a 6)
    |> add_at 7 (at data_a 7)
    |> add_at 8 (at data_b 0)
    |> add_at 9 (at data_b 1)
    |> add_at 10 (at data_b 2)
    |> add_at 11 (at data_b 3)
    |> add_at 12 (at data_b 4)
    |> add_at 13 (at data_b 5)
    |> add_at 14 (at data_b 6)
    |> add_at 15 (at data_b 7)

pub input_block_sub_dl : List ℕ → List ℕ → List ℕ → List ℕ
unfolding sub_at
input_block_sub_dl b data_a data_b =
    b
    |> sub_at 0 (at data_a 0)
    |> sub_at 1 (at data_a 1)
    |> sub_at 2 (at data_a 2)
    |> sub_at 3 (at data_a 3)
    |> sub_at 4 (at data_a 4)
    |> sub_at 5 (at data_a 5)
    |> sub_at 6 (at data_a 6)
    |> sub_at 7 (at data_a 7)
    |> sub_at 8 (at data_b 0)
    |> sub_at 9 (at data_b 1)
    |> sub_at 10 (at data_b 2)
    |> sub_at 11 (at data_b 3)
    |> sub_at 12 (at data_b 4)
    |> sub_at 13 (at data_b 5)
    |> sub_at 14 (at data_b 6)
    |> sub_at 15 (at data_b 7)

pub xor_w : List ℕ → ℕ → ℕ → List ℕ
xor_w a w_low w_high =
    set (set a 0 (bit_xor (at a 0) w_low)) 1
      (bit_xor (at (set a 0 (bit_xor (at a 0) w_low)) 1) w_high)

abbrev rotate_left : ℕ → ℕ → ℕ
rotate_left k x = bit_or (wrapping_shl x k) (wrapping_shr x (32 - k))

-- The new value of `a[xa0]`.
mix_a : Pair → ℕ → ℕ → ℕ → ℕ → ℕ → ℕ → ℕ → ℕ
mix_a s xa0 xa1 xb1 xb2 xb3 xc xm =
    bit_xor
      (bit_xor
        (bit_xor
          (wrapping_mul
            (bit_xor (bit_xor (at s.a xa0) (wrapping_mul (rotate_left 15 (at s.a xa1)) 5)) xc) 3)
          (at s.b xb1))
        (bit_and (at s.b xb2) (not32 (at s.b xb3))))
      xm

pub perm_elt : ℕ → ℕ → ℕ → ℕ → ℕ → ℕ → ℕ → ℕ → Pair → Pair
unfolding mix_a
perm_elt xa0 xa1 xb0 xb1 xb2 xb3 xc xm s =
    let a0 = mix_a s xa0 xa1 xb1 xb2 xb3 xc xm in
    let a' = set s.a xa0 a0 in
    record { a = a'; b = set s.b xb0 (not32 (bit_xor (rotate_left 1 (at s.b xb0)) (at a' xa0))) }

pub perm : List ℕ → List ℕ → Pair → Pair
perm c block s =
    s
    |> perm_elt 0 11 0 13 9 6 (at c 8) (at block 0)
    |> perm_elt 1 0 1 14 10 7 (at c 7) (at block 1)
    |> perm_elt 2 1 2 15 11 8 (at c 6) (at block 2)
    |> perm_elt 3 2 3 0 12 9 (at c 5) (at block 3)
    |> perm_elt 4 3 4 1 13 10 (at c 4) (at block 4)
    |> perm_elt 5 4 5 2 14 11 (at c 3) (at block 5)
    |> perm_elt 6 5 6 3 15 12 (at c 2) (at block 6)
    |> perm_elt 7 6 7 4 0 13 (at c 1) (at block 7)
    |> perm_elt 8 7 8 5 1 14 (at c 0) (at block 8)
    |> perm_elt 9 8 9 6 2 15 (at c 15) (at block 9)
    |> perm_elt 10 9 10 7 3 0 (at c 14) (at block 10)
    |> perm_elt 11 10 11 8 4 1 (at c 13) (at block 11)
    |> perm_elt 0 11 12 9 5 2 (at c 12) (at block 12)
    |> perm_elt 1 0 13 10 6 3 (at c 11) (at block 13)
    |> perm_elt 2 1 14 11 7 4 (at c 10) (at block 14)
    |> perm_elt 3 2 15 12 8 5 (at c 9) (at block 15)
    |> perm_elt 4 3 0 13 9 6 (at c 8) (at block 0)
    |> perm_elt 5 4 1 14 10 7 (at c 7) (at block 1)
    |> perm_elt 6 5 2 15 11 8 (at c 6) (at block 2)
    |> perm_elt 7 6 3 0 12 9 (at c 5) (at block 3)
    |> perm_elt 8 7 4 1 13 10 (at c 4) (at block 4)
    |> perm_elt 9 8 5 2 14 11 (at c 3) (at block 5)
    |> perm_elt 10 9 6 3 15 12 (at c 2) (at block 6)
    |> perm_elt 11 10 7 4 0 13 (at c 1) (at block 7)
    |> perm_elt 0 11 8 5 1 14 (at c 0) (at block 8)
    |> perm_elt 1 0 9 6 2 15 (at c 15) (at block 9)
    |> perm_elt 2 1 10 7 3 0 (at c 14) (at block 10)
    |> perm_elt 3 2 11 8 4 1 (at c 13) (at block 11)
    |> perm_elt 4 3 12 9 5 2 (at c 12) (at block 12)
    |> perm_elt 5 4 13 10 6 3 (at c 11) (at block 13)
    |> perm_elt 6 5 14 11 7 4 (at c 10) (at block 14)
    |> perm_elt 7 6 15 12 8 5 (at c 9) (at block 15)
    |> perm_elt 8 7 0 13 9 6 (at c 8) (at block 0)
    |> perm_elt 9 8 1 14 10 7 (at c 7) (at block 1)
    |> perm_elt 10 9 2 15 11 8 (at c 6) (at block 2)
    |> perm_elt 11 10 3 0 12 9 (at c 5) (at block 3)
    |> perm_elt 0 11 4 1 13 10 (at c 4) (at block 4)
    |> perm_elt 1 0 5 2 14 11 (at c 3) (at block 5)
    |> perm_elt 2 1 6 3 15 12 (at c 2) (at block 6)
    |> perm_elt 3 2 7 4 0 13 (at c 1) (at block 7)
    |> perm_elt 4 3 8 5 1 14 (at c 0) (at block 8)
    |> perm_elt 5 4 9 6 2 15 (at c 15) (at block 9)
    |> perm_elt 6 5 10 7 3 0 (at c 14) (at block 10)
    |> perm_elt 7 6 11 8 4 1 (at c 13) (at block 11)
    |> perm_elt 8 7 12 9 5 2 (at c 12) (at block 12)
    |> perm_elt 9 8 13 10 6 3 (at c 11) (at block 13)
    |> perm_elt 10 9 14 11 7 4 (at c 10) (at block 14)
    |> perm_elt 11 10 15 12 8 5 (at c 9) (at block 15)

pub perm_dl : List ℕ → List ℕ → List ℕ → Pair → Pair
perm_dl c data_a data_b s =
    s
    |> perm_elt 0 11 0 13 9 6 (at c 8) (at data_a 0)
    |> perm_elt 1 0 1 14 10 7 (at c 7) (at data_a 1)
    |> perm_elt 2 1 2 15 11 8 (at c 6) (at data_a 2)
    |> perm_elt 3 2 3 0 12 9 (at c 5) (at data_a 3)
    |> perm_elt 4 3 4 1 13 10 (at c 4) (at data_a 4)
    |> perm_elt 5 4 5 2 14 11 (at c 3) (at data_a 5)
    |> perm_elt 6 5 6 3 15 12 (at c 2) (at data_a 6)
    |> perm_elt 7 6 7 4 0 13 (at c 1) (at data_a 7)
    |> perm_elt 8 7 8 5 1 14 (at c 0) (at data_b 0)
    |> perm_elt 9 8 9 6 2 15 (at c 15) (at data_b 1)
    |> perm_elt 10 9 10 7 3 0 (at c 14) (at data_b 2)
    |> perm_elt 11 10 11 8 4 1 (at c 13) (at data_b 3)
    |> perm_elt 0 11 12 9 5 2 (at c 12) (at data_b 4)
    |> perm_elt 1 0 13 10 6 3 (at c 11) (at data_b 5)
    |> perm_elt 2 1 14 11 7 4 (at c 10) (at data_b 6)
    |> perm_elt 3 2 15 12 8 5 (at c 9) (at data_b 7)
    |> perm_elt 4 3 0 13 9 6 (at c 8) (at data_a 0)
    |> perm_elt 5 4 1 14 10 7 (at c 7) (at data_a 1)
    |> perm_elt 6 5 2 15 11 8 (at c 6) (at data_a 2)
    |> perm_elt 7 6 3 0 12 9 (at c 5) (at data_a 3)
    |> perm_elt 8 7 4 1 13 10 (at c 4) (at data_a 4)
    |> perm_elt 9 8 5 2 14 11 (at c 3) (at data_a 5)
    |> perm_elt 10 9 6 3 15 12 (at c 2) (at data_a 6)
    |> perm_elt 11 10 7 4 0 13 (at c 1) (at data_a 7)
    |> perm_elt 0 11 8 5 1 14 (at c 0) (at data_b 0)
    |> perm_elt 1 0 9 6 2 15 (at c 15) (at data_b 1)
    |> perm_elt 2 1 10 7 3 0 (at c 14) (at data_b 2)
    |> perm_elt 3 2 11 8 4 1 (at c 13) (at data_b 3)
    |> perm_elt 4 3 12 9 5 2 (at c 12) (at data_b 4)
    |> perm_elt 5 4 13 10 6 3 (at c 11) (at data_b 5)
    |> perm_elt 6 5 14 11 7 4 (at c 10) (at data_b 6)
    |> perm_elt 7 6 15 12 8 5 (at c 9) (at data_b 7)
    |> perm_elt 8 7 0 13 9 6 (at c 8) (at data_a 0)
    |> perm_elt 9 8 1 14 10 7 (at c 7) (at data_a 1)
    |> perm_elt 10 9 2 15 11 8 (at c 6) (at data_a 2)
    |> perm_elt 11 10 3 0 12 9 (at c 5) (at data_a 3)
    |> perm_elt 0 11 4 1 13 10 (at c 4) (at data_a 4)
    |> perm_elt 1 0 5 2 14 11 (at c 3) (at data_a 5)
    |> perm_elt 2 1 6 3 15 12 (at c 2) (at data_a 6)
    |> perm_elt 3 2 7 4 0 13 (at c 1) (at data_a 7)
    |> perm_elt 4 3 8 5 1 14 (at c 0) (at data_b 0)
    |> perm_elt 5 4 9 6 2 15 (at c 15) (at data_b 1)
    |> perm_elt 6 5 10 7 3 0 (at c 14) (at data_b 2)
    |> perm_elt 7 6 11 8 4 1 (at c 13) (at data_b 3)
    |> perm_elt 8 7 12 9 5 2 (at c 12) (at data_b 4)
    |> perm_elt 9 8 13 10 6 3 (at c 11) (at data_b 5)
    |> perm_elt 10 9 14 11 7 4 (at c 10) (at data_b 6)
    |> perm_elt 11 10 15 12 8 5 (at c 9) (at data_b 7)

-- `a[i] = a[i].wrapping_add(x).wrapping_add(y).wrapping_add(z)`.
pub add_c : ℕ → ℕ → ℕ → ℕ → Pair → Pair
add_c i x y z s = record s {
  a = set s.a i (wrapping_add (wrapping_add (wrapping_add (at s.a i) x) y) z);
}

-- The rotation of `b` before the permutation.
pub rotate_b : Pair → Pair
rotate_b s = record s { b = map (rotate_left 17) s.b }

-- The additions of `c` after it.
pub add_all_c : List ℕ → Pair → Pair
add_all_c c s =
    s
    |> add_c 0 (at c 11) (at c 15) (at c 3)
    |> add_c 1 (at c 12) (at c 0) (at c 4)
    |> add_c 2 (at c 13) (at c 1) (at c 5)
    |> add_c 3 (at c 14) (at c 2) (at c 6)
    |> add_c 4 (at c 15) (at c 3) (at c 7)
    |> add_c 5 (at c 0) (at c 4) (at c 8)
    |> add_c 6 (at c 1) (at c 5) (at c 9)
    |> add_c 7 (at c 2) (at c 6) (at c 10)
    |> add_c 8 (at c 3) (at c 7) (at c 11)
    |> add_c 9 (at c 4) (at c 8) (at c 12)
    |> add_c 10 (at c 5) (at c 9) (at c 13)
    |> add_c 11 (at c 6) (at c 10) (at c 14)

pub apply_p : List ℕ → List ℕ → Pair → Pair
apply_p c block s = add_all_c c (perm c block (rotate_b s))

pub apply_p_dl : List ℕ → List ℕ → List ℕ → Pair → Pair
apply_p_dl c data_a data_b s = add_all_c c (perm_dl c data_a data_b (rotate_b s))

-- The variables of the two hash functions.
pub record State : Type 0 where
  pub a : List ℕ
  pub b : List ℕ
  pub c : List ℕ
  pub w_low : ℕ
  pub w_high : ℕ

abbrev pub initial : State
initial = record { a = a_init; b = b_init; c = c_init; w_low = 1; w_high = 0 }

-- `apply_p(&mut a, &mut b, &c, ..)` on the variables of the caller.
abbrev pub permuted : State → (Pair → Pair) → State
permuted s f = let p = f (record { a = s.a; b = s.b }) in record s { a = p.a; b = p.b }

abbrev pub xored : State → State
xored s = record s { a = xor_w s.a s.w_low s.w_high }

abbrev pub swap_bc : State → State
swap_bc s = record s { b = s.c; c = s.b }

pub incr_w : State → State
incr_w s =
    let low = wrapping_add s.w_low 1 in
    record s { w_low = low; w_high = if low == 0 then wrapping_add s.w_high 1 else s.w_high }
