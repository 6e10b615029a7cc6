-- ===== src/Shabal/Sizes.antt =====
-- The sizes of the hash's arrays and the range of their words, through every step of a block.
use pocx.Base.{
  ℕ, zero, suc, ◌%◌, ◌<◌, ◌≡◌, refl, ◌∙◌, List, ◌∷◌, [], map, length, length-set, set, length-map,
  Below, drop-Below, u32_mod, arith, bit_xor, bit_and-lt, bit_or-lt, bit_xor-lt, not32, drop,
}
use pocx.Shabal.{
  Pair, State, at, initial, perm, perm_elt, mix_a, rotate_left, rotate_b, add_c, add_all_c, apply_p,
  xor_w, incr_w, input_block_add, input_block_sub,
}
use pocx.Shabal.Schedule.{steps, perm_step, add_step, perm-steps, add_all_c-steps}
use pocx.Shabal.Hash.{enter, absorb_block, absorb, final_round, finish}

-- `n` words of 32 bits.
abbrev pub Words : ℕ → List ℕ → Type 0
Words n xs = (length xs ≡ n) × Below u32_mod xs

pub record IsSized (s : Pair) : Type 0 where
  pub a_words : Words 12 s.a
  pub b_words : Words 16 s.b

pub record IsValid (s : State) : Type 0 where
  pub a_words : Words 12 s.a
  pub b_words : Words 16 s.b
  pub c_words : Words 16 s.c
  pub low_word : s.w_low < u32_mod
  pub high_word : s.w_high < u32_mod

pub at-lt : (xs : List ℕ) (i : ℕ) → Below u32_mod xs → at xs i < u32_mod
at-lt [] i h = omega arith
at-lt (x ∷ xs) zero h = h.0
at-lt (x ∷ xs) (suc i) h = at-lt xs i h.1

set-Below : {n : ℕ} (xs : List ℕ) (i : ℕ) {v : ℕ} → Below n xs → v < n → Below n (set xs i v)
set-Below [] i h p = tt
set-Below (x ∷ xs) zero h p = (p, h.1)
set-Below (x ∷ xs) (suc i) h p = (h.0, set-Below xs i h.1 p)

set-Words : {n : ℕ} (xs : List ℕ) (i : ℕ) {v : ℕ} → Words n xs → v < u32_mod → Words n (set xs i v)
set-Words xs i w p = (length-set xs i _ ∙ w.0, set-Below xs i w.1 p)

rotate_left-lt : (k x : ℕ) → x < u32_mod → rotate_left k x < u32_mod
rotate_left-lt k x h = bit_or-lt 32 _ _ (omega arith) (omega arith)

pub input_block_add-Words : {n : ℕ} (b ws : List ℕ) → Words n b → Words n (input_block_add b ws)
unfolding input_block_add
input_block_add-Words [] ws w = w
input_block_add-Words (x ∷ b) [] w = w
input_block_add-Words {n} (x ∷ b) (y ∷ ws) w =
    let r = input_block_add-Words {n = length b} b ws (refl, w.1.1) in
    (omega (arith, r.0), (omega arith, r.1))

input_block_sub-Words : {n : ℕ} (b ws : List ℕ) → Words n b → Words n (input_block_sub b ws)
unfolding input_block_sub
input_block_sub-Words [] ws w = w
input_block_sub-Words (x ∷ b) [] w = w
input_block_sub-Words {n} (x ∷ b) (y ∷ ws) w =
    let r = input_block_sub-Words {n = length b} b ws (refl, w.1.1) in
    (omega (arith, r.0), (omega arith, r.1))

map-Below :
    (f : ℕ → ℕ)
    → ((x : ℕ) → x < u32_mod → f x < u32_mod)
    → (xs : List ℕ) → Below u32_mod xs
    → Below u32_mod (map f xs)
map-Below f p [] h = tt
map-Below f p (x ∷ xs) h = (p x h.0, map-Below f p xs h.1)

rotate_b-IsSized : {s : Pair} → IsSized s → IsSized (rotate_b s)
unfolding rotate_b
rotate_b-IsSized {s} v = record {
  a_words = v.a_words;
  b_words = (
    length-map s.b _ ∙ v.b_words.0,
    map-Below (rotate_left 17) (rotate_left-lt 17) s.b v.b_words.1,
  );
}

mix_a-lt :
    (s : Pair) (xa0 xa1 xb1 xb2 xb3 xc xm : ℕ)
    → IsSized s
    → xm < u32_mod
    → mix_a s xa0 xa1 xb1 xb2 xb3 xc xm < u32_mod
unfolding mix_a
mix_a-lt s xa0 xa1 xb1 xb2 xb3 xc xm v h =
    bit_xor-lt 32 _ _
      (bit_xor-lt 32 _ _ (bit_xor-lt 32 _ _ (omega arith) (at-lt s.b xb1 v.b_words.1))
        (bit_and-lt 32 _ _ (at-lt s.b xb2 v.b_words.1)))
      h

not32-lt : (x : ℕ) → not32 x < u32_mod
not32-lt x = omega arith

perm_elt-IsSized :
    (s : Pair) (xa0 xa1 xb0 xb1 xb2 xb3 xc xm : ℕ)
    → IsSized s
    → xm < u32_mod
    → IsSized (perm_elt xa0 xa1 xb0 xb1 xb2 xb3 xc xm s)
unfolding perm_elt
perm_elt-IsSized s xa0 xa1 xb0 xb1 xb2 xb3 xc xm v h = record {
  a_words = set-Words s.a xa0 v.a_words (mix_a-lt s xa0 xa1 xb1 xb2 xb3 xc xm v h);
  b_words = set-Words s.b xb0 v.b_words (not32-lt _);
}

add_c-IsSized : (i x y z : ℕ) (s : Pair) → IsSized s → IsSized (add_c i x y z s)
unfolding add_c
add_c-IsSized i x y z s v = record {
  a_words = set-Words s.a i v.a_words (omega arith);
  b_words = v.b_words;
}

perm-IsSized :
    (c block : List ℕ) (s : Pair) → Below u32_mod block → IsSized s → IsSized (perm c block s)
perm-IsSized c block s h v = rw perm-steps (go 48 0 s v)
  where
    go : (n i : ℕ) (t : Pair) → IsSized t → IsSized (steps (perm_step c block) n i t)
    go zero i t w = w
    go (suc n) i t w =
        go n (suc i) _ (perm_elt-IsSized t _ _ _ _ _ _ _ _ w (at-lt block (i % 16) h))

add_all_c-IsSized : (c : List ℕ) (s : Pair) → IsSized s → IsSized (add_all_c c s)
add_all_c-IsSized c s v = rw add_all_c-steps (go 12 0 s v)
  where
    go : (n i : ℕ) (t : Pair) → IsSized t → IsSized (steps (add_step c) n i t)
    go zero i t w = w
    go (suc n) i t w = go n (suc i) _ (add_c-IsSized i _ _ _ t w)

apply_p-IsSized :
    (c block : List ℕ) (s : Pair) → Below u32_mod block → IsSized s → IsSized (apply_p c block s)
unfolding apply_p
apply_p-IsSized c block s h v =
    add_all_c-IsSized c _ (perm-IsSized c block _ h (rotate_b-IsSized v))

xor_w-Words :
    (a : List ℕ) (low high : ℕ)
    → Words 12 a
    → low < u32_mod
    → high < u32_mod
    → Words 12 (xor_w a low high)
unfolding xor_w
xor_w-Words a low high w p q = set-Words _ 1 first (bit_xor-lt 32 _ _ (at-lt _ 1 first.1) q)
  where
    first : Words 12 (set a 0 (bit_xor (at a 0) low))
    first = set-Words a 0 w (bit_xor-lt 32 _ _ (at-lt a 0 w.1) p)

pub enter-IsValid :
    (block : List ℕ) {s : State} → Below u32_mod block → IsValid s → IsValid (enter block s)
unfolding enter
enter-IsValid block {s} h v =
    let r = apply_p-IsSized s.c block _ h (record {
      a_words = xor_w-Words s.a s.w_low s.w_high v.a_words v.low_word v.high_word;
      b_words = input_block_add-Words s.b block v.b_words;
    }) in
    record {
      a_words = r.a_words;
      b_words = r.b_words;
      c_words = v.c_words;
      low_word = v.low_word;
      high_word = v.high_word;
    }

incr_w-IsValid : {s : State} → IsValid s → IsValid (incr_w s)
unfolding incr_w
incr_w-IsValid {s} v = record {
  a_words = v.a_words;
  b_words = v.b_words;
  c_words = v.c_words;
  low_word = omega arith;
  high_word = ground (arith, v.high_word);
}

-- A block keeps the arrays at their sizes and every word below 2^32.
pub absorb_block-IsValid :
    (block : List ℕ) {s : State} → Below u32_mod block → IsValid s → IsValid (absorb_block block s)
unfolding absorb_block
absorb_block-IsValid block {s} h v =
    let e = enter-IsValid block h v in
    incr_w-IsValid (record {
      a_words = e.a_words;
      b_words = input_block_sub-Words _ block e.c_words;
      c_words = e.b_words;
      low_word = e.low_word;
      high_word = e.high_word;
    })

pub absorb-IsValid :
    (num : ℕ) (ws : List ℕ) {s : State} → Below u32_mod ws → IsValid s → IsValid (absorb num ws s)
unfolding absorb
absorb-IsValid zero ws h v = v
absorb-IsValid (suc num) ws h v =
    absorb-IsValid num (drop 16 ws) (drop-Below u32_mod 16 ws h) (absorb_block-IsValid ws h v)

final_round-IsValid :
    (term : List ℕ) {s : State} → Below u32_mod term → IsValid s → IsValid (final_round term s)
unfolding final_round
final_round-IsValid term {s} h v =
    let r = apply_p-IsSized s.b term _ h (record {
      a_words = xor_w-Words s.a s.w_low s.w_high v.a_words v.low_word v.high_word;
      b_words = v.c_words;
    }) in
    record {
      a_words = r.a_words;
      b_words = r.b_words;
      c_words = v.b_words;
      low_word = v.low_word;
      high_word = v.high_word;
    }

pub finish-IsValid :
    (term : List ℕ) {s : State} → Below u32_mod term → IsValid s → IsValid (finish term s)
unfolding finish
finish-IsValid term h v =
    final_round-IsValid term h
      (final_round-IsValid term h (final_round-IsValid term h (enter-IsValid term h v)))

pub initial-IsValid : IsValid initial
initial-IsValid = record {
  a_words = (refl, omega arith);
  b_words = (refl, omega arith);
  c_words = (refl, omega arith);
  low_word = omega arith;
  high_word = omega arith;
}
