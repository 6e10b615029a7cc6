-- ===== src/Shabal/Hash.antt =====
-- pocx_hashlib/src/shabal256.rs: `shabal256` and `shabal256_lite`.
use pocx.Base.{
  ℕ, zero, suc, ◌+◌, ◌*◌, ◌/◌, ◌^◌, List, ◌∷◌, Option, none, some, length, take, drop, replicate,
  words_of, bytes_of,
}
use pocx.Shabal.{
  State, at, initial, permuted, xored, swap_bc, incr_w, apply_p, apply_p_dl, input_block_add,
  input_block_sub, input_block_add_dl, input_block_sub_dl,
}

-- `input_block_add`, `xor_w` and `apply_p`, which every block begins with.
unfoldable pub enter : List ℕ → State → State
enter block s =
    let s1 = xored (record s { b = input_block_add s.b block }) in permuted s1 (apply_p s1.c block)

-- One block of the message.
unfoldable pub absorb_block : List ℕ → State → State
absorb_block block s =
    let s1 = enter block s in incr_w (swap_bc (record s1 { c = input_block_sub s1.c block }))

-- `while num > 0`, on the words that are left.
unfoldable pub absorb : ℕ → List ℕ → State → State
absorb zero ws s = s
absorb (suc num) ws s = absorb num (drop 16 ws) (absorb_block ws s)

-- One of the rounds after the last block.
unfoldable pub final_round : List ℕ → State → State
final_round term s = let s1 = xored (swap_bc s) in permuted s1 (apply_p s1.c term)

unfoldable pub finish : List ℕ → State → State
finish term s = final_round term (final_round term (final_round term (enter term s)))

unfoldable pub absorb_pre_term : Option (List ℕ) → State → State
absorb_pre_term none s = s
absorb_pre_term (some pre_term) s = absorb_block pre_term s

-- The state after the last round; the digest is its words `b[8..16]`.
unfoldable pub shabal256_state : List ℕ → Option (List ℕ) → List ℕ → State
shabal256_state bytes pre_term term =
    finish term (absorb_pre_term pre_term (absorb (length bytes / 64) (words_of bytes) initial))

unfoldable pub shabal256 : List ℕ → Option (List ℕ) → List ℕ → List ℕ
shabal256 bytes pre_term term = bytes_of (take 8 (drop 8 (shabal256_state bytes pre_term term).b))

-- `enter` on a block in two halves.
unfoldable pub enter_dl : List ℕ → List ℕ → State → State
enter_dl data_a data_b s =
    let s1 = xored (record s { b = input_block_add_dl s.b data_a data_b }) in
    permuted s1 (apply_p_dl s1.c data_a data_b)

unfoldable pub absorb_dl : List ℕ → List ℕ → State → State
absorb_dl data_a data_b s =
    let s1 = enter_dl data_a data_b s in
    incr_w (swap_bc (record s1 { c = input_block_sub_dl s1.c data_a data_b }))

unfoldable pub final_round_dl : List ℕ → List ℕ → State → State
final_round_dl data_a data_b s =
    let s1 = xored (swap_bc s) in permuted s1 (apply_p_dl s1.c data_a data_b)

unfoldable pub finish_dl : List ℕ → List ℕ → State → State
finish_dl data_a data_b s =
    final_round_dl data_a data_b
      (final_round_dl data_a data_b (final_round_dl data_a data_b (enter_dl data_a data_b s)))

-- `term` of `shabal256_lite`: the padding after 96 bytes.
abbrev pub lite_term : List ℕ
lite_term = 0x80 ∷ replicate 7 0

unfoldable pub shabal256_lite_state : List ℕ → List ℕ → State
shabal256_lite_state bytes gensig =
    let ws = words_of bytes in
    finish_dl (drop 8 ws) lite_term (absorb_dl (words_of gensig) (take 8 ws) initial)

-- The words `b[8]` and `b[9]` as one `u64`.
unfoldable pub shabal256_lite : List ℕ → List ℕ → ℕ
shabal256_lite bytes gensig =
    let s = shabal256_lite_state bytes gensig in at s.b 8 + at s.b 9 * 2 ^ 32
