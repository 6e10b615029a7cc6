-- ===== src/Shabal/Lite.antt =====
-- `shabal256_lite` against `shabal256`: the same hash of 96 bytes, of which it returns 8.
use pocx.Base.{
  ℕ, ◌+◌, ◌*◌, ◌/◌, ◌^◌, ◌≡◌, refl, ◌∙◌, ap, ap₂, sym, subst, subst₃, List, ◌++◌, none, length,
  length-append, Below, take-Below, drop-Below, Below-append, u32_mod, arith, words_of, bytes_of,
  words_of-append, words_of-bytes_of, words_of-Below, length-words_of, drop, take, tabulate-get_or,
  length-take, length-drop,
}
use pocx.Shabal.{
  State, Pair, initial, input_block_add, input_block_sub, apply_p, apply_p_dl, at,
  input_block_add_dl, input_block_sub_dl,
}
use pocx.Shabal.Hash.{
  enter, absorb_block, absorb, finish, final_round, absorb_pre_term, shabal256, shabal256_state,
  enter_dl, absorb_dl, final_round_dl, finish_dl, lite_term, shabal256_lite, shabal256_lite_state,
}
use pocx.Shabal.Schedule.{perm_dl-perm}
use pocx.Shabal.Sizes.{IsValid, absorb_block-IsValid, initial-IsValid}
use pocx.Shabal.Digest.{shabal256_state-IsValid}
use pocx.Shabal.Cut.{absorb-one}

input_block_add_dl-append :
    (b data_a data_b : List ℕ)
    → length b ≡ 16
    → length data_a ≡ 8
    → length data_b ≡ 8
    → input_block_add_dl b data_a data_b ≡ input_block_add b (data_a ++ data_b)
unfolding input_block_add input_block_add_dl
input_block_add_dl-append b data_a data_b hb ha h =
    subst₃ (λ x y z. input_block_add_dl x y z ≡ input_block_add x (y ++ z))
      (tabulate-get_or 16 b 0 hb) (tabulate-get_or 8 data_a 0 ha) (tabulate-get_or 8 data_b 0 h)
      refl

input_block_sub_dl-append :
    (b data_a data_b : List ℕ)
    → length b ≡ 16
    → length data_a ≡ 8
    → length data_b ≡ 8
    → input_block_sub_dl b data_a data_b ≡ input_block_sub b (data_a ++ data_b)
unfolding input_block_sub input_block_sub_dl
input_block_sub_dl-append b data_a data_b hb ha h =
    subst₃ (λ x y z. input_block_sub_dl x y z ≡ input_block_sub x (y ++ z))
      (tabulate-get_or 16 b 0 hb) (tabulate-get_or 8 data_a 0 ha) (tabulate-get_or 8 data_b 0 h)
      refl

apply_p_dl-append :
    (c data_a data_b : List ℕ) (s : Pair)
    → length data_a ≡ 8
    → apply_p_dl c data_a data_b s ≡ apply_p c (data_a ++ data_b) s
unfolding apply_p apply_p_dl
apply_p_dl-append c data_a data_b s h =
    subst (λ x. apply_p_dl c x data_b s ≡ apply_p c (x ++ data_b) s) (tabulate-get_or 8 data_a 0 h)
      (rw (perm_dl-perm (at data_a) c data_b))

enter_dl-append :
    (data_a data_b : List ℕ) (s : State)
    → length s.b ≡ 16
    → length data_a ≡ 8
    → length data_b ≡ 8
    → enter_dl data_a data_b s ≡ enter (data_a ++ data_b) s
unfolding enter enter_dl
enter_dl-append data_a data_b s hb ha h =
    rw (
      input_block_add_dl-append s.b data_a data_b hb ha h,
      apply_p_dl-append s.c data_a data_b _ ha,
    )

absorb_dl-append :
    (data_a data_b : List ℕ) (s : State)
    → length s.b ≡ 16
    → length s.c ≡ 16
    → length data_a ≡ 8
    → length data_b ≡ 8
    → absorb_dl data_a data_b s ≡ absorb_block (data_a ++ data_b) s
unfolding absorb_block absorb_dl
absorb_dl-append data_a data_b s hb hc ha h = rw (
  enter_dl-append data_a data_b s hb ha h,
  input_block_sub_dl-append (enter (data_a ++ data_b) s).c data_a data_b (unfold enter in hc) ha h,
)

final_round_dl-append :
    (data_a data_b : List ℕ) (s : State)
    → length data_a ≡ 8
    → final_round_dl data_a data_b s ≡ final_round (data_a ++ data_b) s
unfolding final_round final_round_dl
final_round_dl-append data_a data_b s ha = rw (apply_p_dl-append s.b data_a data_b _ ha)

finish_dl-append :
    (data_a data_b : List ℕ) (s : State)
    → length s.b ≡ 16
    → length data_a ≡ 8
    → length data_b ≡ 8
    → finish_dl data_a data_b s ≡ finish (data_a ++ data_b) s
unfolding finish finish_dl
finish_dl-append data_a data_b s hb ha h = rw (
  enter_dl-append data_a data_b s hb ha h,
  final_round_dl-append data_a data_b (enter (data_a ++ data_b) s) ha,
  final_round_dl-append data_a data_b (final_round (data_a ++ data_b) (enter (data_a ++ data_b) s))
      ha,
  final_round_dl-append data_a data_b
      (final_round (data_a ++ data_b) (final_round (data_a ++ data_b) (enter (data_a ++ data_b) s)))
      ha,
)

-- The two halves of a 64 byte array, as words.
take-words_of :
    (bytes : List ℕ) → length bytes ≡ 64 → take 8 (words_of bytes) ≡ words_of (take 32 bytes)
take-words_of bytes h =
    subst (λ bs. take 8 (words_of bs) ≡ words_of (take 32 bs)) (tabulate-get_or 64 bytes 0 h) refl

drop-words_of :
    (bytes : List ℕ) → length bytes ≡ 64 → drop 8 (words_of bytes) ≡ words_of (drop 32 bytes)
drop-words_of bytes h =
    subst (λ bs. drop 8 (words_of bs) ≡ words_of (drop 32 bs)) (tabulate-get_or 64 bytes 0 h) refl

module _ (bytes gensig : List ℕ) (len_bytes : length bytes ≡ 64)
    (len_gensig : length gensig ≡ 32) where
  -- The last block of the hash: the second half of the scoop, and the padding.
  abbrev last_block : List ℕ
  last_block = words_of (drop 32 bytes) ++ lite_term

  half-words : (length (words_of (take 32 bytes)) ≡ 8) × (length (words_of (drop 32 bytes)) ≡ 8)
  half-words = (
    length-words_of 8 (take 32 bytes) (omega (arith, length-take 32 bytes)),
    length-words_of 8 (drop 32 bytes) (omega (arith, length-drop 32 bytes)),
  )

  words-message : words_of (gensig ++ take 32 bytes) ≡ words_of gensig ++ words_of (take 32 bytes)
  words-message = words_of-append 8 gensig (take 32 bytes) len_gensig

  -- Both functions end in the same state.
  lite_state-state :
      Below 256 gensig
      → Below 256 bytes
      → shabal256_lite_state bytes gensig
        ≡ shabal256_state (gensig ++ take 32 bytes) none last_block
  unfolding shabal256_lite_state shabal256_state absorb_pre_term
  lite_state-state bg bb =
      ap₂ (λ da db. finish_dl db lite_term (absorb_dl (words_of gensig) da initial))
        (take-words_of bytes len_bytes) (drop-words_of bytes len_bytes)
      ∙ ap (finish_dl (words_of (drop 32 bytes)) lite_term) first
      ∙ finish_dl-append (words_of (drop 32 bytes)) lite_term
          (absorb_block (words_of gensig ++ words_of (take 32 bytes)) initial)
          (absorb_block-IsValid _ block-below initial-IsValid).b_words.0 half-words.1 refl
      ∙ ap (finish last_block) (sym one)
    where
      block-below : Below u32_mod (words_of gensig ++ words_of (take 32 bytes))
      block-below =
          Below-append u32_mod (words_of gensig) (words_of (take 32 bytes))
            (words_of-Below 8 gensig bg len_gensig)
            (words_of-Below 8 (take 32 bytes) (take-Below 256 32 bytes bb)
              (omega (arith, length-take 32 bytes)))

      first :
          absorb_dl (words_of gensig) (words_of (take 32 bytes)) initial
          ≡ absorb_block (words_of gensig ++ words_of (take 32 bytes)) initial
      first =
          absorb_dl-append (words_of gensig) (words_of (take 32 bytes)) initial refl refl
            (length-words_of 8 gensig len_gensig) half-words.0

      one :
          absorb
            (length (gensig ++ take 32 bytes) / 64)
            (words_of (gensig ++ take 32 bytes))
            initial
          ≡ absorb_block (words_of gensig ++ words_of (take 32 bytes)) initial
      one =
          ap₂ (λ n xs. absorb n xs initial) {x = length (gensig ++ take 32 bytes) / 64} {y = 1}
            (omega (arith, length-append gensig (take 32 bytes), length-take 32 bytes))
            words-message
          ∙ absorb-one _ initial

-- The first 8 bytes of a digest as a `u64`.
abbrev pub first_u64 : List ℕ → ℕ
first_u64 digest = at (words_of digest) 0 + at (words_of digest) 1 * 2 ^ 32

first_u64-words :
    (b : List ℕ)
    → length b ≡ 16
    → Below u32_mod b
    → first_u64 (bytes_of (take 8 (drop 8 b))) ≡ at b 8 + at b 9 * 2 ^ 32
first_u64-words b h below =
    ap (λ ws. at ws 0 + at ws 1 * 2 ^ 32)
      (words_of-bytes_of _ (take-Below u32_mod 8 _ (drop-Below u32_mod 8 b below)))
    ∙ subst
        (λ xs.
          at (take 8 (drop 8 xs)) 0 + at (take 8 (drop 8 xs)) 1 * 2 ^ 32
          ≡ at xs 8 + at xs 9 * 2 ^ 32)
        (tabulate-get_or 16 b 0 h) refl

-- The quality hash of a 64 byte scoop under a 32 byte generation signature is the first `u64` of the
-- full hash of the signature followed by the scoop, padded with 0x80 after its 96 bytes.
pub shabal256_lite-shabal256 :
    (bytes gensig : List ℕ)
    → length bytes ≡ 64
    → length gensig ≡ 32
    → Below 256 bytes
    → Below 256 gensig
    → shabal256_lite bytes gensig
      ≡ first_u64 (shabal256 (gensig ++ take 32 bytes) none (words_of (drop 32 bytes) ++ lite_term))
unfolding shabal256_lite shabal256
shabal256_lite-shabal256 bytes gensig hb hg bb bg =
    ap (λ s. at s.b 8 + at s.b 9 * 2 ^ 32) (lite_state-state bytes gensig hb hg bg bb)
    ∙ sym (first_u64-words _ full.b_words.0 full.b_words.1)
  where
    full :
        IsValid
          (shabal256_state (gensig ++ take 32 bytes) none (words_of (drop 32 bytes) ++ lite_term))
    full =
        shabal256_state-IsValid 16 (gensig ++ take 32 bytes) none _
          (omega (arith, length-append gensig (take 32 bytes), length-take 32 bytes))
          (Below-append 256 gensig (take 32 bytes) bg (take-Below 256 32 bytes bb)) tt
          (Below-append u32_mod (words_of (drop 32 bytes)) lite_term
            (words_of-Below 8 (drop 32 bytes) (drop-Below 256 32 bytes bb)
              (omega (arith, length-drop 32 bytes)))
            (omega arith))
