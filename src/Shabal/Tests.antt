-- ===== src/Shabal/Tests.antt =====
-- The vectors of the source's own tests, and the theorems about the hash at concrete inputs.
use pocx.Base.{
  ◌≡◌, refl, ◌∷◌, [], ◌++◌, none, some, replicate, replicate-Below, arith, take, drop, bytes_of,
  words_of, u32_mod,
}
use pocx.Shabal.Hash.{
  shabal256, shabal256_lite, shabal256_state, shabal256_lite_state, enter, absorb_block, absorb,
  final_round, finish, absorb_pre_term, enter_dl, absorb_dl, final_round_dl, finish_dl, lite_term,
}
use pocx.Shabal.Cut.{shabal256-pre_term}
use pocx.Shabal.Lite.{shabal256_lite-shabal256, first_u64}
use pocx.Shabal.Schedule.{steps, perm_step, perm-steps}
use pocx.Shabal.{
  a_init, b_init, c_init, perm, perm_dl, perm_elt, add_c, rotate_b, add_all_c, apply_p, apply_p_dl,
  incr_w, xor_w, input_block_add, input_block_sub, input_block_add_dl, input_block_sub_dl,
}

hash_a :
    shabal256 (replicate 64 0) none (0x80 ∷ replicate 15 0)
    ≡ 0xDA ∷ 0x8F ∷ 0x08 ∷ 0xC0 ∷ 0x2A ∷ 0x67 ∷ 0xBA ∷ 0x9A ∷ 0x56 ∷ 0xBD ∷ 0xD0 ∷ 0x79 ∷ 0x8E
      ∷ 0x48 ∷ 0xAE ∷ 0x07 ∷ 0x14 ∷ 0x21 ∷ 0x5E ∷ 0x09 ∷ 0x3B ∷ 0x5B ∷ 0x85 ∷ 0x06 ∷ 0x49 ∷ 0xA3
      ∷ 0x77 ∷ 0x18 ∷ 0x99 ∷ 0x3F ∷ 0x54 ∷ 0xA2 ∷ []
unfolding shabal256 shabal256_state absorb absorb_block enter finish final_round absorb_pre_term
    perm perm_elt add_c rotate_b add_all_c apply_p incr_w xor_w input_block_add input_block_sub
hash_a = refl

hash_c : shabal256_lite (replicate 64 0) (replicate 32 0) ≡ 0x9824d76d62cd4f2f
unfolding shabal256_lite shabal256_lite_state enter_dl absorb_dl final_round_dl finish_dl perm_dl
    perm_elt add_c rotate_b add_all_c apply_p_dl incr_w xor_w input_block_add_dl input_block_sub_dl
hash_c = refl

shabal256-pre_term_example :
    shabal256 (replicate 64 3) (some (replicate 16 5)) lite_term
    ≡ shabal256 (replicate 64 3 ++ bytes_of (replicate 16 5)) none lite_term
shabal256-pre_term_example =
    shabal256-pre_term 1 (replicate 64 3) (replicate 16 5) lite_term refl
      (replicate-Below 256 64 (omega arith)) (refl, replicate-Below u32_mod 16 (omega arith))

shabal256_lite-shabal256_example :
    shabal256_lite (replicate 64 3) (replicate 32 4)
    ≡ first_u64 (
        shabal256
          (replicate 32 4 ++ take 32 (replicate 64 3))
          none
          (words_of (drop 32 (replicate 64 3)) ++ lite_term))
shabal256_lite-shabal256_example =
    shabal256_lite-shabal256 (replicate 64 3) (replicate 32 4) refl refl
      (replicate-Below 256 64 (omega arith)) (replicate-Below 256 32 (omega arith))

perm-steps_example :
    perm c_init b_init (record { a = a_init; b = b_init })
    ≡ steps (perm_step c_init b_init) 48 0 (record { a = a_init; b = b_init })
perm-steps_example = perm-steps c_init b_init (record { a = a_init; b = b_init })
