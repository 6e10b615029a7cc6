-- ===== src/Nonce/Halves.antt =====
-- pocx_hashlib/src/noncegen_common.rs and noncegen_batch_32.rs: which bytes of a nonce a scoop has.
use pocx.Base.{
  ℕ, ◌+◌, ◌-◌, ◌*◌, ◌/◌, ◌%◌, ◌<◌, ◌≡◌, ◌∙◌, ap, sym, List, ◌++◌, length, length-append, slice,
  length-slice, replicate, length-replicate, Below, list-ext, get_or-append_lt, get_or-append_add,
  arith,
}
use native.Mathlib.Decide.{dec_lt}
use pocx.Nonce.{nonce_size, num_scoops, scoop_size}
use pocx.Nonce.Generate.{generate_and_extract_scoop_32}
use pocx.Nonce.Chain.{base, nonce_bytes}
use pocx.Nonce.Messages.{base-Below}
use pocx.Nonce.Layout.{byte, get_or-slice}
use pocx.Nonce.Extract.{extract-first, extract-second}
use pocx.Nonce.Format.{length-nonce_scoop}
use pocx.Nonce.Cache.{nonce_scoop, length-nonce_bytes, generate_and_extract_scoop_32-nonce_scoop}

-- The first half of scoop `scoop` of a nonce, and the second half of the scoop at the same distance from
-- the nonce's end.
abbrev pub halves : List ℕ → ℕ → List ℕ
halves bytes scoop =
    slice bytes (64 * scoop) (64 * scoop + 32)
    ++ slice bytes (64 * (4095 - scoop) + 32) (64 * (4095 - scoop) + 64)

module _ (id : List ℕ) (b : Below 256 id) (scoop : ℕ) (hs : scoop < num_scoops) where
  bytes : List ℕ
  bytes = nonce_bytes id

  lanes : length bytes ≡ 1 * nonce_size
  unfolding bytes
  lanes = length-nonce_bytes id b ∙ omega arith

  abbrev front : List ℕ
  front = slice bytes (64 * scoop) (64 * scoop + 32)

  abbrev back : List ℕ
  back = slice bytes (64 * (4095 - scoop) + 32) (64 * (4095 - scoop) + 64)

  length-front : length front ≡ 32
  length-front = length-slice bytes _ _ (omega (arith, lanes)) ∙ omega arith

  length-back : length back ≡ 32
  length-back = length-slice bytes _ _ (omega (arith, lanes)) ∙ omega arith

  front_byte : (i : ℕ) → i < 32 → byte (nonce_scoop id scoop) i ≡ byte bytes (64 * scoop + i)
  unfolding nonce_scoop bytes
  front_byte i h =
      ap (byte (nonce_scoop id scoop)) {x = i} {y = i / 4 * 4 + i % 4} (omega arith)
      ∙ extract-first bytes 1 0 lanes (omega arith) scoop hs (replicate scoop_size 0)
          (length-replicate {A = ℕ} 64 0) (i / 4) (i % 4) (omega arith) (omega arith)
      ∙ ap (byte bytes) (omega arith)

  back_byte :
      (i : ℕ)
      → i < 32
      → byte (nonce_scoop id scoop) (32 + i) ≡ byte bytes (64 * (4095 - scoop) + 32 + i)
  unfolding nonce_scoop bytes
  back_byte i h =
      ap (byte (nonce_scoop id scoop)) {x = 32 + i} {y = 32 + i / 4 * 4 + i % 4} (omega arith)
      ∙ extract-second bytes 1 0 lanes (omega arith) scoop hs (replicate scoop_size 0)
          (length-replicate {A = ℕ} 64 0) (i / 4) (i % 4) (omega arith) (omega arith)
      ∙ ap (byte bytes) (omega arith)

  same_byte : (i : ℕ) → i < 64 → byte (nonce_scoop id scoop) i ≡ byte (front ++ back) i
  same_byte i h = elim (dec_lt i 32) [
    | yes p ↦
        front_byte i p
        ∙ sym (
            get_or-append_lt 0 front back i (omega (arith, length-front))
            ∙ get_or-slice bytes _ _ i (omega arith))
    | no np ↦
        ap (byte (nonce_scoop id scoop)) {x = i} {y = 32 + (i - 32)} (omega arith)
        ∙ back_byte (i - 32) (omega arith)
        ∙ sym (
            get_or-append_add 0 front back (i - 32) i (omega (arith, length-front))
            ∙ get_or-slice bytes _ _ (i - 32) (omega arith))
  ]

  pub nonce_scoop-halves : nonce_scoop id scoop ≡ halves (nonce_bytes id) scoop
  unfolding bytes
  nonce_scoop-halves =
      list-ext 0 _ _
        (length-nonce_scoop id b scoop hs
          ∙ sym (omega (arith, length-append front back, length-front, length-back)))
        (λ i h. same_byte i (omega (arith, length-nonce_scoop id b scoop hs)))

-- The generator of batch validation returns the first half of the scoop in the nonce, and as its second
-- half that of the scoop at the same distance from the end, where the nonce is the chain of 8192 message
-- hashes with the final exclusive or: for a scoop number below 4096, a payload of 20 bytes and a seed of
-- 32.
pub generate_and_extract_scoop_32-halves :
    (payload seed : List ℕ) (nonce scoop : ℕ)
    → length payload ≡ 20
    → length seed ≡ 32
    → Below 256 payload
    → Below 256 seed
    → scoop < num_scoops
    → generate_and_extract_scoop_32 payload seed nonce scoop
      ≡ slice (nonce_bytes (base payload seed nonce)) (64 * scoop) (64 * scoop + 32)
        ++ slice
            (nonce_bytes (base payload seed nonce))
            (64 * (4095 - scoop) + 32)
            (64 * (4095 - scoop) + 64)
generate_and_extract_scoop_32-halves payload seed nonce scoop lp ls bp bs hs =
    generate_and_extract_scoop_32-nonce_scoop payload seed lp ls bp bs nonce scoop
    ∙ nonce_scoop-halves (base payload seed nonce) (base-Below payload seed nonce lp ls bp bs) scoop
        hs
