-- ===== src/Shabal/Digest.antt =====
-- What callers of `shabal256` may rely on: the digest's size, and how the message may be cut.
use pocx.Base.{
  ℕ, ◌*◌, ◌≡◌, List, Option, none, some, length, Below, u32_mod, arith, words_of-Below,
  length-bytes_of, bytes_of-Below, drop, take, length-take, length-drop,
}
use pocx.Shabal.Hash.{absorb_pre_term, shabal256, shabal256_state}
use pocx.Shabal.Sizes.{
  IsValid, absorb-IsValid, finish-IsValid, absorb_block-IsValid, initial-IsValid,
}

abbrev pub AllBelow? : ℕ → Option (List ℕ) → Type 0
AllBelow? n none = Unit {0}
AllBelow? n (some ws) = Below n ws

pub shabal256_state-IsValid :
    (k : ℕ) (bytes : List ℕ) (pre : Option (List ℕ)) (term : List ℕ)
    → length bytes ≡ 4 * k
    → Below 256 bytes
    → AllBelow? u32_mod pre
    → Below u32_mod term
    → IsValid (shabal256_state bytes pre term)
unfolding shabal256_state absorb_pre_term
shabal256_state-IsValid k bytes none term e h p t =
    finish-IsValid term t (absorb-IsValid _ _ (words_of-Below k bytes h e) initial-IsValid)
shabal256_state-IsValid k bytes (some ws) term e h p t =
    finish-IsValid term t
      (absorb_block-IsValid ws p (absorb-IsValid _ _ (words_of-Below k bytes h e) initial-IsValid))

-- The digest of whole words is 32 bytes.
pub shabal256-Digest :
    (k : ℕ) (bytes : List ℕ) (pre : Option (List ℕ)) (term : List ℕ)
    → length bytes ≡ 4 * k
    → Below 256 bytes
    → AllBelow? u32_mod pre
    → Below u32_mod term
    → (length (shabal256 bytes pre term) ≡ 32) × Below 256 (shabal256 bytes pre term)
unfolding shabal256
shabal256-Digest k bytes pre term e h p t =
    let v = shabal256_state-IsValid k bytes pre term e h p t in
    let out = (shabal256_state bytes pre term).b in
    (
      omega (
        arith,
        length-bytes_of (take 8 (drop 8 out)),
        length-take 8 (drop 8 out),
        length-drop 8 out,
        v.b_words.0,
      ),
      bytes_of-Below _,
    )
