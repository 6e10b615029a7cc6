-- ===== src/Nonce/Format.antt =====
-- A scoop of the plot format is 64 bytes.
use pocx.Base.{
  ℕ, suc, ◌+◌, ◌-◌, ◌*◌, ◌/◌, ◌%◌, ◌<◌, ◌≡◌, ◌∙◌, subst, sym, List, [], ◌∷◌, length, replicate,
  Below, get_or-Below, Below-get_or, bit_xor-lt, length-replicate, Below-append, arith,
}
use native.Mathlib.Decide.{dec_lt}
use pocx.Nonce.{nonce_size, num_scoops, scoop_size, hash_size}
use pocx.Nonce.Generate.{xor_final}
use pocx.Nonce.Chain.{chain, nonce_bytes}
use pocx.Nonce.Messages.{message-Digest}
use pocx.Nonce.Hashes.{chain-Sized}
use pocx.Nonce.Layout.{byte}
use pocx.Nonce.Extract.{length-extract, extract-first, extract-second}
use pocx.Nonce.Cache.{nonce_scoop, length-nonce_bytes}

xor_final-Below :
    (final : List ℕ) (i : ℕ) (xs : List ℕ)
    → Below 256 final
    → Below 256 xs
    → Below 256 (xor_final final i xs)
unfolding xor_final
xor_final-Below final i [] f b = tt
xor_final-Below final i (x ∷ xs) f b = (
  bit_xor-lt 8 _ _ b.0 (get_or-Below 256 final (i % hash_size) (omega arith) f),
  xor_final-Below final (suc i) xs f b.1,
)

nonce_bytes-Below : (id : List ℕ) → Below 256 id → Below 256 (nonce_bytes id)
unfolding nonce_bytes
nonce_bytes-Below id b =
    xor_final-Below _ 0 (chain id 8192)
      (message-Digest _ (Below-append 256 (chain id 8192) id (chain-Sized id b 8192).1 b)).1
      (chain-Sized id b 8192).1

module _ (id : List ℕ) (b : Below 256 id) (scoop : ℕ) (hs : scoop < num_scoops) where
  lanes : length (nonce_bytes id) ≡ 1 * nonce_size
  lanes = length-nonce_bytes id b ∙ omega arith

  pub length-nonce_scoop : length (nonce_scoop id scoop) ≡ 64
  unfolding nonce_scoop
  length-nonce_scoop =
      length-extract (nonce_bytes id) 1 0 lanes (omega arith) scoop hs (replicate scoop_size 0)
        (length-replicate {A = ℕ} 64 0)

  source_byte : (i : ℕ) → byte (nonce_bytes id) i < 256
  source_byte i = get_or-Below 256 (nonce_bytes id) i (omega arith) (nonce_bytes-Below id b)

  scoop_byte : (i : ℕ) → i < 64 → byte (nonce_scoop id scoop) i < 256
  unfolding nonce_scoop
  scoop_byte i h = elim (dec_lt i 32) [
    | yes p ↦
        subst (λ k. byte (nonce_scoop id scoop) k < 256) {x = i / 4 * 4 + i % 4} {y = i}
          (omega arith)
          (subst (λ v. v < 256)
            (sym (
              extract-first (nonce_bytes id) 1 0 lanes (omega arith) scoop hs
                (replicate scoop_size 0) (length-replicate {A = ℕ} 64 0) (i / 4) (i % 4)
                (omega arith) (omega arith)))
            (source_byte _))
    | no np ↦
        subst (λ k. byte (nonce_scoop id scoop) k < 256) {x = 32 + (i - 32) / 4 * 4 + (i - 32) % 4}
          {y = i} (omega arith)
          (subst (λ v. v < 256)
            (sym (
              extract-second (nonce_bytes id) 1 0 lanes (omega arith) scoop hs
                (replicate scoop_size 0) (length-replicate {A = ℕ} 64 0) ((i - 32) / 4)
                ((i - 32) % 4) (omega arith) (omega arith)))
            (source_byte _))
  ]

  pub nonce_scoop-Below : Below 256 (nonce_scoop id scoop)
  nonce_scoop-Below =
      Below-get_or 256 (nonce_scoop id scoop)
        (λ i lt. scoop_byte i (subst (λ n. i < n) length-nonce_scoop lt))
