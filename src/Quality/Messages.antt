-- ===== src/Quality/Messages.antt =====
-- The hashes of the consensus rules as Shabal256 of byte strings.
use pocx.Base.{
  ℕ, ◌+◌, ◌-◌, ◌*◌, ◌%◌, ◌^◌, ◌<◌, ◌≡◌, refl, ◌∙◌, ap, ap₂, sym, List, [], ◌∷◌, ◌++◌, none, length,
  length-append, take, drop, length-take, length-drop, take-append-drop, append_assoc, replicate,
  get_or, words_of, words_of-append, Below, bytes_of-Below, bytes_of, get_or-Below, bit_or-shifted,
  bit_and-fifteen, bit_or, bit_and, arith,
}
use pocx.Shabal.Hash.{shabal256, shabal256_lite}
use pocx.Shabal.Lite.{first_u64, shabal256_lite-shabal256}
use pocx.Nonce.Generate.{be_bytes}
use pocx.Nonce.Chain.{shabal256_message}
use pocx.Nonce.Messages.{message-split}
use pocx.Quality.{calculate_scoop, calculate_next_generation_signature}

-- A message of 96 bytes whose parts the source passes as 64 bytes and 8 words.
half_block :
    (front rest : List ℕ)
    → length front ≡ 64
    → length rest ≡ 32
    → shabal256 front none (words_of rest ++ 0x80 ∷ replicate 7 0)
      ≡ shabal256_message (front ++ rest)
half_block front rest hf hr = sym (
    message-split 1 front rest (omega arith) (omega arith)
    ∙ ap (λ n. shabal256 front none (words_of (rest ++ 0x80 ∷ replicate (63 - n) 0))) hr
    ∙ ap (shabal256 front none) (words_of-append 8 rest (0x80 ∷ replicate 31 0) (omega arith)))

rejoin : (xs ys : List ℕ) → (xs ++ take 32 ys) ++ drop 32 ys ≡ xs ++ ys
rejoin xs ys =
    append_assoc xs (take 32 ys) (drop 32 ys) ∙ ap (λ zs. xs ++ zs) (take-append-drop 32 ys)

-- The next generation signature is the hash of the old one followed by the public key, for 32 and 64
-- bytes.
pub calculate_next_generation_signature-message :
    (old public_key : List ℕ)
    → length old ≡ 32
    → length public_key ≡ 64
    → calculate_next_generation_signature old public_key ≡ shabal256_message (old ++ public_key)
unfolding calculate_next_generation_signature
calculate_next_generation_signature-message old key ho hk =
    half_block (old ++ take 32 key) (drop 32 key)
      (omega (arith, length-append old (take 32 key), length-take 32 key))
      (omega (arith, length-drop 32 key))
    ∙ ap shabal256_message (rejoin old key)

-- The quality hash of a scoop is the first `u64` of the hash of the generation signature followed by
-- the scoop, for 32 and 64 bytes.
pub shabal256_lite-message :
    (bytes gensig : List ℕ)
    → length bytes ≡ 64
    → length gensig ≡ 32
    → Below 256 bytes
    → Below 256 gensig
    → shabal256_lite bytes gensig ≡ first_u64 (shabal256_message (gensig ++ bytes))
shabal256_lite-message bytes gensig hb hg bb bg =
    shabal256_lite-shabal256 bytes gensig hb hg bb bg
    ∙ ap first_u64 (
        half_block (gensig ++ take 32 bytes) (drop 32 bytes)
          (omega (arith, length-append gensig (take 32 bytes), length-take 32 bytes))
          (omega (arith, length-drop 32 bytes))
        ∙ ap shabal256_message (rejoin gensig bytes))

-- The last 12 bits of a digest, the highest first.
abbrev pub low_bits : List ℕ → ℕ
low_bits digest = get_or digest 30 0 % 16 * 2 ^ 8 + get_or digest 31 0

digest-bits :
    (ws : List ℕ)
    → bit_or (bit_and (get_or (bytes_of ws) 30 0) 15 * 2 ^ 8) (get_or (bytes_of ws) 31 0)
      ≡ low_bits (bytes_of ws)
digest-bits ws =
    bit_or-shifted 8 _ _ (get_or-Below 256 (bytes_of ws) 31 (omega arith) (bytes_of-Below ws))
    ∙ ap (λ n. n * 2 ^ 8 + get_or (bytes_of ws) 31 0) (bit_and-fifteen _)

-- The scoop number is the last 12 bits of the hash of the generation signature followed by the height,
-- for a signature of 32 bytes.
pub calculate_scoop-message :
    (block_height : ℕ) (gensig : List ℕ)
    → length gensig ≡ 32
    → calculate_scoop block_height gensig
      ≡ low_bits (shabal256_message (gensig ++ be_bytes block_height))
unfolding calculate_scoop
calculate_scoop-message height gensig hg =
    unfold shabal256 in
    digest-bits _
    ∙ ap low_bits (
        sym (
          message-split 0 [] (gensig ++ be_bytes height) refl small
          ∙ ap₂ (λ n xs. shabal256 [] none (words_of (xs ++ 0x80 ∷ replicate (63 - n) 0)))
              (length-append gensig (be_bytes height) ∙ ap (λ n. n + 8) hg) refl
          ∙ ap (λ xs. shabal256 [] none (words_of xs))
              (append_assoc gensig (be_bytes height) (0x80 ∷ replicate 23 0))))
  where
    small : length (gensig ++ be_bytes height) < 64
    small = omega (arith, length-append gensig (be_bytes height))

digest-bits-lt :
    (ws : List ℕ)
    → bit_or (bit_and (get_or (bytes_of ws) 30 0) 15 * 2 ^ 8) (get_or (bytes_of ws) 31 0) < 4096
digest-bits-lt ws =
    omega
      (arith, digest-bits ws, get_or-Below 256 (bytes_of ws) 31 (omega arith) (bytes_of-Below ws))

-- Every scoop number is below 4096.
pub calculate_scoop-lt :
    (block_height : ℕ) (gensig : List ℕ) → calculate_scoop block_height gensig < 4096
unfolding calculate_scoop shabal256
calculate_scoop-lt height gensig = digest-bits-lt _
