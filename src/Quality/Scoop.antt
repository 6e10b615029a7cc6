-- ===== src/Quality/Scoop.antt =====
-- `generate_scoop`: the exclusive or of scoops of the plot format.
use pocx.Base.{
  ℕ, zero, suc, ◌+◌, ◌*◌, ◌/◌, ◌%◌, ◌<◌, ◌≡◌, refl, ◌∙◌, ap, sym, List, [], ◌∷◌, length,
  length-replicate, replicate, replicate-Below, slice, Below, bit_xor-lt, le→ltb, ◌==◌, Bool-cases,
  inl, inr, arith,
}
use pocx.Nonce.{nonce_size, num_scoops, scoop_size}
use pocx.Nonce.Generate.{saturating_add, generate_nonces_32}
use pocx.Nonce.Chain.{base}
use pocx.Nonce.Messages.{base-Below}
use pocx.Nonce.Cache.{
  nonce_scoop, length-zero_buffer, length-generate_nonces_32, generate_nonces_32-nonce_scoop,
}
use pocx.Nonce.Format.{nonce_scoop-Below}
use pocx.Nonce.Shuffle.{scoop_offset}
use pocx.Quality.{
  ok, ◌>>=◌, generate_nonces, xor_bytes, Folding, scoop_x, nonce_x, fold_scoops, pow2,
  generate_scoop,
}

-- The exclusive or of `n` blocks, from number `i` on.
unfoldable pub xor_blocks : (ℕ → List ℕ) → ℕ → ℕ → List ℕ → List ℕ
xor_blocks f zero i acc = acc
xor_blocks f (suc n) i acc = xor_blocks f n (suc i) (xor_bytes acc (f i))

-- Contribution `i` to a scoop that is compressed from `count` nonces.
abbrev pub contribution : List ℕ → List ℕ → ℕ → ℕ → ℕ → ℕ → List ℕ
contribution payload seed scoop nonce count i =
    nonce_scoop (base payload seed (nonce_x scoop nonce count i)) (scoop_x scoop nonce i)

-- The scoop of a compressed plot, without the generator's buffers. The numbers are those of the code, also
-- where they wrap; Quality.Layers describes the scoop without them.
unfoldable pub compressed_scoop : List ℕ → List ℕ → ℕ → ℕ → ℕ → List ℕ
compressed_scoop payload seed scoop nonce compression =
    xor_blocks (contribution payload seed scoop nonce (pow2 compression)) (pow2 compression) 0
      (replicate scoop_size 0)

pub length-xor_bytes : (xs ys : List ℕ) → length (xor_bytes xs ys) ≡ length xs
unfolding xor_bytes
length-xor_bytes [] ys = refl
length-xor_bytes (x ∷ xs) [] = refl
length-xor_bytes (x ∷ xs) (y ∷ ys) = ap suc (length-xor_bytes xs ys)

pub xor_bytes-Below : (xs ys : List ℕ) → Below 256 xs → Below 256 ys → Below 256 (xor_bytes xs ys)
unfolding xor_bytes
xor_bytes-Below [] ys p q = tt
xor_bytes-Below (x ∷ xs) [] p q = p
xor_bytes-Below (x ∷ xs) (y ∷ ys) p q = (bit_xor-lt 8 x y p.0 q.0, xor_bytes-Below xs ys p.1 q.1)

pub scoop_x-lt : (scoop nonce i : ℕ) → scoop < num_scoops → scoop_x scoop nonce i < num_scoops
scoop_x-lt scoop nonce i h = elim (Bool-cases ((i % 2) == 0)) [
  | inl e ↦ rw e h
  | inr e ↦ rw e (omega arith)
]

module _ (payload seed : List ℕ) (len_payload : length payload ≡ 20) (len_seed : length seed ≡ 32)
    (b_payload : Below 256 payload) (b_seed : Below 256 seed) (scoop nonce : ℕ)
    (hs : scoop < num_scoops) where
  -- One call of the generator, on a buffer for one nonce.
  module _ (buffer : List ℕ) (size : length buffer ≡ nonce_size) (count i : ℕ) where
    filled : List ℕ
    filled = generate_nonces_32 buffer 0 payload seed (nonce_x scoop nonce count i) 1

    generate_nonces-filled :
        generate_nonces buffer 0 payload seed (nonce_x scoop nonce count i) 1 ≡ ok filled
    unfolding generate_nonces filled
    generate_nonces-filled =
        rw (le→ltb (length buffer) (0 + 1 * nonce_size) (omega (arith, size))) refl

    length-filled : length filled ≡ nonce_size
    unfolding filled
    length-filled =
        length-generate_nonces_32 payload seed len_payload len_seed b_payload b_seed buffer 0
          (nonce_x scoop nonce count i) 1 (omega (arith, size))
        ∙ size

    slice-filled :
        slice filled
          (scoop_x scoop nonce i * scoop_size)
          (scoop_x scoop nonce i * scoop_size + scoop_size)
        ≡ contribution payload seed scoop nonce count i
    unfolding filled
    slice-filled =
        ap (λ o. slice filled o (o + scoop_size)) {x = scoop_x scoop nonce i * scoop_size}
          {y = scoop_offset (length buffer / nonce_size) 0 (0 + 0) (scoop_x scoop nonce i)}
          (sym (
            ap (λ n. scoop_offset (n / nonce_size) 0 0 (scoop_x scoop nonce i)) size ∙ omega arith))
        ∙ generate_nonces_32-nonce_scoop payload seed len_payload len_seed b_payload b_seed buffer 0
            (nonce_x scoop nonce count i) 1 0 (scoop_x scoop nonce i) (omega (arith, size))
            (omega arith) (scoop_x-lt scoop nonce i hs)
        ∙ ap (λ n. nonce_scoop (base payload seed n) (scoop_x scoop nonce i))
            {x = saturating_add (nonce_x scoop nonce count i) 0} {y = nonce_x scoop nonce count i}
            (omega arith)

  fold_scoops-xor_blocks :
      (count n i : ℕ) (f : Folding)
      → length f.nonce_buffer ≡ nonce_size
      → (fold_scoops payload seed scoop nonce count n i f >>= λ r. ok r.result)
        ≡ ok (xor_blocks (contribution payload seed scoop nonce count) n i f.result)
  unfolding fold_scoops xor_blocks
  fold_scoops-xor_blocks count zero i f size = refl
  fold_scoops-xor_blocks count (suc n) i f size =
      ap
        (λ r.
          r
          >>= (λ buffer. fold_scoops payload seed scoop nonce count n (suc i) (record {
            result = xor_bytes f.result (
                slice buffer (scoop_x scoop nonce i * scoop_size)
                  (scoop_x scoop nonce i * scoop_size + scoop_size));
            nonce_buffer = buffer;
          }))
          >>= λ r'. ok r'.result)
        (generate_nonces-filled f.nonce_buffer size count i)
      ∙ fold_scoops-xor_blocks count n (suc i) _ (length-filled f.nonce_buffer size count i)
      ∙ ap
          (λ b. ok (
            xor_blocks (contribution payload seed scoop nonce count) n (suc i)
              (xor_bytes f.result b)))
          (slice-filled f.nonce_buffer size count i)

  -- The generated scoop is `compressed_scoop`, which wraps as the code does: for a scoop number below 4096,
  -- a payload of 20 bytes and a seed of 32.
  pub generate_scoop-compressed_scoop :
      (compression : ℕ)
      → generate_scoop payload seed scoop nonce compression
        ≡ ok (compressed_scoop payload seed scoop nonce compression)
  unfolding generate_scoop compressed_scoop
  generate_scoop-compressed_scoop compression =
      fold_scoops-xor_blocks (pow2 compression) (pow2 compression) 0 _ length-zero_buffer

  contribution-Below : (count i : ℕ) → Below 256 (contribution payload seed scoop nonce count i)
  contribution-Below count i =
      nonce_scoop-Below _
        (base-Below payload seed (nonce_x scoop nonce count i) len_payload len_seed b_payload
          b_seed)
        (scoop_x scoop nonce i) (scoop_x-lt scoop nonce i hs)

  xor_blocks-Sized :
      (count n i : ℕ) (acc : List ℕ)
      → (length acc ≡ 64) × Below 256 acc
      → (length (xor_blocks (contribution payload seed scoop nonce count) n i acc) ≡ 64)
        × Below 256 (xor_blocks (contribution payload seed scoop nonce count) n i acc)
  unfolding xor_blocks
  xor_blocks-Sized count zero i acc h = h
  xor_blocks-Sized count (suc n) i acc h = xor_blocks-Sized count n (suc i) _ (
    length-xor_bytes acc (contribution payload seed scoop nonce count i) ∙ h.0,
    xor_bytes-Below acc (contribution payload seed scoop nonce count i) h.1
        (contribution-Below count i),
  )

  pub compressed_scoop-Sized :
      (compression : ℕ)
      → (length (compressed_scoop payload seed scoop nonce compression) ≡ 64)
        × Below 256 (compressed_scoop payload seed scoop nonce compression)
  unfolding compressed_scoop
  compressed_scoop-Sized compression =
      xor_blocks-Sized (pow2 compression) (pow2 compression) 0 _
        (length-replicate {A = ℕ} 64 0, replicate-Below 256 64 (omega arith))
