-- ===== src/Nonce/Cache.antt =====
-- `generate_nonces_32` and `generate_and_extract_scoop_32`: every scoop of every nonce.
use pocx.Base.{
  ℕ, suc, ◌+◌, ◌/◌, ◌≤◌, ◌<◌, ◌≡◌, inl, refl, ◌∙◌, ap, sym, subst, List, [], ◌∷◌, length, slice,
  replicate, length-replicate, Below, for_range, for_range-counts, arith,
}
use native.Mathlib.Decide.{dec_lt}
use native.Mathlib.Nat.{div-mul-le_self}
use pocx.Nonce.{
  nonce_size, num_scoops, scoop_size, unpack_shuffle_scatter, extract_scoop_from_interleaved,
}
use pocx.Nonce.Layout.{Fits}
use pocx.Nonce.Shuffle.{
  scoop_offset, slice-unpack_shuffle_scatter, slice-unpack_shuffle_scatter_other, length-scattered,
}
use pocx.Nonce.Generate.{
  Plotting, plot_nonce, plot_step, xor_final, zero_buffer, saturating_add, generate_nonces_32,
  generate_and_extract_scoop_32,
}
use pocx.Nonce.Chain.{base, chain, nonce_bytes}
use pocx.Nonce.Messages.{base-Below}
use pocx.Nonce.Hashes.{chain-Sized}
use pocx.Nonce.Refine.{plot_nonce-nonce_bytes}

length-xor_final :
    (final : List ℕ) (i : ℕ) (xs : List ℕ) → length (xor_final final i xs) ≡ length xs
unfolding xor_final
length-xor_final final i [] = refl
length-xor_final final i (x ∷ xs) = ap suc (length-xor_final final (suc i) xs)

pub length-zero_buffer : length zero_buffer ≡ nonce_size
unfolding zero_buffer
length-zero_buffer = length-replicate {A = ℕ} nonce_size 0

pub length-nonce_bytes : (id : List ℕ) → Below 256 id → length (nonce_bytes id) ≡ nonce_size
unfolding nonce_bytes
length-nonce_bytes id b = length-xor_final _ 0 (chain id 8192) ∙ (chain-Sized id b 8192).0

-- Scoop `scoop` of the nonce that is identified by `id`, in the order of the plot format.
unfoldable pub nonce_scoop : List ℕ → ℕ → List ℕ
nonce_scoop id scoop =
    extract_scoop_from_interleaved (nonce_bytes id) 1 0 scoop (replicate scoop_size 0)

-- Scoop `scoop` of nonce `nonce` in a cache for `ts` nonces.
abbrev pub scoop_at : List ℕ → ℕ → ℕ → ℕ → List ℕ
scoop_at cache ts nonce scoop =
    slice cache (scoop_offset ts 0 nonce scoop) (scoop_offset ts 0 nonce scoop + scoop_size)

module _ (payload seed : List ℕ) (len_payload : length payload ≡ 20) (len_seed : length seed ≡ 32)
    (b_payload : Below 256 payload) (b_seed : Below 256 seed) where
  -- The scalar batch generator returns the scoop of the plot format.
  pub generate_and_extract_scoop_32-nonce_scoop :
      (nonce scoop : ℕ)
      → generate_and_extract_scoop_32 payload seed nonce scoop
        ≡ nonce_scoop (base payload seed nonce) scoop
  unfolding generate_and_extract_scoop_32 nonce_scoop
  generate_and_extract_scoop_32-nonce_scoop nonce scoop =
      ap (λ xs. extract_scoop_from_interleaved xs 1 0 scoop (replicate scoop_size 0))
        (plot_nonce-nonce_bytes payload seed nonce len_payload len_seed b_payload b_seed zero_buffer
          length-zero_buffer)

  module _ (start_nonce cache_offset size : ℕ) where
    abbrev ts : ℕ
    ts = size / nonce_size

    id_of : ℕ → List ℕ
    id_of k = base payload seed (saturating_add start_nonce k)

    -- The nonces up to number `m` of the call stand in the cache.
    record Filled (m : ℕ) (p : Plotting) : Type 0 where
      buffer_size : length p.buffer ≡ nonce_size
      cache_size : length p.cache ≡ size
      scoops :
          (k scoop : ℕ)
          → k < m
          → scoop < num_scoops
          → scoop_at p.cache ts (cache_offset + k) scoop ≡ nonce_scoop (id_of k) scoop

    plot_step-Filled :
        (m : ℕ) (p : Plotting)
        → cache_offset + m < ts
        → Filled m p
        → Filled (suc m) (plot_step payload seed start_nonce cache_offset m p)
    unfolding plot_step
    plot_step-Filled m p room h = record {
      buffer_size = ap length same ∙ length-nonce_bytes (id_of m) id-Below;
      cache_size = grown ∙ h.cache_size;
      scoops = λ k scoop lt hs. elim (dec_lt k m) [
        | yes old ↦
            subst
              (λ z.
                scoop_at cache (z / nonce_size) (cache_offset + k) scoop
                ≡ scoop_at p.cache (z / nonce_size) (cache_offset + k) scoop)
              h.cache_size
              (slice-unpack_shuffle_scatter_other src p.cache (cache_offset + m) 1
                (cache_offset + k) scoop fits (omega (arith, roomy)) (inl (omega arith)) hs)
            ∙ h.scoops k scoop old hs
        | no new ↦
            let at_m : m ≡ k = omega arith in
            subst (λ n. scoop_at cache ts (cache_offset + n) scoop ≡ nonce_scoop (id_of n) scoop)
              at_m
              (subst
                (λ z.
                  scoop_at cache (z / nonce_size) (cache_offset + m) scoop
                  ≡ nonce_scoop (id_of m) scoop)
                h.cache_size
                (ap (λ o. slice cache o (o + scoop_size))
                    {x = scoop_offset (length p.cache / nonce_size) 0 (cache_offset + m) scoop}
                    {y = scoop_offset (length p.cache / nonce_size) (cache_offset + m) 0 scoop}
                    (omega arith)
                  ∙ slice-unpack_shuffle_scatter src p.cache (cache_offset + m) 1 0 scoop
                      (replicate scoop_size 0) fits (omega arith) hs refl
                  ∙ unfold nonce_scoop in
                    ap (λ xs. extract_scoop_from_interleaved xs 1 0 scoop (replicate scoop_size 0))
                      same))
      ];
    }
      where
        src : List ℕ
        src = plot_nonce payload seed (saturating_add start_nonce m) p.buffer

        cache : List ℕ
        cache = unpack_shuffle_scatter src p.cache (cache_offset + m) 1

        id-Below : Below 256 (id_of m)
        id-Below = unfold id_of in base-Below payload seed _ len_payload len_seed b_payload b_seed

        same : src ≡ nonce_bytes (id_of m)
        same =
            unfold id_of in
            plot_nonce-nonce_bytes payload seed _ len_payload len_seed b_payload b_seed p.buffer
              h.buffer_size

        roomy : cache_offset + m < length p.cache / nonce_size
        roomy = subst (λ z. cache_offset + m < z / nonce_size) (sym h.cache_size) room

        fits : Fits src (length p.cache) (length p.cache / nonce_size) (cache_offset + m) 1
        fits = record {
          lanes = ap length same ∙ length-nonce_bytes (id_of m) id-Below ∙ omega arith;
          room = div-mul-le_self (length p.cache) nonce_size;
          inside = omega (arith, roomy);
        }

        grown : length cache ≡ length p.cache
        grown =
            length-scattered src p.cache (cache_offset + m) 1 0 0 (replicate scoop_size 0) fits
              (omega arith) (omega arith) refl

  -- The loop keeps the cache's size and fills it with every nonce of the call.
  generate_nonces_32-Filled :
      (cache : List ℕ) (cache_offset start_nonce num_nonces : ℕ)
      → cache_offset + num_nonces ≤ length cache / nonce_size
      → Filled start_nonce cache_offset (length cache) num_nonces (
          for_range num_nonces 0
            (plot_step payload seed start_nonce cache_offset)
            (record { buffer = zero_buffer; cache = cache }))
  generate_nonces_32-Filled cache cache_offset start_nonce num_nonces room =
      for_range-counts (Filled start_nonce cache_offset (length cache)) _ num_nonces 0 num_nonces
        (omega arith)
        (λ m lo up p h.
          plot_step-Filled start_nonce cache_offset (length cache) m p (omega arith) h)
        _
        (record {
          buffer_size = length-zero_buffer;
          cache_size = refl;
          scoops = λ k' scoop' none' hs'. absurd (omega arith);
        })

  pub length-generate_nonces_32 :
      (cache : List ℕ) (cache_offset start_nonce num_nonces : ℕ)
      → cache_offset + num_nonces ≤ length cache / nonce_size
      → length (generate_nonces_32 cache cache_offset payload seed start_nonce num_nonces)
        ≡ length cache
  unfolding generate_nonces_32
  length-generate_nonces_32 cache cache_offset start_nonce num_nonces room =
      (generate_nonces_32-Filled cache cache_offset start_nonce num_nonces room).cache_size

  -- Every nonce of a call stands in the cache in the plot's layout: its scoop `scoop` is that of the
  -- plot format, if the cache has room for all of them from `cache_offset` on. The numbers of the
  -- nonces saturate at the end of `u64`.
  pub generate_nonces_32-nonce_scoop :
      (cache : List ℕ) (cache_offset start_nonce num_nonces k scoop : ℕ)
      → cache_offset + num_nonces ≤ length cache / nonce_size
      → k < num_nonces
      → scoop < num_scoops
      → scoop_at
          (generate_nonces_32 cache cache_offset payload seed start_nonce num_nonces)
          (length cache / nonce_size)
          (cache_offset + k)
          scoop
        ≡ nonce_scoop (base payload seed (saturating_add start_nonce k)) scoop
  unfolding generate_nonces_32 id_of
  generate_nonces_32-nonce_scoop cache cache_offset start_nonce num_nonces k scoop room lt hs =
      (generate_nonces_32-Filled cache cache_offset start_nonce num_nonces room).scoops k scoop lt
        hs
