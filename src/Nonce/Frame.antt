-- ===== src/Nonce/Frame.antt =====
-- `generate_nonces_32` and the scoops that are not its own.
use pocx.Base.{
  ℕ, ◌+◌, ◌/◌, ◌≤◌, ◌<◌, ◌≡◌, ◌⊎◌, refl, ◌∙◌, ap, sym, subst, List, length, Below, for_range-keeps,
  replicate, arith,
}
use native.Mathlib.Nat.{div-mul-le_self}
use pocx.Nonce.{nonce_size, num_scoops, scoop_size, unpack_shuffle_scatter}
use pocx.Nonce.Layout.{Fits}
use pocx.Nonce.Shuffle.{slice-unpack_shuffle_scatter_other, length-scattered}
use pocx.Nonce.Generate.{Plotting, plot_nonce, plot_step, saturating_add, generate_nonces_32}
use pocx.Nonce.Messages.{base-Below}
use pocx.Nonce.Refine.{plot_nonce-nonce_bytes}
use pocx.Nonce.Cache.{scoop_at, length-nonce_bytes, length-zero_buffer}

module _ (payload seed : List ℕ) (len_payload : length payload ≡ 20) (len_seed : length seed ≡ 32)
    (b_payload : Below 256 payload) (b_seed : Below 256 seed) (cache : List ℕ)
    (start_nonce cache_offset nonce scoop : ℕ) (in_cache : nonce < length cache / nonce_size)
    (hs : scoop < num_scoops) where
  record Left (p : Plotting) : Type 0 where
    buffer_size : length p.buffer ≡ nonce_size
    cache_size : length p.cache ≡ length cache
    same :
        scoop_at p.cache (length cache / nonce_size) nonce scoop
        ≡ scoop_at cache (length cache / nonce_size) nonce scoop

  plot_step-Left :
      (m : ℕ) (p : Plotting)
      → cache_offset + m < length cache / nonce_size
      → (nonce < cache_offset + m) ⊎ (cache_offset + m + 1 ≤ nonce)
      → Left p
      → Left (plot_step payload seed start_nonce cache_offset m p)
  unfolding plot_step
  plot_step-Left m p room other h = record {
    buffer_size = lanes;
    cache_size =
        length-scattered src p.cache (cache_offset + m) 1 0 0 (replicate scoop_size 0) fits
          (omega arith) (omega arith) refl
        ∙ h.cache_size;
    same =
        subst
          (λ z.
            scoop_at (unpack_shuffle_scatter src p.cache (cache_offset + m) 1) (z / nonce_size)
              nonce scoop
            ≡ scoop_at p.cache (z / nonce_size) nonce scoop)
          h.cache_size
          (slice-unpack_shuffle_scatter_other src p.cache (cache_offset + m) 1 nonce scoop fits
            (subst (λ z. nonce < z / nonce_size) (sym h.cache_size) in_cache) other hs)
        ∙ h.same;
  }
    where
      src : List ℕ
      src = plot_nonce payload seed (saturating_add start_nonce m) p.buffer

      lanes : length src ≡ nonce_size
      lanes =
          ap length (
            plot_nonce-nonce_bytes payload seed _ len_payload len_seed b_payload b_seed p.buffer
              h.buffer_size)
          ∙ length-nonce_bytes _ (
              base-Below payload seed (saturating_add start_nonce m) len_payload len_seed b_payload
                b_seed)

      fits : Fits src (length p.cache) (length p.cache / nonce_size) (cache_offset + m) 1
      fits = record {
        lanes = lanes ∙ omega arith;
        room = div-mul-le_self (length p.cache) nonce_size;
        inside =
            subst (λ z. cache_offset + m + 1 ≤ z / nonce_size) (sym h.cache_size)
              (omega (arith, room));
      }

  -- A call leaves the scoops of the nonces outside its range as they were.
  pub generate_nonces_32-other :
      (num_nonces : ℕ)
      → cache_offset + num_nonces ≤ length cache / nonce_size
      → (nonce < cache_offset) ⊎ (cache_offset + num_nonces ≤ nonce)
      → scoop_at
          (generate_nonces_32 cache cache_offset payload seed start_nonce num_nonces)
          (length cache / nonce_size)
          nonce
          scoop
        ≡ scoop_at cache (length cache / nonce_size) nonce scoop
  unfolding generate_nonces_32
  generate_nonces_32-other num_nonces room other =
      (for_range-keeps Left _ num_nonces 0
        (λ m lo up p h. plot_step-Left m p (omega arith) (ground (arith, other)) h) _
        (record { buffer_size = length-zero_buffer; cache_size = refl; same = refl })).same
