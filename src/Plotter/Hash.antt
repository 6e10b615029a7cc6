-- ===== src/Plotter/Hash.antt =====
-- `hash_nonces_cpu`: the tasks of a call, in any order, fill the buffer.
use pocx.Base.{
  ℕ, ◌+◌, ◌-◌, ◌*◌, ◌/◌, ◌%◌, ◌≤◌, ◌<◌, ◌≡◌, ◌≢◌, ◌⊎◌, inl, inr, refl, ◌∙◌, ap, subst, List, [],
  ◌∷◌, some, length, Below, min, u64_mod, run, run-once, run-keeps, AllBelow, IsTurns, le→ltb,
  arith,
}
use mathlib.Core.Option
use native.Mathlib.Decide.{dec_lt}
use pocx.Nonce.{nonce_size, num_scoops}
use pocx.Nonce.Generate.{generate_nonces_32, saturating_add}
use pocx.Nonce.Chain.{base}
use pocx.Nonce.Cache.{
  nonce_scoop, scoop_at, length-generate_nonces_32, generate_nonces_32-nonce_scoop,
}
use pocx.Nonce.Frame.{generate_nonces_32-other}
use pocx.Quality.{generate_nonces}
use pocx.Plotter.{compress_batch, cpu_task_size, hash_task, num_tasks, hash_nonces_cpu}

-- A scatter buffer that holds the nonces from `start` on.
pub record IsHashed (payload seed : List ℕ) (start : ℕ) (buffer : List ℕ) : Type 0 where
  pub size : length buffer ≡ compress_batch * nonce_size
  pub scoops :
      (k scoop : ℕ)
      → k < compress_batch
      → scoop < num_scoops
      → scoop_at buffer compress_batch k scoop ≡ nonce_scoop (base payload seed (start + k)) scoop

module _ (payload seed : List ℕ) (len_payload : length payload ≡ 20) (len_seed : length seed ≡ 32)
    (b_payload : Below 256 payload) (b_seed : Below 256 seed) (start_nonce num_nonces room : ℕ)
    (enough : num_nonces ≤ room) (no_wrap : start_nonce + num_nonces ≤ u64_mod) where
  abbrev size_of : ℕ → ℕ
  size_of t = min cpu_task_size (num_nonces - t * cpu_task_size)

  -- What task `t` leaves in a buffer that has room for it.
  filled : ℕ → List ℕ → List ℕ
  filled t buffer =
      generate_nonces_32 buffer (t * cpu_task_size) payload seed
        ((start_nonce + t * cpu_task_size) % u64_mod) (size_of t)

  abbrev Sized : List ℕ → Type 0
  Sized buffer = length buffer ≡ room * nonce_size

  fits :
      (t : ℕ) (buffer : List ℕ)
      → t < num_tasks num_nonces
      → Sized buffer
      → t * cpu_task_size + size_of t ≤ length buffer / nonce_size
  fits t buffer ht size = omega (arith, ap (λ (n : ℕ). n / nonce_size) size)

  filled-Sized :
      (t : ℕ)
      → t < num_tasks num_nonces
      → (buffer : List ℕ) → Sized buffer
      → Sized (filled t buffer)
  unfolding filled
  filled-Sized t ht buffer size =
      length-generate_nonces_32 payload seed len_payload len_seed b_payload b_seed buffer
        (t * cpu_task_size) _ (size_of t) (fits t buffer ht size)
      ∙ size

  hash_task-filled :
      (t : ℕ) (buffer : List ℕ)
      → t < num_tasks num_nonces
      → Sized buffer
      → hash_task payload seed start_nonce num_nonces t (some buffer) ≡ some (filled t buffer)
  unfolding hash_task filled generate_nonces
  hash_task-filled t buffer ht size =
      rw (le→ltb (length buffer) (t * cpu_task_size + size_of t * nonce_size) (omega (arith, size)))
        refl

  run-filled :
      (order : List ℕ)
      → AllBelow (num_tasks num_nonces) order
      → (buffer : List ℕ) → Sized buffer
      → run (hash_task payload seed start_nonce num_nonces) order (some buffer)
        ≡ some (run filled order buffer)
  run-filled [] b buffer size = refl
  run-filled (t ∷ order) b buffer size =
      ap (run (hash_task payload seed start_nonce num_nonces) order)
        (hash_task-filled t buffer b.0 size)
      ∙ run-filled order b.1 (filled t buffer) (filled-Sized t b.0 buffer size)

  -- The buffer of a call when its tasks are done.
  hashed : List ℕ → List ℕ → List ℕ
  hashed order buffer = run filled order buffer

  hash_nonces_cpu-hashed :
      (order buffer : List ℕ)
      → IsTurns (num_tasks num_nonces) order
      → Sized buffer
      → hash_nonces_cpu order buffer payload seed start_nonce num_nonces
        ≡ some (hashed order buffer)
  unfolding hash_nonces_cpu hashed
  hash_nonces_cpu-hashed order buffer turns size = run-filled order turns.below buffer size

  length-hashed :
      (order buffer : List ℕ)
      → IsTurns (num_tasks num_nonces) order
      → Sized buffer
      → length (hashed order buffer) ≡ room * nonce_size
  unfolding hashed
  length-hashed order buffer turns size =
      run-keeps Sized (λ b. length b) (num_tasks num_nonces) filled filled-Sized order turns.below
        buffer size

  module _ (k scoop : ℕ) (hk : k < num_nonces) (hs : scoop < num_scoops) where
    wanted : List ℕ
    wanted = nonce_scoop (base payload seed (start_nonce + k)) scoop

    filled-in :
        (buffer : List ℕ)
        → Sized buffer
        → scoop_at (filled (k / cpu_task_size) buffer) room k scoop ≡ wanted
    unfolding filled wanted
    filled-in buffer size =
        let sized : length buffer / nonce_size ≡ room = omega (arith, size) in
        subst (λ r. scoop_at (filled (k / cpu_task_size) buffer) r k scoop ≡ wanted) sized
          (ap
              (λ n.
                scoop_at (filled (k / cpu_task_size) buffer) (length buffer / nonce_size) n scoop)
              {x = k} {y = k / cpu_task_size * cpu_task_size + k % cpu_task_size} (omega arith)
            ∙ generate_nonces_32-nonce_scoop payload seed len_payload len_seed b_payload b_seed
                buffer (k / cpu_task_size * cpu_task_size) _ (size_of (k / cpu_task_size))
                (k % cpu_task_size) scoop (fits (k / cpu_task_size) buffer (omega arith) size)
                (omega arith) hs
            ∙ ap (λ n. nonce_scoop (base payload seed n) scoop)
                {x = saturating_add ((start_nonce + k / cpu_task_size * cpu_task_size) % u64_mod)
                  (k % cpu_task_size)}
                {y = start_nonce + k} (omega arith))

    filled-out :
        (t : ℕ)
        → t < num_tasks num_nonces
        → t ≢ k / cpu_task_size
        → (buffer : List ℕ) → Sized buffer
        → scoop_at (filled t buffer) room k scoop ≡ scoop_at buffer room k scoop
    unfolding filled
    filled-out t ht ne buffer size =
        let sized : length buffer / nonce_size ≡ room = omega (arith, size) in
        subst (λ r. scoop_at (filled t buffer) r k scoop ≡ scoop_at buffer r k scoop) sized
          (generate_nonces_32-other payload seed len_payload len_seed b_payload b_seed buffer _
            (t * cpu_task_size) k scoop (omega (arith, sized)) hs (size_of t)
            (fits t buffer ht size) side)
      where
        side : (k < t * cpu_task_size) ⊎ (t * cpu_task_size + size_of t ≤ k)
        side = elim (dec_lt t (k / cpu_task_size)) [
          | yes p ↦ inr (omega (arith, p))
          | no np ↦ inl (omega (arith, np, ne))
        ]

    hashed-scoop :
        (order buffer : List ℕ)
        → IsTurns (num_tasks num_nonces) order
        → Sized buffer
        → scoop_at (hashed order buffer) room k scoop ≡ wanted
    unfolding hashed
    hashed-scoop order buffer turns size =
        run-once Sized (λ b. scoop_at b room k scoop) (num_tasks num_nonces) filled filled-Sized
          (λ old. wanted) (k / cpu_task_size) filled-out filled-in order turns.below
          (turns.once (k / cpu_task_size) (omega arith)) buffer size

  hashed-nonce_scoop :
      (order buffer : List ℕ)
      → IsTurns (num_tasks num_nonces) order
      → Sized buffer
      → (k scoop : ℕ) → k < num_nonces
      → scoop < num_scoops
      → scoop_at (hashed order buffer) room k scoop
        ≡ nonce_scoop (base payload seed (start_nonce + k)) scoop
  unfolding wanted
  hashed-nonce_scoop order buffer turns size k scoop hk hs =
      hashed-scoop k scoop hk hs order buffer turns size

  -- A call returns, and in its buffer each scoop of each of its nonces is that of the plot format,
  -- whatever the order of the tasks: for a payload of 20 bytes, a seed of 32, a buffer with room for the
  -- nonces, and numbers of nonces that end within `u64`.
  pub hash_nonces_cpu-nonce_scoop :
      (order buffer : List ℕ)
      → IsTurns (num_tasks num_nonces) order
      → Sized buffer
      → (k scoop : ℕ) → k < num_nonces
      → scoop < num_scoops
      → Option.map
          (λ out. scoop_at out room k scoop)
          (hash_nonces_cpu order buffer payload seed start_nonce num_nonces)
        ≡ some (nonce_scoop (base payload seed (start_nonce + k)) scoop)
  hash_nonces_cpu-nonce_scoop order buffer turns size k scoop hk hs =
      ap (Option.map (λ out. scoop_at out room k scoop))
        (hash_nonces_cpu-hashed order buffer turns size)
      ∙ ap some (hashed-nonce_scoop order buffer turns size k scoop hk hs)

module _ (payload seed : List ℕ) (len_payload : length payload ≡ 20) (len_seed : length seed ≡ 32)
    (b_payload : Below 256 payload) (b_seed : Below 256 seed) where
  pub hash_nonces_cpu-IsHashed :
      (start_nonce : ℕ) (order buffer : List ℕ)
      → start_nonce + compress_batch ≤ u64_mod
      → IsTurns (num_tasks compress_batch) order
      → length buffer ≡ compress_batch * nonce_size
      → (out : List ℕ) × (hash_nonces_cpu order buffer payload seed start_nonce compress_batch
          ≡ some out)
        × IsHashed payload seed start_nonce out
  hash_nonces_cpu-IsHashed start_nonce order buffer no_wrap turns size = (
    hashed payload seed len_payload len_seed b_payload b_seed start_nonce compress_batch
        compress_batch enough no_wrap order buffer,
    hash_nonces_cpu-hashed payload seed len_payload len_seed b_payload b_seed start_nonce
        compress_batch compress_batch enough no_wrap order buffer turns size,
    record {
      size =
          length-hashed payload seed len_payload len_seed b_payload b_seed start_nonce
            compress_batch compress_batch enough no_wrap order buffer turns size;
      scoops =
          hashed-nonce_scoop payload seed len_payload len_seed b_payload b_seed start_nonce
            compress_batch compress_batch enough no_wrap order buffer turns size;
    },
  )
    where
      enough : compress_batch ≤ compress_batch
      enough = omega arith
