-- ===== src/Scheduler/Hashing.antt =====
-- The steps of a round up to the last pass of a warp.
use pocx.Base.{
  ℕ, suc, ◌+◌, ◌-◌, ◌*◌, ◌%◌, ◌^◌, ◌<◌, ◌≡◌, ◌⊎◌, refl, ◌∙◌, ap, sym, subst, List, Option, none,
  some, true, length, u64_mod, arith,
}
use native.Mathlib.Nat.{mul-le-mul}
use pocx.Nonce.{nonce_size}
use pocx.Plotter.{compress_batch, hash_nonces_cpu}
use pocx.Plotter.Hash.{IsHashed, hash_nonces_cpu-IsHashed}
use pocx.Quality.{pow2}
use native.Mathlib.Nat.{pow-suc}
use pocx.Scheduler.{PlotterTask, Scheduler, Round, active, passes_per_warp, update}
use pocx.Scheduler.Progress.{Progress, Written, IsTask, IsRound}
use pocx.Scheduler.Invariant.{
  update_same, update_other, pending, IsUpToDate, IsBuffer, IsCounted, IsRunning,
}

module _ (task : PlotterTask) (first : ℕ → Progress) where
  pub keep-IsUpToDate :
      (s t : Scheduler) (i : ℕ)
      → t.sent ≡ s.sent
      → t.files_done i ≡ s.files_done i
      → t.warp_offsets i + pending s i ≡ s.warp_offsets i + pending t i
      → t.seeds i ≡ s.seeds i
      → IsUpToDate task first s i
      → IsUpToDate task first t i
  keep-IsUpToDate s t i sent files offset seed u = record {
    at = u.at;
    written = subst (λ l. Written task i (first i) l u.at) (sym sent) u.written;
    files = u.files ∙ sym files;
    offset = omega (arith, u.offset, offset);
    seed = subst (λ z. (u.at.offset ≡ 0) ⊎ (u.at.seed ≡ z)) (sym seed) u.seed;
  }

  -- The batch of a round does not reach the end of `u64`.
  pub batch-lt :
      IsTask task
      → (s : Scheduler) → s.path_pointer < task.num_paths
      → s.warp_offsets s.path_pointer < task.warps s.path_pointer
      → s.pass_in_warp < passes_per_warp task
      → (s.warp_offsets s.path_pointer * passes_per_warp task + (s.pass_in_warp + 1))
          * compress_batch
        < u64_mod
  batch-lt ok s pointer inside passes = omega (
    arith,
    ok.no_wrap s.path_pointer pointer,
    passes,
    mul-le-mul {n₁ = s.warp_offsets s.path_pointer + 1} {m₁ = passes_per_warp task}
        {n₂ = task.warps s.path_pointer} {m₂ = passes_per_warp task} (omega (arith, inside))
        (omega arith),
  )

  -- There are two nonces for each pass.
  pub pow2-passes :
      IsTask task
      → (s : Scheduler) → s.path_pointer < task.num_paths
      → s.warp_offsets s.path_pointer < task.warps s.path_pointer
      → pow2 task.compress ≡ 2 * passes_per_warp task
  pow2-passes ok s pointer inside =
      let twice : 2 ^ task.compress ≡ 2 ^ (task.compress - 1) * 2 =
        ap (λ n. 2 ^ n) {x = task.compress} {y = suc (task.compress - 1)}
          (omega (arith, ok.compressed))
        ∙ pow-suc 2 (task.compress - 1) in
      omega (
        arith,
        twice,
        ok.no_wrap s.path_pointer pointer,
        mul-le-mul {n₁ = 1} {m₁ = passes_per_warp task} {n₂ = task.warps s.path_pointer}
            {m₂ = passes_per_warp task} (omega (arith, inside)) (omega arith),
      )

  module _ (ok : IsTask task) (s : Scheduler) (run : IsRunning task first s)
      (busy : active task s s.path_pointer ≡ true) where
    abbrev pub hashed : List ℕ → Scheduler
    hashed out = record s {
      scatter_buf = out;
      global_nonces =
          update s.global_nonces s.path_pointer
            ((s.global_nonces s.path_pointer + compress_batch) % u64_mod);
    }

    hashed-IsBuffer :
        (out : List ℕ) (b : Option (List ℕ)) → IsBuffer task s b → IsBuffer task (hashed out) b
    hashed-IsBuffer out none h = h
    hashed-IsBuffer out (some buf) h = record {
      path = h.path;
      start = h.start;
      holds = h.holds;
      part = h.part;
    }

    pub hashed-IsCounted :
        (out : List ℕ)
        → length out ≡ compress_batch * nonce_size
        → IsCounted task first 1 (hashed out)
    hashed-IsCounted out size = record {
      pointer = run.counted.pointer;
      passes = run.counted.passes;
      here =
          update_same s.global_nonces s.path_pointer _
          ∙ omega (
            arith,
            run.counted.here,
            batch-lt ok s run.counted.pointer (run.inside busy) run.counted.passes,
          );
      others = λ i hi ne.
          update_other s.global_nonces s.path_pointer i _ ne ∙ run.counted.others i hi ne;
      offsets = run.counted.offsets;
      scatter = size;
      seeds = run.counted.seeds;
      buffer = hashed-IsBuffer out s.write_buffer run.counted.buffer;
      writers =
          λ i hi. keep-IsUpToDate s (hashed out) i refl refl refl refl (run.counted.writers i hi);
    }

    pub hash_nonces_cpu-some :
        (r : Round)
        → IsRound task r
        → (out : List ℕ) × (hash_nonces_cpu r.hash_order s.scatter_buf task.address_payload
              (s.seeds s.path_pointer)
              (s.global_nonces s.path_pointer)
              compress_batch
            ≡ some out)
          × IsHashed task.address_payload
              (s.seeds s.path_pointer)
              ((s.warp_offsets s.path_pointer * passes_per_warp task + s.pass_in_warp)
                * compress_batch)
              out
    hash_nonces_cpu-some r served =
        let seed = run.counted.seeds s.path_pointer run.counted.pointer in
        subst
          (λ n.
            (out : List ℕ) × (hash_nonces_cpu r.hash_order s.scatter_buf task.address_payload
                (s.seeds s.path_pointer) n compress_batch
              ≡ some out)
            × IsHashed task.address_payload (s.seeds s.path_pointer)
                ((s.warp_offsets s.path_pointer * passes_per_warp task + s.pass_in_warp)
                  * compress_batch)
                out)
          (sym (run.counted.here ∙ omega arith))
          (hash_nonces_cpu-IsHashed task.address_payload (s.seeds s.path_pointer) ok.payload_size
            seed.size ok.payload_bytes seed.bytes
            ((s.warp_offsets s.path_pointer * passes_per_warp task + s.pass_in_warp)
              * compress_batch)
            r.hash_order s.scatter_buf
            (omega (arith, batch-lt ok s run.counted.pointer (run.inside busy) run.counted.passes))
            served.hash_turns run.counted.scatter)
