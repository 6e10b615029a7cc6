-- ===== src/Scheduler/Passes.antt =====
-- The pass of a round over the write buffer.
use pocx.Base.{
  ℕ, suc, ◌+◌, ◌*◌, ◌%◌, ◌≤◌, ◌<◌, ◌≡◌, inl, inr, refl, ◌∙◌, ap, sym, subst, List, some, true,
  length, u64_mod, arith,
}
use native.Mathlib.Nat.{mul-le-mul}
use pocx.Plotter.{dim, warp_size, compress_batch, compress_pass}
use pocx.Plotter.Hash.{IsHashed}
use pocx.Nonce.Cache.{scoop_at}
use pocx.Quality.Scoop.{compressed_scoop}
use native.Mathlib.Decide.{dec_lt, ℕ_discrete}
use pocx.Plotter.Warp.{
  partial_scoop, partial_scoop-compressed_scoop, compress_pass-Sized, compress_pass-other,
  compress_pass-partial,
}
use pocx.Scheduler.{PlotterTask, Scheduler, Round, active, passes_per_warp, update}
use pocx.Scheduler.Progress.{Progress, Holds, IsTask, IsRound}
use pocx.Scheduler.Invariant.{update_same, update_other, pending, IsFilled, IsCounted, IsRunning}
use pocx.Scheduler.Hashing.{batch-lt, keep-IsUpToDate, pow2-passes}

module _ (task : PlotterTask) (first : ℕ → Progress) where
  module _ (ok : IsTask task) (s : Scheduler) (counted : IsCounted task first 1 s)
      (inside : s.warp_offsets s.path_pointer < task.warps s.path_pointer)
      (room : s.warps_in_buffer < task.escalate)
      (hashed_ok : IsHashed task.address_payload
        (s.seeds s.path_pointer)
        ((s.warp_offsets s.path_pointer * passes_per_warp task + s.pass_in_warp) * compress_batch)
        s.scatter_buf)
      (r : Round) (served : IsRound task r) (buf : List ℕ) (filled : IsFilled task s buf) where
    abbrev pub passed : List ℕ
    passed = compress_pass r.helix_order s.scatter_buf buf s.warps_in_buffer s.pass_in_warp

    no_wrap :
        (s.warp_offsets s.path_pointer * passes_per_warp task + s.pass_in_warp) * compress_batch
          + compress_batch
        ≤ u64_mod
    no_wrap = omega (arith, batch-lt task first ok s counted.pointer inside counted.passes)

    passed-size : length passed ≡ task.escalate * warp_size
    passed-size =
        let seed = counted.seeds s.path_pointer counted.pointer in
        compress_pass-Sized task.address_payload (s.seeds s.path_pointer) ok.payload_size seed.size
          ok.payload_bytes seed.bytes (passes_per_warp task) (s.warp_offsets s.path_pointer)
          s.pass_in_warp no_wrap s.scatter_buf hashed_ok r.helix_order buf served.helix_turns
          task.escalate s.warps_in_buffer filled.holds.size (omega (arith, room))

    pub passed-Holds :
        Holds task (s.seeds s.path_pointer) s.buffer_start_warp s.warps_in_buffer passed
    passed-Holds = record {
      size = passed-size;
      scoops = λ w x y hw hx hy.
          let seed = counted.seeds s.path_pointer counted.pointer in
          compress_pass-other task.address_payload (s.seeds s.path_pointer) ok.payload_size
            seed.size ok.payload_bytes seed.bytes (passes_per_warp task)
            (s.warp_offsets s.path_pointer) s.pass_in_warp no_wrap s.scatter_buf hashed_ok
            r.helix_order buf served.helix_turns task.escalate s.warps_in_buffer filled.holds.size
            (omega (arith, room)) (w * dim + x) y (omega (arith, room)) hy (inl (omega arith))
          ∙ filled.holds.scoops w x y hw hx hy;
    }

    pub passed-partial :
        (x y : ℕ)
        → x < dim
        → y < dim
        → scoop_at passed (task.escalate * dim) (s.warps_in_buffer * dim + x) y
          ≡ partial_scoop task.address_payload
              (s.seeds s.path_pointer)
              (passes_per_warp task)
              (s.warp_offsets s.path_pointer)
              (suc s.pass_in_warp)
              x
              y
    passed-partial x y hx hy =
        let seed = counted.seeds s.path_pointer counted.pointer in
        compress_pass-partial task.address_payload (s.seeds s.path_pointer) ok.payload_size
          seed.size ok.payload_bytes seed.bytes (passes_per_warp task)
          (s.warp_offsets s.path_pointer) s.pass_in_warp no_wrap s.scatter_buf hashed_ok
          r.helix_order buf served.helix_turns task.escalate s.warps_in_buffer filled.holds.size
          (omega (arith, room)) x y hx hy (filled.part x y hx hy)

    abbrev pub passed_over : Scheduler
    passed_over = record s { write_buffer = some passed; pass_in_warp = s.pass_in_warp + 1 }

    -- Between the passes of a warp.
    pub passed_over-IsRunning :
        active task s s.path_pointer ≡ true
        → s.pass_in_warp + 1 < passes_per_warp task
        → IsRunning task first passed_over
    passed_over-IsRunning busy more = record {
      counted = record {
        pointer = counted.pointer;
        passes = more;
        here = counted.here ∙ omega arith;
        others = counted.others;
        offsets = counted.offsets;
        scatter = counted.scatter;
        seeds = counted.seeds;
        buffer = record {
          path = filled.path;
          start = filled.start;
          holds = passed-Holds;
          part = λ x y hx hy. inr (
              passed-partial x y hx hy
              ∙ ap
                  (λ n.
                    partial_scoop task.address_payload (s.seeds s.path_pointer)
                      (passes_per_warp task) (s.warp_offsets s.path_pointer) n x y)
                  {x = suc s.pass_in_warp} {y = s.pass_in_warp + 1} (omega arith));
        };
        writers = λ i hi.
            keep-IsUpToDate task first s passed_over i refl refl refl refl (counted.writers i hi);
      };
      inside = λ e. inside;
      room = room;
      idle = λ e. absurd (ground (arith, e, busy));
      busy = inl busy;
    }

    -- After the last pass the buffer holds one more warp.
    pub passed-whole :
        s.pass_in_warp + 1 ≡ passes_per_warp task
        → Holds task (s.seeds s.path_pointer) s.buffer_start_warp (s.warps_in_buffer + 1) passed
    passed-whole last = record {
      size = passed-size;
      scoops = λ w x y hw hx hy. elim (dec_lt w s.warps_in_buffer) [
        | yes old ↦ passed-Holds.scoops w x y old hx hy
        | no new ↦
            let at_end : w ≡ s.warps_in_buffer = omega arith in
            ap (λ v. scoop_at passed (task.escalate * dim) (v * dim + x) y) at_end
            ∙ passed-partial x y hx hy
            ∙ ap
                (λ n.
                  partial_scoop task.address_payload (s.seeds s.path_pointer) (passes_per_warp task)
                    (s.warp_offsets s.path_pointer) n x y)
                {x = suc s.pass_in_warp} {y = passes_per_warp task} (omega (arith, last))
            ∙ partial_scoop-compressed_scoop task.address_payload (s.seeds s.path_pointer)
                (passes_per_warp task) (s.warp_offsets s.path_pointer) task.compress x y
                (pow2-passes task first ok s counted.pointer inside)
            ∙ ap
                (λ v.
                  compressed_scoop task.address_payload (s.seeds s.path_pointer) y (v * dim + x)
                    task.compress)
                {x = s.warp_offsets s.path_pointer} {y = s.buffer_start_warp + w}
                (omega (arith, filled.start, at_end))
      ];
    }

    -- The variables when the warp is counted.
    abbrev pub grown : Scheduler
    grown = record s {
      write_buffer = some passed;
      pass_in_warp = 0;
      warps_in_buffer = s.warps_in_buffer + 1;
      warp_offsets =
          update s.warp_offsets s.path_pointer ((s.warp_offsets s.path_pointer + 1) % u64_mod);
    }

    pub grown_offset :
        update s.warp_offsets s.path_pointer
          ((s.warp_offsets s.path_pointer + 1) % u64_mod)
          s.path_pointer
        ≡ s.warp_offsets s.path_pointer + 1
    grown_offset =
        update_same s.warp_offsets s.path_pointer _
        ∙ omega (
          arith,
          ok.no_wrap s.path_pointer counted.pointer,
          inside,
          counted.passes,
          mul-le-mul {n₁ = task.warps s.path_pointer} {m₁ = 1} {n₂ = task.warps s.path_pointer}
              {m₂ = passes_per_warp task} (omega arith) (omega (arith, counted.passes)),
        )

    pub grown-inside : grown.warp_offsets s.path_pointer ≤ task.warps s.path_pointer
    grown-inside = omega (arith, grown_offset, inside)

    more_warps : (i : ℕ) → grown.warp_offsets i + pending s i ≡ s.warp_offsets i + pending grown i
    more_warps i = elim (ℕ_discrete s.path_pointer i) [
      | yes e ↦
          subst (λ j. grown.warp_offsets j + pending s j ≡ s.warp_offsets j + pending grown j) e
            (ground (arith, grown_offset))
      | no ne ↦ ground (arith, ne)
    ]

    module _ (last : s.pass_in_warp + 1 ≡ passes_per_warp task) where
      pub grown-IsFilled : IsFilled task grown passed
      grown-IsFilled = record {
        path = filled.path;
        start = omega (arith, filled.start, grown_offset);
        holds = passed-whole last;
        part = λ x y hx hy. inl refl;
      }

      pub grown-IsCounted : IsCounted task first 0 grown
      grown-IsCounted = record {
        pointer = counted.pointer;
        passes = omega (arith, counted.passes);
        here =
            counted.here
            ∙ ap (λ n. (s.warp_offsets s.path_pointer * passes_per_warp task + n) * compress_batch)
                last
            ∙ omega arith
            ∙ ap (λ n. (n * passes_per_warp task + 0) * compress_batch)
                {x = s.warp_offsets s.path_pointer + 1} {y = grown.warp_offsets s.path_pointer}
                (sym grown_offset);
        others = λ i hi ne.
            counted.others i hi ne
            ∙ ap (λ n. n * passes_per_warp task * compress_batch)
                (sym (update_other s.warp_offsets s.path_pointer i _ ne));
        offsets = λ i hi ne a.
            subst (λ n. n < task.warps i) (sym (update_other s.warp_offsets s.path_pointer i _ ne))
              (counted.offsets i hi ne a);
        scatter = counted.scatter;
        seeds = counted.seeds;
        buffer = grown-IsFilled;
        writers = λ i hi.
            keep-IsUpToDate task first s grown i refl refl (more_warps i) refl
              (counted.writers i hi);
      }
