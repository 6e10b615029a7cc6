-- ===== src/Scheduler/Flush.antt =====
-- What is sent at the end of a warp.
use pocx.Base.{
  ℕ, zero, suc, ◌+◌, ◌-◌, ◌*◌, ◌^◌, ◌≤◌, ◌<◌, ◌≡◌, ◌≢◌, ◌⊎◌, inl, inr, refl, ◌∙◌, sym, subst, List,
  ◌∷◌, none, true, false, length, ◌==◌, Bool-cases, arith,
}
use native.Mathlib.Nat.{pow-suc}
use native.Mathlib.Decide.{ℕ_discrete}
use pocx.Nonce.{nonce_size}
use pocx.Plotter.{compress_batch}
use pocx.Scheduler.{
  PlotterTask, WriterTask, process_task, Scheduler, active, all_done, passes_per_warp, update,
  move_on,
}
use pocx.Scheduler.Progress.{Progress, Written, elsewhere, wrote, advance, IsSeed, IsTask}
use pocx.Scheduler.Invariant.{
  update_same, update_other, IsFilled, IsBuffer, IsCounted, IsRunning, IsSent,
}

pub pow-positive : (n : ℕ) → 0 < 2 ^ n
pow-positive zero = omega arith
pow-positive (suc n) = omega (arith, pow-suc 2 n, pow-positive n)

advance_whole :
    (warps n : ℕ) (seed : List ℕ) (p : Progress)
    → p.offset + n ≡ warps
    → advance warps n seed p ≡ record { files = suc p.files; offset = 0; seed = seed }
advance_whole warps n seed p e = elim (Bool-cases (p.offset + n == warps)) [
  | inl t ↦ rw t refl
  | inr t ↦ absurd (ground (arith, e, t))
]

advance_part :
    (warps n : ℕ) (seed : List ℕ) (p : Progress)
    → p.offset + n ≢ warps
    → advance warps n seed p ≡ record { files = p.files; offset = p.offset + n; seed = seed }
advance_part warps n seed p ne = elim (Bool-cases (p.offset + n == warps)) [
  | inl t ↦ absurd (ground (arith, ne, t))
  | inr t ↦ rw t refl
]

module _ (task : PlotterTask) (first : ℕ → Progress) where
  -- The writer of path `i` has all that the counters say.
  pub record IsLevel (s : Scheduler) (i : ℕ) : Type 0 where
    pub at : Progress
    pub written : Written task i (first i) s.sent at
    pub files : at.files ≡ s.files_done i
    pub offset : at.offset ≡ s.warp_offsets i
    pub seed : (at.offset ≡ 0) ⊎ (at.seed ≡ s.seeds i)

  -- No buffer is at hand, and every path is at a whole warp.
  pub record IsCleared (s : Scheduler) : Type 0 where
    pub no_buffer : s.write_buffer ≡ none
    pub no_warps : s.warps_in_buffer ≡ 0
    pub no_pass : s.pass_in_warp ≡ 0
    pub nonces :
        (i : ℕ)
        → i < task.num_paths
        → s.global_nonces i ≡ s.warp_offsets i * passes_per_warp task * compress_batch
    pub offsets :
        (i : ℕ) → i < task.num_paths → active task s i ≡ true → s.warp_offsets i < task.warps i
    pub scatter : length s.scatter_buf ≡ compress_batch * nonce_size
    pub seeds : (i : ℕ) → i < task.num_paths → IsSeed (s.seeds i)
    pub writers : (i : ℕ) → i < task.num_paths → IsLevel s i

  pub IsCleared-IsRunning :
      IsTask task
      → (s : Scheduler) → IsCleared s
      → s.path_pointer < task.num_paths
      → (active task s s.path_pointer ≡ true) ⊎ (all_done task s task.num_paths ≡ true)
      → IsRunning task first s
  IsCleared-IsRunning ok s c pointer busy = record {
    counted = record {
      pointer = pointer;
      passes = omega (arith, c.no_pass, pow-positive (task.compress - 1));
      here = c.nonces s.path_pointer pointer ∙ omega (arith, c.no_pass);
      others = λ i hi ne. c.nonces i hi;
      offsets = λ i hi ne. c.offsets i hi;
      scatter = c.scatter;
      seeds = c.seeds;
      buffer = subst (IsBuffer task s) (sym c.no_buffer) (c.no_warps, c.no_pass);
      writers = λ i hi.
          let u = c.writers i hi in
          record {
            at = u.at;
            written = u.written;
            files = u.files;
            offset = ground (arith, u.offset, c.no_warps);
            seed = u.seed;
          };
    };
    inside = c.offsets s.path_pointer pointer;
    room = omega (arith, c.no_warps, ok.buffers);
    idle = λ e. c.no_buffer;
    busy = busy;
  }

  module _ (ok : IsTask task) (s : Scheduler) (counted : IsCounted task first 0 s)
      (inside : s.warp_offsets s.path_pointer ≤ task.warps s.path_pointer)
      (some_warps : 0 < s.warps_in_buffer) (buf : List ℕ) (filled : IsFilled task s buf) where
    abbrev pub task_of : WriterTask
    task_of =
        process_task buf (s.seeds s.path_pointer) s.buffer_start_warp s.warps_in_buffer
          (task.warps s.path_pointer)

    -- What has been sent when the writer has taken the buffer.
    abbrev pub flushed : Scheduler
    flushed = record s {
      write_buffer = none;
      warps_in_buffer = 0;
      buffer_start_warp = s.warp_offsets s.path_pointer;
      sent = (s.buffer_path, task_of) ∷ s.sent;
    }

    open (counted.writers s.path_pointer counted.pointer) use {at, written, offset, seed}

    before : at.offset + s.warps_in_buffer ≡ s.warp_offsets s.path_pointer
    before = ground (arith, offset)

    flushed-here :
        Written task s.path_pointer
          (first s.path_pointer)
          flushed.sent
          (advance (task.warps s.path_pointer) s.warps_in_buffer (s.seeds s.path_pointer) at)
    flushed-here =
        subst
          (λ j.
            Written task s.path_pointer (first s.path_pointer) ((j, task_of) ∷ s.sent)
              (advance (task.warps s.path_pointer) s.warps_in_buffer (s.seeds s.path_pointer) at))
          (sym filled.path)
          (wrote buf (s.seeds s.path_pointer) s.buffer_start_warp s.warps_in_buffer s.sent at _
            written (elim seed [ inl e ↦ inl e | inr e ↦ inr (sym e) ])
            (omega (arith, before, filled.start)) some_warps (omega (arith, filled.start, inside))
            filled.holds refl)

    flushed-there :
        (i : ℕ)
        → s.path_pointer ≢ i
        → (p : Progress) → Written task i (first i) s.sent p
        → Written task i (first i) flushed.sent p
    flushed-there i ne p w =
        elsewhere s.buffer_path task_of s.sent p (λ e. ne (sym filled.path ∙ e)) w

    pub flushed-IsSent : IsSent task first flushed
    flushed-IsSent i hi = elim (ℕ_discrete s.path_pointer i) [
      | yes e ↦ (
        _,
        subst
            (λ j.
              Written task j (first j) flushed.sent
                (advance (task.warps s.path_pointer) s.warps_in_buffer (s.seeds s.path_pointer) at))
            e flushed-here,
      )
      | no ne ↦ ((counted.writers i hi).at, flushed-there i ne _ (counted.writers i hi).written)
    ]

    -- Within a file.
    module _ (no_pass : s.pass_in_warp ≡ 0)
        (not_boundary : s.warp_offsets s.path_pointer ≢ task.warps s.path_pointer) (p : ℕ) where
      abbrev moved : Scheduler
      moved = move_on false p flushed

      here-IsLevel : IsLevel moved s.path_pointer
      unfolding move_on
      here-IsLevel = record {
        at = record {
          files = at.files;
          offset = at.offset + s.warps_in_buffer;
          seed = s.seeds s.path_pointer;
        };
        written =
            subst (Written task s.path_pointer (first s.path_pointer) flushed.sent)
              (advance_part _ _ _ at (λ e. not_boundary (omega (arith, before, e)))) flushed-here;
        files = (counted.writers s.path_pointer counted.pointer).files;
        offset = before;
        seed = inr refl;
      }

      there-IsLevel : (i : ℕ) → i < task.num_paths → s.path_pointer ≢ i → IsLevel moved i
      unfolding move_on
      there-IsLevel i hi ne =
          let u = counted.writers i hi in
          record {
            at = u.at;
            written = flushed-there i ne u.at u.written;
            files = u.files;
            offset = ground (arith, u.offset, ne);
            seed = u.seed;
          }

      pub moved-IsCleared : IsCleared moved
      unfolding move_on
      moved-IsCleared = record {
        no_buffer = refl;
        no_warps = refl;
        no_pass = no_pass;
        nonces = λ i hi. elim (ℕ_discrete s.path_pointer i) [
          | yes e ↦
              subst
                (λ j. s.global_nonces j ≡ s.warp_offsets j * passes_per_warp task * compress_batch)
                e (counted.here ∙ omega (arith, no_pass))
          | no ne ↦ counted.others i hi ne
        ];
        offsets = λ i hi a. elim (ℕ_discrete s.path_pointer i) [
          | yes e ↦
              subst (λ j. s.warp_offsets j < task.warps j) e (omega (arith, inside, not_boundary))
          | no ne ↦ counted.offsets i hi ne a
        ];
        scatter = counted.scatter;
        seeds = counted.seeds;
        writers = λ i hi. elim (ℕ_discrete s.path_pointer i) [
          | yes e ↦ subst (IsLevel moved) e here-IsLevel
          | no ne ↦ there-IsLevel i hi ne
        ];
      }

    -- At the end of a file, whatever seeds are drawn.
    module _ (no_pass : s.pass_in_warp ≡ 0)
        (boundary : s.warp_offsets s.path_pointer ≡ task.warps s.path_pointer) (seeds' : ℕ → List ℕ)
        (seeds_ok : (i : ℕ) → i < task.num_paths → IsSeed (seeds' i))
        (same_seeds : (i : ℕ) → s.path_pointer ≢ i → seeds' i ≡ s.seeds i) (drawn' p : ℕ) where
      abbrev closed : Scheduler
      closed = move_on true p (record flushed {
        files_done = update s.files_done s.path_pointer (s.files_done s.path_pointer + 1);
        seeds = seeds';
        drawn = drawn';
      })

      closed_here : IsLevel closed s.path_pointer
      unfolding move_on
      closed_here = record {
        at = record { files = suc at.files; offset = 0; seed = s.seeds s.path_pointer };
        written =
            subst (Written task s.path_pointer (first s.path_pointer) flushed.sent)
              (advance_whole _ _ _ at (omega (arith, before, boundary))) flushed-here;
        files = sym (
            update_same s.files_done s.path_pointer _
            ∙ omega (arith, (counted.writers s.path_pointer counted.pointer).files));
        offset = sym (update_same s.warp_offsets s.path_pointer 0);
        seed = inl refl;
      }

      closed_there : (i : ℕ) → i < task.num_paths → s.path_pointer ≢ i → IsLevel closed i
      unfolding move_on
      closed_there i hi ne =
          let u = counted.writers i hi in
          record {
            at = u.at;
            written = flushed-there i ne u.at u.written;
            files = u.files ∙ sym (update_other s.files_done s.path_pointer i _ ne);
            offset = ground (arith, u.offset, ne);
            seed = subst (λ z. (u.at.offset ≡ 0) ⊎ (u.at.seed ≡ z)) (sym (same_seeds i ne)) u.seed;
          }

      pub closed-IsCleared : IsCleared closed
      unfolding move_on
      closed-IsCleared = record {
        no_buffer = refl;
        no_warps = refl;
        no_pass = no_pass;
        nonces = λ i hi. elim (ℕ_discrete s.path_pointer i) [
          | yes e ↦ ground (arith, e)
          | no ne ↦ ground (arith, ne, counted.others i hi ne)
        ];
        offsets = λ i hi a. elim (ℕ_discrete s.path_pointer i) [
          | yes e ↦ ground (arith, e, ok.whole i hi)
          | no ne ↦ ground (arith, ne, counted.offsets i hi ne, a)
        ];
        scatter = counted.scatter;
        seeds = seeds_ok;
        writers = λ i hi. elim (ℕ_discrete s.path_pointer i) [
          | yes e ↦ subst (IsLevel closed) e closed_here
          | no ne ↦ closed_there i hi ne
        ];
      }
