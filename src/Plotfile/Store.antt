-- ===== src/Plotfile/Store.antt =====
-- `write_optimised_buffer_into_plotfile`: what is written is there, and the marker says so.
use pocx.Base.{
  ℕ, ◌+◌, ◌-◌, ◌*◌, ◌%◌, u64_mod, ◌^◌, ◌≤◌, ◌<◌, ◌≡◌, ◌≢◌, ◌⊎◌, inl, inr, refl, ◌∙◌, ap, sym, List,
  Option, none, some, true, false, Bool-cases, length, slice, le→ltb, ◌==◌, arith,
}
use mathlib.Core.Option
use native.Mathlib.Nat.{mul-le-mul}
use pocx.Nonce.{num_scoops, scoop_size}
use pocx.Nonce.Shuffle.{scoop_offset}
use pocx.Nonce.Cache.{scoop_at}
use pocx.Plotfile.{
  warp_size, PlotFile, PlotResult, ok, err, resume_gap, read_write, read_resume_info,
  write_resume_info,
}
use pocx.Plotfile.Resume.{read_resume_info-write_resume_info}
use pocx.Plotfile.Slices.{slice-slice}
use pocx.Plotfile.Write.{
  Plot, write_scoops, finalize_plot, close_chunk, or_empty, write_chunk, write_by,
  write_optimised_buffer_into_plotfile,
}
use pocx.Plotfile.Written.{
  scoops_done, scoops_done-Sized, write_scoops-scoops_done, scoops_done-in, scoops_done-other,
}

-- What the file holds after a call that has succeeded, under whichever name.
abbrev pub contents_of : Option (List ℕ) → Option (List ℕ) → Option (List ℕ)
contents_of (some contents) finished = some contents
contents_of none finished = finished

abbrev pub stored : Option (PlotResult (Plot × ℕ)) → Option (List ℕ)
stored none = none
stored (some (err e)) = none
stored (some (ok (q, total))) = contents_of q.file.file_handle q.finished

-- A call and what is done with the file if it succeeds.
abbrev pub followed :
    Option (PlotResult (Plot × ℕ))
    → (Plot → Option (PlotResult (Plot × ℕ)))
    → Option (PlotResult (Plot × ℕ))
followed none f = none
followed (some (err e)) f = some (err e)
followed (some (ok (q, total))) f = f q

module _ (p : Plot) (contents bytes : List ℕ) (start n held : ℕ)
    (access : p.file.access ≡ read_write) (handle : p.file.file_handle ≡ some contents)
    (size : length contents ≡ p.file.number_of_warps * warp_size) (pos : 0 < p.file.number_of_warps)
    (small : p.file.number_of_warps < 2 ^ 28) (bytes_size : length bytes ≡ held * warp_size)
    (enough : n ≤ held) (room : start + n ≤ p.file.number_of_warps)
    (progress : or_empty (read_resume_info p.file) ≡ ok start) where
  filled : List ℕ
  filled =
      scoops_done bytes start n p.file.number_of_warps held bytes_size enough room num_scoops 0
        contents

  opened : PlotFile
  opened = record (p.file) { file_handle = some filled }

  filled-size : length filled ≡ p.file.number_of_warps * warp_size
  unfolding filled
  filled-size =
      scoops_done-Sized bytes start n p.file.number_of_warps held bytes_size enough room contents
        size

  marked_file :
      (after : List ℕ) × (write_resume_info opened (start + n)
        ≡ ok (record opened { file_handle = some after }))
      × (read_resume_info (record opened { file_handle = some after }) ≡ ok (start + n))
      × (length after ≡ length filled)
      × (slice after 0 (length filled - 8) ≡ slice filled 0 (length filled - 8))
  unfolding opened
  marked_file =
      read_resume_info-write_resume_info opened filled (start + n) access refl filled-size pos small
        (omega (arith, room, small))

  after : List ℕ
  after = marked_file.0

  kept :
      (nonce scoop : ℕ)
      → nonce < p.file.number_of_warps * num_scoops
      → scoop < num_scoops
      → (scoop < num_scoops - 1) ⊎ (nonce + 1 < p.file.number_of_warps * num_scoops)
      → scoop_at after (p.file.number_of_warps * num_scoops) nonce scoop
        ≡ scoop_at filled (p.file.number_of_warps * num_scoops) nonce scoop
  unfolding after
  kept nonce scoop hn hs not_last =
      sym (
        slice-slice after 0 (length filled - 8) at 64 at (omega arith) inside
          (omega (arith, marked_file.3)))
      ∙ ap (λ s. slice s at (at + 64)) marked_file.4
      ∙ slice-slice filled 0 (length filled - 8) at 64 at (omega arith) inside (omega arith)
    where
      at : ℕ
      at = scoop_offset (p.file.number_of_warps * num_scoops) 0 nonce scoop

      inside : 0 + (at + 64) ≤ length filled - 8
      inside = elim not_last [
        | inl h ↦ omega (
          arith,
          filled-size,
          hn,
          pos,
          mul-le-mul {n₁ = scoop} {m₁ = p.file.number_of_warps} {n₂ = 4094}
              {m₂ = p.file.number_of_warps} (omega (arith, h)) (omega arith),
        )
        | inr h ↦ omega (
          arith,
          filled-size,
          h,
          pos,
          mul-le-mul {n₁ = scoop} {m₁ = p.file.number_of_warps} {n₂ = 4095}
              {m₂ = p.file.number_of_warps} (omega (arith, hs)) (omega arith),
        )
      ]

  close_chunk-after :
      stored (
        close_chunk true p
          (start + n)
          (num_scoops * (n * num_scoops * scoop_size))
          (some (some filled)))
      ≡ some after
  unfolding close_chunk finalize_plot after opened
  close_chunk-after = elim (Bool-cases (start + n == p.file.number_of_warps)) [
    | inl last ↦ elim (Bool-cases p.is_tmp) [
      | inl tmp ↦ rw (marked_file.1, last, tmp) refl
      | inr final ↦ rw (marked_file.1, last, final) refl
    ]
    | inr more ↦ rw (marked_file.1, more) refl
  ]

  no_wrap : ((start + n) % u64_mod) ≡ start + n
  no_wrap = omega (arith, room, small)

  write_chunk-after : stored (write_chunk true p bytes start n (ok start)) ≡ some after
  unfolding write_chunk filled
  write_chunk-after =
      rw (==_refl start, no_wrap, le→ltb p.file.number_of_warps (start + n) room)
        (ap
            (λ h. stored (
              close_chunk true p (start + n) (num_scoops * (n * num_scoops * scoop_size))
                (write_scoops bytes start n p.file.number_of_warps h)))
            handle
          ∙ ap
              (λ h.
                stored
                  (close_chunk true p (start + n) (num_scoops * (n * num_scoops * scoop_size)) h))
              (write_scoops-scoops_done bytes start n p.file.number_of_warps held bytes_size enough
                room contents size)
          ∙ close_chunk-after)
    where
      ==_refl : (a : ℕ) → (a == a) ≡ true
      ==_refl a = ground arith

  write-after : stored (write_optimised_buffer_into_plotfile true p bytes start n) ≡ some after
  unfolding write_optimised_buffer_into_plotfile
  write-after =
      ap (λ a. stored (write_by a true p bytes start n)) access
      ∙ ap (λ r. stored (write_chunk true p bytes start n r)) progress
      ∙ write_chunk-after

  pub write_optimised_buffer_into_plotfile-stored :
      (c : List ℕ) × (stored (write_optimised_buffer_into_plotfile true p bytes start n) ≡ some c)
      × (length c ≡ p.file.number_of_warps * warp_size)
  unfolding after filled
  write_optimised_buffer_into_plotfile-stored = (after, write-after, marked_file.3 ∙ filled-size)

  -- For a file of its full size that is open for writing with from 1 warp to less than 2^28, whose
  -- progress is where the chunk starts, a buffer of whole warps that holds the chunk, and a file system
  -- that can rename: each scoop of each nonce of the buffer stands in the file at its place, but for
  -- the last scoop of the last nonce of the plot, which makes room for the marker.
  pub write_optimised_buffer_into_plotfile-in :
      (k scoop : ℕ)
      → k < n * num_scoops
      → scoop < num_scoops
      → (scoop < num_scoops - 1)
        ⊎ (start * num_scoops + k + 1 < p.file.number_of_warps * num_scoops)
      → Option.map
          (λ c. scoop_at c (p.file.number_of_warps * num_scoops) (start * num_scoops + k) scoop)
          (stored (write_optimised_buffer_into_plotfile true p bytes start n))
        ≡ some (scoop_at bytes (held * num_scoops) k scoop)
  unfolding filled
  write_optimised_buffer_into_plotfile-in k scoop hk hs not_last =
      ap
        (Option.map
          (λ c. scoop_at c (p.file.number_of_warps * num_scoops) (start * num_scoops + k) scoop))
        write-after
      ∙ ap some (
          kept (start * num_scoops + k) scoop (omega (arith, hk, room)) hs not_last
          ∙ scoops_done-in bytes start n p.file.number_of_warps held bytes_size enough room k scoop
              hk hs contents size)

  -- For a file of its full size that is open for writing with from 1 warp to less than 2^28, whose
  -- progress is where the chunk starts, a buffer of whole warps that holds the chunk, and a file system
  -- that can rename: the nonces that are not in the buffer keep their scoops, with the same exception.
  pub write_optimised_buffer_into_plotfile-other :
      (nonce scoop : ℕ)
      → nonce < p.file.number_of_warps * num_scoops
      → scoop < num_scoops
      → (nonce < start * num_scoops) ⊎ ((start + n) * num_scoops ≤ nonce)
      → (scoop < num_scoops - 1) ⊎ (nonce + 1 < p.file.number_of_warps * num_scoops)
      → Option.map
          (λ c. scoop_at c (p.file.number_of_warps * num_scoops) nonce scoop)
          (stored (write_optimised_buffer_into_plotfile true p bytes start n))
        ≡ some (scoop_at contents (p.file.number_of_warps * num_scoops) nonce scoop)
  unfolding filled
  write_optimised_buffer_into_plotfile-other nonce scoop hn hs outside not_last =
      ap (Option.map (λ c. scoop_at c (p.file.number_of_warps * num_scoops) nonce scoop))
        write-after
      ∙ ap some (
          kept nonce scoop hn hs not_last
          ∙ scoops_done-other bytes start n p.file.number_of_warps held bytes_size enough room nonce
              scoop hn hs outside contents size)

  -- Within the plot the file stays open.
  abbrev continued : Plot
  continued = record p { file = record opened { file_handle = some after } }

  write_chunk-more :
      start + n < p.file.number_of_warps
      → write_chunk true p bytes start n (ok start)
        ≡ some (ok (continued, num_scoops * (n * num_scoops * scoop_size)))
  unfolding write_chunk filled close_chunk opened after
  write_chunk-more more =
      rw (==_refl start, no_wrap, le→ltb p.file.number_of_warps (start + n) room)
        (ap
            (λ h.
              close_chunk true p (start + n) (num_scoops * (n * num_scoops * scoop_size))
                (write_scoops bytes start n p.file.number_of_warps h))
            handle
          ∙ ap (close_chunk true p (start + n) (num_scoops * (n * num_scoops * scoop_size))) (
              write_scoops-scoops_done bytes start n p.file.number_of_warps held bytes_size enough
                room contents size)
          ∙ close_chunk-more)
    where
      ==_refl : (a : ℕ) → (a == a) ≡ true
      ==_refl a = ground arith

      not_last : (start + n == p.file.number_of_warps) ≡ false
      not_last = ground (arith, more)

      close_chunk-more :
          close_chunk true p
            (start + n)
            (num_scoops * (n * num_scoops * scoop_size))
            (some (some filled))
          ≡ some (ok (continued, num_scoops * (n * num_scoops * scoop_size)))
      close_chunk-more = rw (marked_file.1, not_last) refl

  -- For a file of its full size that is open for writing with from 1 warp to less than 2^28, whose
  -- progress is where the chunk starts, a buffer of whole warps that holds the chunk, and a file system
  -- that can rename: after a chunk that does not fill the plot, a next one that does not start where
  -- this one ends is a gap, with both numbers.
  pub write_optimised_buffer_into_plotfile-gap :
      (bytes' : List ℕ) (start' n' : ℕ)
      → start + n < p.file.number_of_warps
      → start' ≢ start + n
      → followed
          (write_optimised_buffer_into_plotfile true p bytes start n)
          (λ q. write_optimised_buffer_into_plotfile true q bytes' start' n')
        ≡ some (err (resume_gap (start + n) start'))
  unfolding write_optimised_buffer_into_plotfile opened write_chunk after marked_file
  write_optimised_buffer_into_plotfile-gap bytes' start' n' more ne =
      ap (λ r. followed r (λ q. write_by q.file.access true q bytes' start' n'))
        (ap (λ a. write_by a true p bytes start n) access
          ∙ ap (write_chunk true p bytes start n) progress
          ∙ write_chunk-more more)
      ∙ ap (λ a. write_by a true continued bytes' start' n') access
      ∙ ap (λ r. write_chunk true continued bytes' start' n' (or_empty r)) marked_file.2
      ∙ rw other refl
    where
      other : (start' == (start + n)) ≡ false
      other = ground (arith, ne)
