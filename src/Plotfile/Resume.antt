-- ===== src/Plotfile/Resume.antt =====
-- The resume marker.
use pocx.Base.{
  ℕ, ◌+◌, ◌-◌, ◌*◌, ◌%◌, ◌^◌, ◌≤◌, ◌<◌, ◌≡◌, refl, ◌∙◌, ap, sym, subst, le→leb, length,
  length-splice, length-slice, slice, splice, list-ext, take, drop, take-append, drop-splice,
  get_or-splice_before, append-nil, replicate, some, List, ◌++◌, u32_mod, arith,
}
use pocx.Nonce.Layout.{get_or-slice}
use pocx.Plotfile.{
  PlotFile, read_write, ok, write_all, as_u32_le, as_u8_le, resume_magic, resume_offset, mark,
  marked, resume_marker, resume_info, read_resume_info, write_resume_info, warp_size,
}

slice-splice :
    (xs : List ℕ) (i : ℕ) (ys : List ℕ)
    → i ≤ length xs
    → slice (splice xs i ys) i (i + length ys) ≡ ys
slice-splice xs i ys h =
    ap (take (i + length ys - i)) (drop-splice xs i ys h)
    ∙ ap (λ n. take n (ys ++ drop (i + length ys) xs)) {x = i + length ys - i} {y = length ys}
        (omega arith)
    ∙ take-append ys (drop (i + length ys) xs)

slice-splice_before :
    (xs : List ℕ) (i : ℕ) (ys : List ℕ) (a b : ℕ)
    → b ≤ i
    → i + length ys ≤ length xs
    → slice (splice xs i ys) a b ≡ slice xs a b
slice-splice_before xs i ys a b le h =
    list-ext 0 _ _
      (length-slice (splice xs i ys) a b (omega (arith, length-splice 0 xs i ys h))
        ∙ sym (length-slice xs a b (omega arith)))
      (λ r lt.
        let small : r < b - a =
          omega
            (arith, length-slice (splice xs i ys) a b (omega (arith, length-splice 0 xs i ys h))) in
        get_or-slice (splice xs i ys) a b r small
        ∙ get_or-splice_before 0 xs i ys (a + r) (omega arith) (omega arith)
        ∙ sym (get_or-slice xs a b r small))

pub write_all-inside :
    (contents : List ℕ) (offset : ℕ) (bytes : List ℕ)
    → offset + length bytes ≤ length contents
    → write_all contents offset bytes ≡ splice contents offset bytes
write_all-inside contents offset bytes h =
    ap (λ n. splice (contents ++ replicate n 0) offset bytes)
      {x = offset + length bytes - length contents} {y = 0} (omega arith)
    ∙ ap (λ c. splice c offset bytes) (append-nil contents)

as_u32_le-as_u8_le : (x : ℕ) → x < 2 ^ 32 → as_u32_le (as_u8_le (x % u32_mod)) ≡ x
unfolding as_u32_le as_u8_le
as_u32_le-as_u8_le x h = omega arith

module _ (contents : List ℕ) (offset w : ℕ) (fits : offset + 8 ≤ length contents) where
  number : List ℕ
  number = as_u8_le (w % u32_mod)

  length-number : length number ≡ 4
  unfolding number as_u8_le
  length-number = refl

  once : List ℕ
  once = splice contents offset number

  length-once : length once ≡ length contents
  unfolding once
  length-once = length-splice 0 contents offset number (omega (arith, length-number))

  twice : List ℕ
  twice = splice once (offset + 4) resume_magic

  length-twice : length twice ≡ length contents
  unfolding twice
  length-twice =
      length-splice 0 once (offset + 4) resume_magic (omega (arith, length-once)) ∙ length-once

  mark-twice : mark (some contents) offset w ≡ some twice
  unfolding twice once number
  mark-twice = ap some (
      ap (λ c. write_all c (offset + 4) resume_magic)
        (write_all-inside contents offset number (omega (arith, length-number)))
      ∙ write_all-inside once (offset + 4) resume_magic (omega (arith, length-once)))

  marker-number : slice twice offset (offset + 4) ≡ number
  unfolding twice once
  marker-number =
      slice-splice_before once (offset + 4) resume_magic offset (offset + 4) (omega arith)
        (omega (arith, length-once))
      ∙ ap (λ n. slice once offset (offset + n)) (sym length-number)
      ∙ slice-splice contents offset number (omega arith)

  marker-magic : slice twice (offset + 4) (offset + 4 + 4) ≡ resume_magic
  unfolding twice
  marker-magic = slice-splice once (offset + 4) resume_magic (omega (arith, length-once))

  before-kept : slice twice 0 offset ≡ slice contents 0 offset
  unfolding twice once
  before-kept =
      slice-splice_before once (offset + 4) resume_magic 0 offset (omega arith)
        (omega (arith, length-once))
      ∙ slice-splice_before contents offset number 0 offset (omega arith)
          (omega (arith, length-number))

  resume_marker-twice : w < 2 ^ 32 → resume_marker (some twice) offset ≡ ok w
  unfolding number
  resume_marker-twice h =
      rw
        (
          le→leb (offset + 4) (length twice) (omega (arith, length-twice)),
          le→leb (offset + 4 + 4) (length twice) (omega (arith, length-twice)),
          marker-magic,
          marker-number,
        )
        (ap ok (as_u32_le-as_u8_le w h))

-- A file of its full size that is open for writing: the progress that is written is the progress that
-- is read again, the size stays, and so do all bytes before the last 8, for a progress below 2^32 and
-- from 1 warp to less than 2^28.
pub read_resume_info-write_resume_info :
    (p : PlotFile) (contents : List ℕ) (warps_written : ℕ)
    → p.access ≡ read_write
    → p.file_handle ≡ some contents
    → length contents ≡ p.number_of_warps * warp_size
    → 0 < p.number_of_warps
    → p.number_of_warps < 2 ^ 28
    → warps_written < 2 ^ 32
    → (after : List ℕ) × (write_resume_info p warps_written
        ≡ ok (record p { file_handle = some after }))
      × (read_resume_info (record p { file_handle = some after }) ≡ ok warps_written)
      × (length after ≡ length contents)
      × (slice after 0 (length contents - 8) ≡ slice contents 0 (length contents - 8))
unfolding read_resume_info write_resume_info
read_resume_info-write_resume_info p contents w access handle size pos small hw = (
  twice contents offset w fits,
  ap (λ a. marked a p w) access
      ∙ ap (λ h. ok (record p { file_handle = h }))
          (ap (λ h. mark h offset w) handle ∙ mark-twice contents offset w fits),
  ap (λ a. resume_info a (some (twice contents offset w fits)) offset) access
      ∙ resume_marker-twice contents offset w fits hw,
  length-twice contents offset w fits,
  subst (λ n. slice (twice contents offset w fits) 0 n ≡ slice contents 0 n) {x = offset}
      {y = length contents - 8} (omega (arith, size)) (before-kept contents offset w fits),
)
  where
    offset : ℕ
    offset = resume_offset p

    fits : offset + 8 ≤ length contents
    fits = omega (arith, size)
