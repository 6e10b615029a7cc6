-- ===== src/Plotfile/Read.antt =====
-- What the reads of a plot file return.
use pocx.Base.{
  gt→leb, ℕ, ◌+◌, ◌*◌, ◌^◌, ◌≤◌, ◌<◌, ◌≡◌, ◌⊎◌, inl, inr, refl, ◌∙◌, ap, le→leb, length, some, List,
  arith,
}
use native.Mathlib.Nat.{mul-le-mul}
use pocx.Nonce.{num_scoops}
use pocx.Nonce.Shuffle.{scoop_offset}
use pocx.Nonce.Cache.{scoop_at}
use pocx.Plotfile.{
  file_offset_nonce, PlotFile, read_only, read_write, ok, read_nonce, nonce_data, ◌>>=◌, warp_size,
}
use pocx.Plotfile.Offsets.{file_offset_nonce-outcomes}

inside :
    (w scoop nonce : ℕ)
    → scoop < num_scoops
    → nonce < w * num_scoops
    → scoop_offset (w * num_scoops) 0 nonce scoop + 64 ≤ w * warp_size
inside w scoop nonce hs hn =
    omega (arith, mul-le-mul {n₁ = scoop} {m₁ = w} {n₂ = 4095} {m₂ = w} (omega arith) (omega arith))

-- A file of its full size, open for reading: a nonce of the plot is read from its place in the layout,
-- for less than 2^28 warps.
pub read_nonce-scoop_at :
    (p : PlotFile) (contents : List ℕ) (scoop nonce : ℕ)
    → p.number_of_warps < 2 ^ 28
    → p.file_handle ≡ some contents
    → (p.access ≡ read_only) ⊎ (p.access ≡ read_write)
    → length contents ≡ p.number_of_warps * warp_size
    → scoop < num_scoops
    → nonce < p.number_of_warps * num_scoops
    → read_nonce p scoop nonce ≡ ok (scoop_at contents (p.number_of_warps * num_scoops) nonce scoop)
unfolding read_nonce
read_nonce-scoop_at p contents scoop nonce small handle access size hs hn =
    ap (λ r. r >>= nonce_data p.access p.file_handle) {x = file_offset_nonce p scoop nonce}
      {y = ok offset}
      (file_offset_nonce-outcomes p scoop nonce small
        ∙ rw (gt→leb num_scoops scoop hs, gt→leb (p.number_of_warps * num_scoops) nonce hn) refl)
    ∙ ap (λ h. nonce_data p.access h offset) handle
    ∙ elim access [
      | inl e ↦ ap (λ a. nonce_data a (some contents) offset) e
      | inr e ↦ ap (λ a. nonce_data a (some contents) offset) e
    ]
    ∙ rw
        (le→leb (offset + 64) (length contents)
          (omega (arith, inside p.number_of_warps scoop nonce hs hn)))
        refl
  where
    offset : ℕ
    offset = scoop_offset (p.number_of_warps * num_scoops) 0 nonce scoop
