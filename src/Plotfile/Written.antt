-- ===== src/Plotfile/Written.antt =====
-- What a written buffer leaves in the file.
use pocx.Base.{
  ℕ, zero, suc, ◌+◌, ◌*◌, ◌/◌, ◌≤◌, ◌<◌, ◌≡◌, ◌≢◌, ◌⊎◌, inl, inr, refl, ◌∙◌, ap, List, none, some,
  length, slice, splice, length-slice, length-splice, for_range, for_range-keeps, for_range-once,
  leb, le→leb, if◌then◌else◌, arith,
}
use native.Mathlib.Nat.{mul-le-mul}
use native.Mathlib.Decide.{dec_lt, ℕ_discrete}
use pocx.Nonce.{num_scoops, scoop_size}
use pocx.Nonce.Shuffle.{scoop_offset}
use pocx.Nonce.Cache.{scoop_at}
use pocx.Plotfile.{warp_size, write_all}
use pocx.Plotfile.Resume.{write_all-inside}
use pocx.Plotfile.Slices.{slice-splice_in, slice-splice_out, slice-slice}
use pocx.Plotfile.Write.{file_offset, write_scoop, write_scoops}

module _ (bytes : List ℕ) (start n total held : ℕ) (size : length bytes ≡ held * warp_size)
    (enough : n ≤ held) (room : start + n ≤ total) where
  abbrev Sized : List ℕ → Type 0
  Sized c = length c ≡ total * warp_size

  abbrev from : ℕ → ℕ
  from y = file_offset y 0 held

  -- The part of the buffer that goes into scoop `y`.
  abbrev part : ℕ → List ℕ
  part y = slice bytes (from y) (from y + n * num_scoops * scoop_size)

  written : ℕ → List ℕ → List ℕ
  written y c = splice c (file_offset y start total) (part y)

  module _ (y : ℕ) (hy : y < num_scoops) where
    part-fits : from y + n * num_scoops * scoop_size ≤ length bytes
    part-fits = omega (
      arith,
      size,
      enough,
      mul-le-mul {n₁ = y} {m₁ = held} {n₂ = 4095} {m₂ = held} (omega arith) (omega arith),
    )

    length-part : length (part y) ≡ n * num_scoops * scoop_size
    length-part = length-slice bytes (from y) _ part-fits ∙ omega arith

    scoop-fits : (c : List ℕ) → Sized c → file_offset y start total + length (part y) ≤ length c
    scoop-fits c q = omega (
      arith,
      q,
      length-part,
      room,
      mul-le-mul {n₁ = y} {m₁ = total} {n₂ = 4095} {m₂ = total} (omega arith) (omega arith),
    )

    written-Sized : (c : List ℕ) → Sized c → Sized (written y c)
    unfolding written
    written-Sized c q = length-splice 0 c (file_offset y start total) (part y) (scoop-fits c q) ∙ q

    write_scoop-written :
        (c : List ℕ)
        → Sized c
        → write_scoop bytes start n total y (some (some c)) ≡ some (some (written y c))
    unfolding write_scoop written
    write_scoop-written c q =
        ap
          (λ h.
            if leb (file_offset y 0 h + n * num_scoops * scoop_size) (length bytes)
            then some (
                some (
                  write_all c (file_offset y start total) (
                    slice bytes (file_offset y 0 h)
                      (file_offset y 0 h + n * num_scoops * scoop_size))))
            else none)
          {x = length bytes / warp_size} {y = held} (omega (arith, size))
        ∙ rw (le→leb (from y + n * num_scoops * scoop_size) (length bytes) part-fits) (
            ap (λ a. some (some a))
              (write_all-inside c (file_offset y start total) (part y) (scoop-fits c q)))

    -- A scoop of the file elsewhere stays.
    written-other :
        (nonce scoop : ℕ)
        → nonce < total * num_scoops
        → scoop < num_scoops
        → (y ≢ scoop) ⊎ ((nonce < start * num_scoops) ⊎ ((start + n) * num_scoops ≤ nonce))
        → (c : List ℕ) → Sized c
        → scoop_at (written y c) (total * num_scoops) nonce scoop
          ≡ scoop_at c (total * num_scoops) nonce scoop
    unfolding written
    written-other nonce scoop hn hs other c q =
        slice-splice_out c (file_offset y start total) (part y)
          (scoop_offset (total * num_scoops) 0 nonce scoop) 64 (scoop-fits c q)
          (omega (
            arith,
            q,
            mul-le-mul {n₁ = scoop} {m₁ = total} {n₂ = 4095} {m₂ = total} (omega arith)
                (omega arith),
          ))
          (side other)
      where
        below : (a b : ℕ) → a < b → (a + 1) * total ≤ b * total
        below a b h =
            mul-le-mul {n₁ = a + 1} {m₁ = total} {n₂ = b} {m₂ = total} (omega arith) (omega arith)

        by_scoop :
            y ≢ scoop
            → (scoop_offset (total * num_scoops) 0 nonce scoop + 64 ≤ file_offset y start total)
              ⊎ (file_offset y start total + length (part y)
                  ≤ scoop_offset (total * num_scoops) 0 nonce scoop)
        by_scoop ne = elim (dec_lt y scoop) [
          | yes p ↦ inr (omega (arith, length-part, room, below y scoop p))
          | no np ↦ inl (omega (arith, hn, below scoop y (omega (arith, np, ne))))
        ]

        by_nonce :
            y ≡ scoop
            → (nonce < start * num_scoops) ⊎ ((start + n) * num_scoops ≤ nonce)
            → (scoop_offset (total * num_scoops) 0 nonce scoop + 64 ≤ file_offset y start total)
              ⊎ (file_offset y start total + length (part y)
                  ≤ scoop_offset (total * num_scoops) 0 nonce scoop)
        by_nonce e (inl h) = inl (omega (arith, h, ap (λ (j : ℕ). j * total) e))
        by_nonce e (inr h) = inr (omega (arith, h, length-part, ap (λ (j : ℕ). j * total) e))

        side :
            (y ≢ scoop) ⊎ ((nonce < start * num_scoops) ⊎ ((start + n) * num_scoops ≤ nonce))
            → (scoop_offset (total * num_scoops) 0 nonce scoop + 64 ≤ file_offset y start total)
              ⊎ (file_offset y start total + length (part y)
                  ≤ scoop_offset (total * num_scoops) 0 nonce scoop)
        side (inl ne) = by_scoop ne
        side (inr h) = elim (ℕ_discrete y scoop) [ yes e ↦ by_nonce e h | no ne ↦ by_scoop ne ]

    -- The scoop of a nonce of the buffer.
    written-in :
        (k : ℕ)
        → k < n * num_scoops
        → (c : List ℕ) → Sized c
        → scoop_at (written y c) (total * num_scoops) (start * num_scoops + k) y
          ≡ scoop_at bytes (held * num_scoops) k y
    unfolding written
    written-in k hk c q =
        slice-splice_in c (file_offset y start total) (part y)
          (scoop_offset (total * num_scoops) 0 (start * num_scoops + k) y) (k * 64) 64
          (scoop-fits c q) (omega arith) (omega (arith, length-part))
        ∙ slice-slice bytes (from y) (from y + n * num_scoops * scoop_size) (k * 64) 64
            (scoop_offset (held * num_scoops) 0 k y) (omega arith) (omega arith) part-fits

  -- What the loop leaves.
  pub scoops_done : ℕ → ℕ → List ℕ → List ℕ
  scoops_done m i c = for_range m i written c

  pub scoops_done-Sized : (c : List ℕ) → Sized c → Sized (scoops_done num_scoops 0 c)
  unfolding scoops_done
  scoops_done-Sized =
      for_range-keeps Sized written num_scoops 0 (λ y lo hy c q. written-Sized y (omega arith) c q)

  for_range-written :
      (m i : ℕ)
      → i + m ≤ num_scoops
      → (c : List ℕ) → Sized c
      → for_range m i (write_scoop bytes start n total) (some (some c))
        ≡ some (some (scoops_done m i c))
  unfolding for_range scoops_done
  for_range-written zero i h c q = refl
  for_range-written (suc m) i h c q =
      ap (for_range m (suc i) (write_scoop bytes start n total))
        (write_scoop-written i (omega arith) c q)
      ∙ for_range-written m (suc i) (omega arith) (written i c) (written-Sized i (omega arith) c q)

  pub write_scoops-scoops_done :
      (c : List ℕ)
      → Sized c
      → write_scoops bytes start n total (some c) ≡ some (some (scoops_done num_scoops 0 c))
  unfolding write_scoops
  write_scoops-scoops_done c q = for_range-written num_scoops 0 (omega arith) c q

  pub scoops_done-in :
      (k scoop : ℕ)
      → k < n * num_scoops
      → scoop < num_scoops
      → (c : List ℕ) → Sized c
      → scoop_at (scoops_done num_scoops 0 c) (total * num_scoops) (start * num_scoops + k) scoop
        ≡ scoop_at bytes (held * num_scoops) k scoop
  unfolding scoops_done
  scoops_done-in k scoop hk hs =
      for_range-once Sized (λ c. scoop_at c (total * num_scoops) (start * num_scoops + k) scoop)
        (λ old. scoop_at bytes (held * num_scoops) k scoop) written num_scoops 0 scoop (omega arith)
        (omega arith) (λ y lo hy c q. written-Sized y (omega arith) c q)
        (λ y lo hy ne c q.
          written-other y (omega arith) (start * num_scoops + k) scoop (omega (arith, room, hk)) hs
            (inl ne) c q)
        (λ c q. written-in scoop hs k hk c q)

  pub scoops_done-other :
      (nonce scoop : ℕ)
      → nonce < total * num_scoops
      → scoop < num_scoops
      → (nonce < start * num_scoops) ⊎ ((start + n) * num_scoops ≤ nonce)
      → (c : List ℕ) → Sized c
      → scoop_at (scoops_done num_scoops 0 c) (total * num_scoops) nonce scoop
        ≡ scoop_at c (total * num_scoops) nonce scoop
  unfolding scoops_done
  scoops_done-other nonce scoop hn hs outside c q =
      (for_range-keeps
        (λ d.
          Sized d
          × (scoop_at d (total * num_scoops) nonce scoop
              ≡ scoop_at c (total * num_scoops) nonce scoop))
        written num_scoops 0
        (λ y lo hy d h. (
          written-Sized y (omega arith) d h.0,
          written-other y (omega arith) nonce scoop hn hs (inr outside) d h.0 ∙ h.1,
        ))
        c (q, refl)).1
