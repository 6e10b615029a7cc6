-- ===== src/Plotfile/Offsets.antt =====
-- Where the reads of a plot file start.
use pocx.Base.{
  ℕ, ◌-◌, ◌*◌, ◌^◌, ◌<◌, ◌≡◌, refl, ap, arith, Bool-cases, leb→gt, leb, if◌then◌else◌, inl, inr,
  ◌∙◌,
}
use native.Mathlib.Nat.{mul-le-mul}
use pocx.Nonce.{num_scoops, scoop_size}
use pocx.Nonce.Shuffle.{scoop_offset}
use pocx.Plotfile.{
  PlotFile, ok, err, invalid_scoop, nonce_out_of_range, scoop_start, file_offset_nonce,
  saturating_mul, saturating_sum,
}

-- Sizes below 2^64 do not saturate.
scoop_start-exact :
    (p : PlotFile) (scoop : ℕ)
    → p.number_of_warps < 2 ^ 28
    → scoop < num_scoops
    → scoop_start p scoop ≡ scoop * p.number_of_warps * num_scoops * scoop_size
scoop_start-exact p scoop small hs = omega (
  arith,
  mul-le-mul {n₁ = scoop} {m₁ = p.number_of_warps} {n₂ = 2 ^ 12} {m₂ = 2 ^ 28} (omega arith)
      (omega arith),
)

-- Below 2^28 warps: a scoop number from 4096 on and a nonce past the end are errors, and else the offset
-- is that of the layout in which the generator fills a cache for all nonces of the plot.
pub file_offset_nonce-outcomes :
    (p : PlotFile) (scoop nonce : ℕ)
    → p.number_of_warps < 2 ^ 28
    → file_offset_nonce p scoop nonce ≡ (
        if leb num_scoops scoop
        then err (invalid_scoop scoop)
        else (if leb (p.number_of_warps * num_scoops) nonce
            then err (nonce_out_of_range nonce (p.number_of_warps * num_scoops - 1))
            else ok (scoop_offset (p.number_of_warps * num_scoops) 0 nonce scoop)))
unfolding file_offset_nonce
file_offset_nonce-outcomes p scoop nonce small = elim (Bool-cases (leb num_scoops scoop)) [
  | inl e ↦ rw e refl
  | inr e ↦
      ap
        (λ m.
          if leb num_scoops scoop
          then err (invalid_scoop scoop)
          else (if leb m nonce
              then err (nonce_out_of_range nonce (m - 1))
              else ok (saturating_sum (scoop_start p scoop) (saturating_mul nonce scoop_size))))
        exact
      ∙ (elim (Bool-cases (leb (p.number_of_warps * num_scoops) nonce)) [
        | inl past ↦ rw (e, past) refl
        | inr lies ↦
            rw (e, lies)
              (ap ok (
                omega (
                  arith,
                  scoop_start-exact p scoop small (omega (arith, leb→gt _ _ e)),
                  leb→gt _ _ e,
                  leb→gt _ _ lies,
                  mul-le-mul {n₁ = scoop} {m₁ = p.number_of_warps} {n₂ = 2 ^ 12} {m₂ = 2 ^ 28}
                      (omega (arith, leb→gt _ _ e)) (omega arith),
                )))
      ])
]
  where
    exact : saturating_mul p.number_of_warps num_scoops ≡ p.number_of_warps * num_scoops
    exact = omega arith
