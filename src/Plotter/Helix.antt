-- ===== src/Plotter/Helix.antt =====
-- The helix: which bytes of the target change, and to what.
use pocx.Base.{
  ℕ, ◌+◌, ◌*◌, ◌/◌, ◌≤◌, ◌<◌, ◌≡◌, ◌≢◌, ◌⊎◌, inl, inr, refl, ◌∙◌, ap, List, length, length-set,
  get_or, set, for_range, for_range-keeps, for_range-once, run, run-once, run-keeps, IsTurns,
  lt→ltb, arith,
}
use native.Mathlib.Decide.{dec_lt}
use pocx.Plotter.Cells.{get_or-set, get_or-set_other, cell_unique, cell-lt}
use pocx.Plotter.{dim, double_hash_size, warp_size, cell, both_bytes, helix_byte, helix_row}

module _ (put : ℕ → ℕ → ℕ) (source : List ℕ) (sw tw warp_offset output_len : ℕ)
    (source_size : length source ≡ sw * warp_size) (pairs : 2 * output_len ≤ sw)
    (room : warp_offset + output_len ≤ tw) where
  abbrev Sized : List ℕ → Type 0
  Sized t = length t ≡ tw * warp_size

  module _ (t : List ℕ) (size : Sized t) (y x w z : ℕ) (hy : y < dim) (hx : x < dim)
      (hw : w < output_len) (hz : z < 64) where
    si : ℕ
    si = cell sw y (x + w * dim * 2) z

    mi : ℕ
    mi = cell sw x (w * dim * 2 + dim + y) z

    ti : ℕ
    ti = cell tw y ((warp_offset + w) * dim + x) z

    helix_byte-set :
        helix_byte put source warp_offset y x w z t
        ≡ set t ti (put (get_or t ti 0) (both_bytes source si mi))
    unfolding helix_byte si mi ti
    helix_byte-set =
        rw (source_warps, target_warps)
          (rw
            (
              lt→ltb si (length source) (
                  omega (arith, source_size, cell-lt sw y (x + w * dim * 2) z hy (omega arith) hz)),
              lt→ltb mi (length source) (
                  omega (
                    arith,
                    source_size,
                    cell-lt sw x (w * dim * 2 + dim + y) z hx (omega arith) hz,
                  )),
              lt→ltb ti (length t) (
                  omega (
                    arith,
                    size,
                    cell-lt tw y ((warp_offset + w) * dim + x) z hy (omega arith) hz,
                  )),
            )
            refl)
      where
        source_warps : length source / warp_size ≡ sw
        source_warps = omega (arith, source_size)

        target_warps : length t / warp_size ≡ tw
        target_warps = omega (arith, size)

    pub length-helix_byte : Sized (helix_byte put source warp_offset y x w z t)
    length-helix_byte = ap length helix_byte-set ∙ length-set t ti _ ∙ size

    -- The byte that is written.
    helix_byte-in :
        get_or (helix_byte put source warp_offset y x w z t) ti 0
        ≡ put (get_or t ti 0) (both_bytes source si mi)
    unfolding ti
    helix_byte-in =
        ap (λ s. get_or s ti 0) helix_byte-set
        ∙ get_or-set t ti _
            (omega (arith, size, cell-lt tw y ((warp_offset + w) * dim + x) z hy (omega arith) hz))

    helix_byte-out :
        (y0 n0 z0 : ℕ)
        → n0 < tw * dim
        → z0 < 64
        → ((y ≡ y0) × ((warp_offset + w) * dim + x ≡ n0) × (z ≡ z0) → ⊥)
        → get_or (helix_byte put source warp_offset y x w z t) (cell tw y0 n0 z0) 0
          ≡ get_or t (cell tw y0 n0 z0) 0
    unfolding ti
    helix_byte-out y0 n0 z0 hn hz0 apart =
        ap (λ s. get_or s (cell tw y0 n0 z0) 0) helix_byte-set
        ∙ get_or-set_other t ti (cell tw y0 n0 z0) _ (λ e.
          apart
            (cell_unique tw y ((warp_offset + w) * dim + x) z y0 n0 z0 (omega arith) hn hz hz0 e))

  abbrev pub byte_loop : ℕ → ℕ → ℕ → List ℕ → List ℕ
  byte_loop y x w t =
      for_range double_hash_size 0 (λ z t3. helix_byte put source warp_offset y x w z t3) t

  abbrev pub warp_loop : ℕ → ℕ → List ℕ → List ℕ
  warp_loop y x t = for_range output_len 0 (λ w t2. byte_loop y x w t2) t

  byte_loop-Sized :
      (y x w : ℕ)
      → y < dim
      → x < dim
      → w < output_len
      → (t : List ℕ) → Sized t
      → Sized (byte_loop y x w t)
  byte_loop-Sized y x w hy hx hw =
      for_range-keeps Sized _ 64 0
        (λ z lo hz s q. length-helix_byte s q y x w z hy hx hw (omega arith))

  warp_loop-Sized : (y x : ℕ) → y < dim → x < dim → (t : List ℕ) → Sized t → Sized (warp_loop y x t)
  warp_loop-Sized y x hy hx =
      for_range-keeps Sized _ output_len 0
        (λ w lo hw s q. byte_loop-Sized y x w hy hx (omega arith) s q)

  helix_row-Sized :
      (y : ℕ)
      → y < dim
      → (t : List ℕ) → Sized t
      → Sized (helix_row put source warp_offset output_len y t)
  unfolding helix_row
  helix_row-Sized y hy =
      for_range-keeps Sized _ 4096 0 (λ x lo hx s q. warp_loop-Sized y x hy (omega arith) s q)

  module _ (y0 n0 z0 : ℕ) (hy0 : y0 < dim) (hn0 : n0 < tw * dim) (hz0 : z0 < 64) where
    abbrev g : List ℕ → ℕ
    g t = get_or t (cell tw y0 n0 z0) 0

    Same : List ℕ → List ℕ → Type 0
    Same t0 t = Sized t × (g t ≡ g t0)

    -- The loops leave the cell where they write no byte of it.
    byte_loop-out :
        (y x w : ℕ)
        → y < dim
        → x < dim
        → w < output_len
        → ((y ≡ y0) × ((warp_offset + w) * dim + x ≡ n0) → ⊥)
        → (t : List ℕ) → Sized t
        → g (byte_loop y x w t) ≡ g t
    unfolding Same
    byte_loop-out y x w hy hx hw apart t q =
        (for_range-keeps (Same t) _ 64 0
          (λ z lo hz s h. (
            length-helix_byte s h.0 y x w z hy hx hw (omega arith),
            helix_byte-out s h.0 y x w z hy hx hw (omega arith) y0 n0 z0 hn0 hz0
                  (λ e. apart (e.0, e.1))
                ∙ h.1,
          ))
          t (q, refl)).1

    warp_loop-out :
        (y x : ℕ)
        → y < dim
        → x < dim
        → ((w : ℕ) → w < output_len → (y ≡ y0) × ((warp_offset + w) * dim + x ≡ n0) → ⊥)
        → (t : List ℕ) → Sized t
        → g (warp_loop y x t) ≡ g t
    unfolding Same
    warp_loop-out y x hy hx apart t q =
        (for_range-keeps (Same t) _ output_len 0
          (λ w lo hw s h. (
            byte_loop-Sized y x w hy hx (omega arith) s h.0,
            byte_loop-out y x w hy hx (omega arith) (apart w (omega arith)) s h.0 ∙ h.1,
          ))
          t (q, refl)).1

    helix_row-out :
        (y : ℕ)
        → y < dim
        → ((x w : ℕ) → x < dim → w < output_len → (y ≡ y0) × ((warp_offset + w) * dim + x ≡ n0) → ⊥)
        → (t : List ℕ) → Sized t
        → g (helix_row put source warp_offset output_len y t) ≡ g t
    unfolding Same helix_row
    helix_row-out y hy apart t q =
        (for_range-keeps (Same t) _ 4096 0
          (λ x lo hx s h. (
            warp_loop-Sized y x hy (omega arith) s h.0,
            warp_loop-out y x hy (omega arith) (λ w. apart x w (omega arith)) s h.0 ∙ h.1,
          ))
          t (q, refl)).1

  -- Outside the warps of the call nothing changes.
  pub helix-out :
      (order : List ℕ)
      → IsTurns dim order
      → (y0 n0 z0 : ℕ) → y0 < dim
      → n0 < tw * dim
      → z0 < 64
      → (n0 < warp_offset * dim) ⊎ ((warp_offset + output_len) * dim ≤ n0)
      → (t : List ℕ) → Sized t
      → get_or (run (helix_row put source warp_offset output_len) order t) (cell tw y0 n0 z0) 0
        ≡ get_or t (cell tw y0 n0 z0) 0
  helix-out order turns y0 n0 z0 hy hn hz side t q =
      run-once Sized (λ s. get_or s (cell tw y0 n0 z0) 0) dim
        (helix_row put source warp_offset output_len) helix_row-Sized (λ v. v) y0
        (λ y hy' ne s q'.
          helix_row-out y0 n0 z0 hy hn hz y hy' (λ x w hx hw e. apart x w hx hw e.1) s q')
        (λ s q'. helix_row-out y0 n0 z0 hy hn hz y0 hy (λ x w hx hw e. apart x w hx hw e.1) s q')
        order turns.below (turns.once y0 hy) t q
    where
      apart : (x w : ℕ) → x < dim → w < output_len → (warp_offset + w) * dim + x ≡ n0 → ⊥
      apart x w hx hw e = elim side [ inl h ↦ absurd (omega arith) | inr h ↦ absurd (omega arith) ]

  pub helix-Sized :
      (order : List ℕ)
      → IsTurns dim order
      → (t : List ℕ) → Sized t
      → Sized (run (helix_row put source warp_offset output_len) order t)
  helix-Sized order turns =
      run-keeps Sized (λ s. length s) dim (helix_row put source warp_offset output_len)
        helix_row-Sized order turns.below

  module _ (y0 x0 w0 z0 : ℕ) (hy0 : y0 < dim) (hx0 : x0 < dim) (hw0 : w0 < output_len)
      (hz0 : z0 < 64) where
    abbrev n_hit : ℕ
    n_hit = (warp_offset + w0) * dim + x0

    abbrev g_hit : List ℕ → ℕ
    g_hit t = get_or t (cell tw y0 n_hit z0) 0

    abbrev h_hit : ℕ → ℕ
    h_hit v = put v (
        both_bytes source (cell sw y0 (x0 + w0 * dim * 2) z0)
          (cell sw x0 (w0 * dim * 2 + dim + y0) z0))

    hn_hit : n_hit < tw * dim
    hn_hit = omega arith

    byte_loop-in : (t : List ℕ) → Sized t → g_hit (byte_loop y0 x0 w0 t) ≡ h_hit (g_hit t)
    unfolding si mi ti
    byte_loop-in =
        for_range-once Sized g_hit h_hit _ 64 0 z0 (omega arith) (omega arith)
          (λ z lo hz s q. length-helix_byte s q y0 x0 w0 z hy0 hx0 hw0 (omega arith))
          (λ z lo hz ne s q.
            helix_byte-out s q y0 x0 w0 z hy0 hx0 hw0 (omega arith) y0 n_hit z0 hn_hit hz0
              (λ e. ne e.2))
          (λ s q. helix_byte-in s q y0 x0 w0 z0 hy0 hx0 hw0 hz0)

    warp_loop-in : (t : List ℕ) → Sized t → g_hit (warp_loop y0 x0 t) ≡ h_hit (g_hit t)
    warp_loop-in =
        for_range-once Sized g_hit h_hit _ output_len 0 w0 (omega arith) (omega arith)
          (λ w lo hw s q. byte_loop-Sized y0 x0 w hy0 hx0 (omega arith) s q)
          (λ w lo hw ne s q.
            byte_loop-out y0 n_hit z0 hy0 hn_hit hz0 y0 x0 w hy0 hx0 (omega arith)
              (λ e. ne (omega (arith, e.1))) s q)
          byte_loop-in

    helix_row-in :
        (t : List ℕ)
        → Sized t
        → g_hit (helix_row put source warp_offset output_len y0 t) ≡ h_hit (g_hit t)
    unfolding helix_row
    helix_row-in =
        for_range-once Sized g_hit h_hit _ 4096 0 x0 (omega arith) (omega arith)
          (λ x lo hx s q. warp_loop-Sized y0 x hy0 (omega arith) s q)
          (λ x lo hx ne s q.
            warp_loop-out y0 n_hit z0 hy0 hn_hit hz0 y0 x hy0 (omega arith)
              (λ w hw e. absurd (omega (arith, e.1, ne_lt x x0 ne))) s q)
          warp_loop-in
      where
        ne_lt : (a b : ℕ) → a ≢ b → (a < b) ⊎ (b < a)
        ne_lt a b ne = elim (dec_lt a b) [ yes p ↦ inl p | no np ↦ inr (omega (arith, ne)) ]

    -- Each byte of the call's warps is that of its scoop with that of the mirror image.
    pub helix-in :
        (order : List ℕ)
        → IsTurns dim order
        → (t : List ℕ) → Sized t
        → g_hit (run (helix_row put source warp_offset output_len) order t) ≡ h_hit (g_hit t)
    helix-in order turns t q =
        run-once Sized g_hit dim (helix_row put source warp_offset output_len) helix_row-Sized h_hit
          y0
          (λ y hy ne s q'.
            helix_row-out y0 n_hit z0 hy0 hn_hit hz0 y hy (λ x w hx hw e. ne e.0) s q')
          helix_row-in order turns.below (turns.once y0 hy0) t q
