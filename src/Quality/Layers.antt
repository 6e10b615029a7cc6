-- ===== src/Quality/Layers.antt =====
-- pocx_hashlib/src/lib.rs, `generate_scoop`: the compressed scoop as a list of scoops of the plot format.
-- A plot of compression c stands for 2^c warps of uncompressed nonces for each of its own.
use pocx.Base.{
  ℕ, zero, suc, ◌+◌, ◌*◌, ◌/◌, ◌%◌, ◌^◌, ◌≤◌, ◌<◌, ◌≡◌, refl, ◌∙◌, ap, ap₂, List, [], ◌∷◌, length,
  replicate, Below, u64_mod, ◌==◌, if◌then◌else◌, arith,
}
use native.Mathlib.Nat.{pow-le-pow_right}
use pocx.Nonce.{scoop_size}
use pocx.Nonce.Chain.{base, nonce_bytes}
use pocx.Nonce.Messages.{base-Below}
use pocx.Nonce.Halves.{halves, nonce_scoop-halves}
use pocx.Nonce.Cache.{nonce_scoop}
use pocx.Quality.{ok, xor_bytes, pow2, generate_scoop}
use pocx.Quality.Scoop.{xor_blocks, contribution, compressed_scoop, generate_scoop-compressed_scoop}

-- The exclusive or of blocks, added to the first one.
abbrev pub xor_all : List ℕ → List (List ℕ) → List ℕ
xor_all acc [] = acc
xor_all acc (b ∷ bs) = xor_all (xor_bytes acc b) bs

-- Scoop `scoop` of nonce `position` of an uncompressed warp.
abbrev pub warp_scoop : List ℕ → List ℕ → ℕ → ℕ → ℕ → List ℕ
warp_scoop payload seed warp position scoop =
    halves (nonce_bytes (base payload seed (4096 * warp + position))) scoop

-- The blocks of `n` warps from `warp` on: from one warp the scoop of the nonce, from the next the mirrored
-- one, where scoop and position change places, and so on in turn.
abbrev pub layers : List ℕ → List ℕ → ℕ → ℕ → ℕ → ℕ → List (List ℕ)
layers payload seed scoop position zero warp = []
layers payload seed scoop position (suc zero) warp =
    warp_scoop payload seed warp position scoop ∷ []
layers payload seed scoop position (suc (suc n)) warp =
    warp_scoop payload seed warp position scoop
    ∷ warp_scoop payload seed (suc warp) scoop position
    ∷ layers payload seed scoop position n (suc (suc warp))

nonce_x_even :
    (first j position scoop : ℕ)
    → (first + 2 * j + 1) * 4096 ≤ u64_mod
    → position < 4096
    → ((first + 2 * j) * 4096 + (if (2 * j % 2) == 0 then position else scoop)) % u64_mod
      ≡ 4096 * (first + 2 * j) + position
nonce_x_even first j position scoop small hp = ground arith

nonce_x_odd :
    (first j position scoop : ℕ)
    → (first + suc (2 * j) + 1) * 4096 ≤ u64_mod
    → scoop < 4096
    → ((first + suc (2 * j)) * 4096 + (if (suc (2 * j) % 2) == 0 then position else scoop))
        % u64_mod
      ≡ 4096 * suc (first + 2 * j) + scoop
nonce_x_odd first j position scoop small hs = ground arith

scoop_x_even : (j position scoop : ℕ) → (if (2 * j % 2) == 0 then scoop else position) ≡ scoop
scoop_x_even j position scoop = ground arith

scoop_x_odd :
    (j position scoop : ℕ) → (if (suc (2 * j) % 2) == 0 then scoop else position) ≡ position
scoop_x_odd j position scoop = ground arith

module _ (payload seed : List ℕ) (len_payload : length payload ≡ 20) (len_seed : length seed ≡ 32)
    (b_payload : Below 256 payload) (b_seed : Below 256 seed) (scoop nonce : ℕ)
    (hs : scoop < 4096) where
  numbered-halves :
      (n s : ℕ)
      → s < 4096
      → nonce_scoop (base payload seed n) s ≡ halves (nonce_bytes (base payload seed n)) s
  numbered-halves n s h =
      nonce_scoop-halves (base payload seed n)
        (base-Below payload seed n len_payload len_seed b_payload b_seed) s h

  contribution_even :
      (count j : ℕ)
      → (count * (nonce / 4096) + 2 * j + 1) * 4096 ≤ u64_mod
      → contribution payload seed scoop nonce count (2 * j)
        ≡ warp_scoop payload seed (count * (nonce / 4096) + 2 * j) (nonce % 4096) scoop
  contribution_even count j small =
      ap₂ (λ n s. nonce_scoop (base payload seed n) s)
        (nonce_x_even (count * (nonce / 4096)) j (nonce % 4096) scoop small (omega arith))
        (scoop_x_even j (nonce % 4096) scoop)
      ∙ numbered-halves (4096 * (count * (nonce / 4096) + 2 * j) + nonce % 4096) scoop hs

  contribution_odd :
      (count j : ℕ)
      → (count * (nonce / 4096) + suc (2 * j) + 1) * 4096 ≤ u64_mod
      → contribution payload seed scoop nonce count (suc (2 * j))
        ≡ warp_scoop payload seed (suc (count * (nonce / 4096) + 2 * j)) scoop (nonce % 4096)
  contribution_odd count j small =
      ap₂ (λ n s. nonce_scoop (base payload seed n) s)
        (nonce_x_odd (count * (nonce / 4096)) j (nonce % 4096) scoop small hs)
        (scoop_x_odd j (nonce % 4096) scoop)
      ∙ numbered-halves (4096 * suc (count * (nonce / 4096) + 2 * j) + scoop) (nonce % 4096)
          (omega arith)

  xor_blocks-layers :
      (count n j : ℕ) (acc : List ℕ)
      → (count * (nonce / 4096) + 2 * j + n) * 4096 ≤ u64_mod
      → xor_blocks (contribution payload seed scoop nonce count) n (2 * j) acc
        ≡ xor_all acc (layers payload seed scoop (nonce % 4096) n (count * (nonce / 4096) + 2 * j))
  unfolding xor_blocks
  xor_blocks-layers count zero j acc small = refl
  xor_blocks-layers count (suc zero) j acc small =
      ap (xor_bytes acc) (contribution_even count j (omega arith))
  xor_blocks-layers count (suc (suc n)) j acc small =
      ap₂
        (λ a b.
          xor_blocks (contribution payload seed scoop nonce count) n (suc (suc (2 * j)))
            (xor_bytes (xor_bytes acc a) b))
        (contribution_even count j (omega arith)) (contribution_odd count j (omega arith))
      ∙ ap
          (λ i. xor_blocks (contribution payload seed scoop nonce count) n i (
            xor_bytes
              (xor_bytes acc
                (warp_scoop payload seed (count * (nonce / 4096) + 2 * j) (nonce % 4096) scoop))
              (warp_scoop payload seed (suc (count * (nonce / 4096) + 2 * j)) scoop
                (nonce % 4096))))
          {x = suc (suc (2 * j))} {y = 2 * suc j} (omega arith)
      ∙ xor_blocks-layers count n (suc j) _ (omega arith)
      ∙ ap
          (λ w.
            xor_all
              (xor_bytes
                (xor_bytes acc
                  (warp_scoop payload seed (count * (nonce / 4096) + 2 * j) (nonce % 4096) scoop))
                (warp_scoop payload seed (suc (count * (nonce / 4096) + 2 * j)) scoop
                  (nonce % 4096)))
              (layers payload seed scoop (nonce % 4096) n w))
          {x = count * (nonce / 4096) + 2 * suc j} {y = suc (suc (count * (nonce / 4096) + 2 * j))}
          (omega arith)

pow2-pow : (c : ℕ) → c < 64 → pow2 c ≡ 2 ^ c
pow2-pow c h = omega (arith, pow-le-pow_right {n = 2} (omega arith) {i = c} {j = 63} (omega arith))

-- The generated scoop is the exclusive or of 2^compression scoops of the plot format, one of each warp
-- that the warp of the nonce stands for: in turn the scoop of the nonce, and the mirrored one, where the
-- scoop's number and the nonce's position in its warp change places; a scoop has its two halves in the
-- chain of hashes of its nonce. For a compression below 64, a scoop
-- number below 4096, a payload of 20 bytes, a seed of 32, and warps whose nonces are numbered within u64.
pub generate_scoop-layers :
    (payload seed : List ℕ) (scoop nonce compression : ℕ)
    → length payload ≡ 20
    → length seed ≡ 32
    → Below 256 payload
    → Below 256 seed
    → scoop < 4096
    → compression < 64
    → (2 ^ compression * (nonce / 4096) + 2 ^ compression) * 4096 ≤ u64_mod
    → generate_scoop payload seed scoop nonce compression
      ≡ ok (
          xor_all (replicate 64 0) (
            layers payload seed scoop
              (nonce % 4096)
              (2 ^ compression)
              (2 ^ compression * (nonce / 4096))))
unfolding compressed_scoop
generate_scoop-layers payload seed scoop nonce compression lp ls bp bs hs hc small =
    generate_scoop-compressed_scoop payload seed lp ls bp bs scoop nonce hs compression
    ∙ ap ok (
        ap
          (λ c.
            xor_blocks (contribution payload seed scoop nonce c) c (2 * 0) (replicate scoop_size 0))
          (pow2-pow compression hc)
        ∙ xor_blocks-layers payload seed lp ls bp bs scoop nonce hs (2 ^ compression)
            (2 ^ compression) 0 (replicate 64 0) (omega arith)
        ∙ ap
            (λ w.
              xor_all (replicate 64 0)
                (layers payload seed scoop (nonce % 4096) (2 ^ compression) w))
            {x = 2 ^ compression * (nonce / 4096) + 2 * 0} {y = 2 ^ compression * (nonce / 4096)}
            (omega arith))
