-- ===== src/Quality/Tests.antt =====
-- The theorems about qualities at concrete inputs.
use pocx.Base.{
  leb, if◌then◌else◌, ◌*◌, ◌/◌, ◌%◌, ◌^◌, ℕ, ◌<◌, ◌≤◌, ◌≡◌, refl, List, ◌++◌, replicate,
  replicate-Below, Below, arith,
}
use pocx.Nonce.{num_scoops}
use pocx.Nonce.Generate.{be_bytes}
use pocx.Nonce.Chain.{shabal256_message}
use pocx.Quality.{
  ok, err, invalid_input, find_best_quality_32, generate_scoop, calculate_quality_raw,
  calculate_scoop, calculate_quality_from_height, calculate_best_quality_in_range,
  calculate_next_generation_signature,
}
use pocx.Quality.Best.{IsBest, find_best_quality_32-IsBest}
use pocx.Quality.Scoop.{compressed_scoop}
use pocx.Quality.Layers.{xor_all, layers, generate_scoop-layers}
use pocx.Quality.Messages.{
  low_bits, calculate_scoop-message, calculate_scoop-lt,
  calculate_next_generation_signature-message,
}
use pocx.Quality.Outcome.{
  quality_of, calculate_quality_raw-outcomes, calculate_quality_from_height-quality,
  calculate_best_quality_in_range-outcomes,
}

find_best_quality_32-IsBest_example :
    IsBest
      (replicate 128 3)
      (replicate 32 4)
      2
      (find_best_quality_32 (replicate 128 3) 2 (replicate 32 4))
find_best_quality_32-IsBest_example =
    find_best_quality_32-IsBest (replicate 128 3) (replicate 32 4) 2

abbrev payload : List ℕ
payload = replicate 20 1

abbrev seed : List ℕ
seed = replicate 32 2

abbrev gensig : List ℕ
gensig = replicate 32 4

payload-Below : Below 256 payload
payload-Below = replicate-Below 256 20 (omega arith)

seed-Below : Below 256 seed
seed-Below = replicate-Below 256 32 (omega arith)

gensig-Below : Below 256 gensig
gensig-Below = replicate-Below 256 32 (omega arith)

generate_scoop-layers_example :
    generate_scoop payload seed 42 5000 3
    ≡ ok (
        xor_all
          (replicate 64 0)
          (layers payload seed 42 (5000 % 4096) (2 ^ 3) (2 ^ 3 * (5000 / 4096))))
generate_scoop-layers_example =
    generate_scoop-layers payload seed 42 5000 3 refl refl payload-Below seed-Below (omega arith)
      (omega arith) (omega arith)

calculate_quality_raw-outcomes_example : calculate_quality_raw payload seed 5000 3 42 gensig ≡ (
    if leb num_scoops 42
    then err invalid_input
    else ok (quality_of (compressed_scoop payload seed 42 5000 3) gensig))
calculate_quality_raw-outcomes_example =
    calculate_quality_raw-outcomes payload seed gensig refl refl refl payload-Below seed-Below
      gensig-Below 5000 3 42

calculate_quality_from_height-quality_example :
    calculate_quality_from_height payload seed 5000 3 7 gensig
    ≡ ok (quality_of (compressed_scoop payload seed (calculate_scoop 7 gensig) 5000 3) gensig)
calculate_quality_from_height-quality_example =
    calculate_quality_from_height-quality payload seed gensig refl refl refl payload-Below
      seed-Below gensig-Below 5000 3 7

calculate_best_quality_in_range-outcomes_example :
    (3 < 1 → calculate_best_quality_in_range payload seed 5000 1 3 7 gensig ≡ err invalid_input)
    × (1 ≤ 3
        → (best : ℕ) × (calculate_best_quality_in_range payload seed 5000 1 3 7 gensig ≡ ok best)
          × ((c : ℕ)
              → 1 ≤ c
              → c ≤ 3
              → best
                ≤ quality_of
                    (compressed_scoop payload seed (calculate_scoop 7 gensig) 5000 c)
                    gensig)
          × ((c : ℕ) × (1 ≤ c)
              × (c ≤ 3)
              × (best
                  ≡ quality_of
                      (compressed_scoop payload seed (calculate_scoop 7 gensig) 5000 c)
                      gensig)))
calculate_best_quality_in_range-outcomes_example =
    calculate_best_quality_in_range-outcomes payload seed gensig refl refl refl payload-Below
      seed-Below gensig-Below 5000 1 3 7

calculate_next_generation_signature-message_example :
    calculate_next_generation_signature gensig (replicate 64 5)
    ≡ shabal256_message (gensig ++ replicate 64 5)
calculate_next_generation_signature-message_example =
    calculate_next_generation_signature-message gensig (replicate 64 5) refl refl

calculate_scoop-message_example :
    calculate_scoop 7 gensig ≡ low_bits (shabal256_message (gensig ++ be_bytes 7))
calculate_scoop-message_example = calculate_scoop-message 7 gensig refl

calculate_scoop-lt_example : calculate_scoop 7 gensig < 4096
calculate_scoop-lt_example = calculate_scoop-lt 7 gensig
