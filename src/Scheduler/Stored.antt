-- ===== src/Scheduler/Stored.antt =====
-- From the write buffers of the scheduler to the plot file: what is stored is what a validator generates.
use pocx.Base.{
  ℕ, ◌+◌, ◌-◌, ◌*◌, ◌/◌, ◌%◌, ◌^◌, ◌≤◌, ◌<◌, ◌≡◌, ◌⊎◌, refl, ◌∙◌, ap, sym, List, Option, some, none,
  true, length, arith,
}
use mathlib.Core.Option
use pocx.Nonce.{num_scoops}
use pocx.Nonce.Cache.{scoop_at}
use pocx.Quality.{ok, generate_scoop}
use pocx.Quality.Scoop.{compressed_scoop, generate_scoop-compressed_scoop}
use pocx.Plotfile.{warp_size, read_write, read_resume_info}
use pocx.Plotfile
use pocx.Plotfile.Write.{Plot, or_empty, write_optimised_buffer_into_plotfile}
use pocx.Plotfile.Store.{stored, write_optimised_buffer_into_plotfile-in}
use pocx.Scheduler.{PlotterTask}
use pocx.Scheduler.Progress.{Holds, IsTask, IsSeed}

-- A write buffer of the scheduler is stored: each scoop of each of its nonces is in the file what
-- `generate_scoop` computes from the address, the seed and the number of the nonce alone, but for the last
-- scoop of the last nonce of the plot. For a task as in `IsTask`, a buffer as the scheduler sends it, a
-- file of its full size that is open for writing with from 1 warp to less than 2^28, whose progress is
-- where the buffer starts, and a file system that can rename.
pub stored-generate_scoop :
    (task : PlotterTask) (seed buf : List ℕ) (start n : ℕ) (p : Plot) (contents : List ℕ)
    (k scoop : ℕ)
    → IsTask task
    → IsSeed seed
    → Holds task seed start n buf
    → n ≤ task.escalate
    → p.file.access ≡ read_write
    → p.file.file_handle ≡ some contents
    → length contents ≡ p.file.number_of_warps * warp_size
    → 0 < p.file.number_of_warps
    → p.file.number_of_warps < 2 ^ 28
    → start + n ≤ p.file.number_of_warps
    → or_empty (read_resume_info p.file) ≡ Plotfile.ok start
    → k < n * num_scoops
    → scoop < num_scoops
    → (scoop < num_scoops - 1) ⊎ (start * num_scoops + k + 1 < p.file.number_of_warps * num_scoops)
    → Option.map
        (λ c. ok (scoop_at c (p.file.number_of_warps * num_scoops) (start * num_scoops + k) scoop))
        (stored (write_optimised_buffer_into_plotfile true p buf start n))
      ≡ some (generate_scoop task.address_payload seed scoop (start * num_scoops + k) task.compress)
stored-generate_scoop task seed buf start n p contents k scoop ok_task ok_seed holds enough access
      handle size pos small room progress hk hs not_last =
    map-map (stored (write_optimised_buffer_into_plotfile true p buf start n))
    ∙ ap (Option.map ok) (
        write_optimised_buffer_into_plotfile-in p contents buf start n task.escalate access handle
          size pos small (holds.size ∙ omega arith) enough room progress k scoop hk hs not_last)
    ∙ ap (λ s. some (ok s))
        (ap (λ j. scoop_at buf (task.escalate * num_scoops) j scoop) {x = k}
            {y = k / num_scoops * num_scoops + k % num_scoops} (omega arith)
          ∙ holds.scoops (k / num_scoops) (k % num_scoops) scoop (omega (arith, hk)) (omega arith)
              hs
          ∙ ap (λ j. compressed_scoop task.address_payload seed scoop j task.compress)
              {x = (start + k / num_scoops) * num_scoops + k % num_scoops}
              {y = start * num_scoops + k} (omega arith))
    ∙ ap some (
        sym (
          generate_scoop-compressed_scoop task.address_payload seed ok_task.payload_size
            ok_seed.size ok_task.payload_bytes ok_seed.bytes scoop (start * num_scoops + k) hs
            task.compress))
  where
    map-map :
        (o : Option (List ℕ))
        → Option.map
            (λ c.
              ok (scoop_at c (p.file.number_of_warps * num_scoops) (start * num_scoops + k) scoop))
            o
          ≡ Option.map ok (
              Option.map
                (λ c.
                  scoop_at c (p.file.number_of_warps * num_scoops) (start * num_scoops + k) scoop)
                o)
    map-map none = refl
    map-map (some c) = refl
