-- ===== src/BestQueue/Tests.antt =====
-- The theorems about the queue at concrete inputs: three blocks, then a fourth.
use pocx.Base.{ℕ, ◌≤◌, ◌<◌, ◌≡◌, refl, [], ◌∷◌, none, some, false, true}
use pocx.BestQueue.{
  SubmitNonceParams, GlobalBestQueue, new_queue, submit, evict_oldest, add_block, unbounded_send,
}
use pocx.BestQueue.Valid.{IsValid, new_queue-IsValid, submit-IsValid}
use pocx.BestQueue.Outcome.{IsQueued, submit-outcomes}

abbrev nonce_for : ℕ → ℕ → SubmitNonceParams
nonce_for block raw_quality = record {
  block_hash = block ∷ [];
  height = 7;
  generation_signature = [];
  base_target = 1000;
  account_id = [];
  seed = [];
  nonce = 5;
  compression = 1;
  raw_quality = raw_quality;
}

three_blocks : GlobalBestQueue
three_blocks =
    (submit (nonce_for 3 30) (submit (nonce_for 2 20) (submit (nonce_for 1 10) new_queue).1).1).1

three_blocks-IsValid : IsValid three_blocks
unfolding three_blocks
three_blocks-IsValid = submit-IsValid (nonce_for 3 30) _ (
    submit-IsValid (nonce_for 2 20) _ (submit-IsValid (nonce_for 1 10) new_queue new_queue-IsValid))

-- The fourth block takes the place of the first.
fourth_block :
    (submit (nonce_for 4 40) three_blocks).1.block_hashes ≡ (2 ∷ []) ∷ (3 ∷ []) ∷ (4 ∷ []) ∷ []
unfolding three_blocks submit evict_oldest add_block unbounded_send
fourth_block = refl

submit-IsValid_example : IsValid (submit (nonce_for 4 40) three_blocks).1
submit-IsValid_example = submit-IsValid (nonce_for 4 40) three_blocks three_blocks-IsValid

submit-outcomes_example :
    ((best : ℕ)
      → three_blocks.best_qualities (2 ∷ []) ≡ some best
      → best ≤ 15
      → submit (nonce_for 2 15) three_blocks ≡ (false, three_blocks))
    × ((best : ℕ)
        → three_blocks.best_qualities (2 ∷ []) ≡ some best
        → 15 < best
        → three_blocks.receiver ≡ true
        → IsQueued (nonce_for 2 15) three_blocks (submit (nonce_for 2 15) three_blocks))
    × (three_blocks.best_qualities (2 ∷ []) ≡ none
        → three_blocks.receiver ≡ true
        → IsQueued (nonce_for 2 15) three_blocks (submit (nonce_for 2 15) three_blocks))
submit-outcomes_example = submit-outcomes (nonce_for 2 15) three_blocks
