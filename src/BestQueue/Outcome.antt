-- ===== src/BestQueue/Outcome.antt =====
-- What a submission returns and sends.
use pocx.Base.{
  ℕ, ◌≤◌, ◌<◌, ◌≡◌, inl, inr, refl, ◌∙◌, ap, List, [], ◌∷◌, ◌++◌, none, some, Bool, true, false,
  leb, le→leb, gt→leb, Bool-cases, length,
}
use pocx.BestQueue.{
  SubmitNonceParams, GlobalBestQueue, max_blocks, insert, evicted, evict_oldest, add_block,
  unbounded_send, submit_known, submit,
}
use pocx.BestQueue.Valid.{same_refl}

-- The submission is queued: the queue says so, has its quality as the best of its block, and sends it
-- after all that were sent before.
pub record IsQueued (params : SubmitNonceParams) (q : GlobalBestQueue)
    (after : Bool × GlobalBestQueue) : Type 0 where
  pub answer : after.0 ≡ true
  pub best : after.1.best_qualities params.block_hash ≡ some params.raw_quality
  pub order : after.1.sent ≡ q.sent ++ params ∷ []

-- Only the best qualities and the hashes differ.
record SameChannel (q r : GlobalBestQueue) : Type 0 where
  sends : r.sent ≡ q.sent
  open_end : r.receiver ≡ q.receiver

evicted-SameChannel :
    (q : GlobalBestQueue) (hashes : List (List ℕ)) → SameChannel q (evicted q hashes)
evicted-SameChannel q [] = record { sends = refl; open_end = refl }
evicted-SameChannel q (oldest ∷ rest) = record { sends = refl; open_end = refl }

evict_oldest-SameChannel : (q : GlobalBestQueue) → SameChannel q (evict_oldest q)
unfolding evict_oldest
evict_oldest-SameChannel q = elim (Bool-cases (leb max_blocks (length q.block_hashes))) [
  | inl e ↦ simp e (evicted-SameChannel q q.block_hashes)
  | inr e ↦ simp e (record { sends = refl; open_end = refl })
]

unbounded_send-IsQueued :
    (params : SubmitNonceParams) (q r : GlobalBestQueue)
    → q.receiver ≡ true
    → SameChannel q r
    → r.best_qualities params.block_hash ≡ some params.raw_quality
    → IsQueued params q (unbounded_send params r)
unfolding unbounded_send
unbounded_send-IsQueued params q r alive c best =
    simp (c.open_end ∙ alive)
      (record { answer = refl; best = best; order = ap (λ s. s ++ params ∷ []) c.sends })

insert-best :
    (params : SubmitNonceParams) (q : GlobalBestQueue)
    → insert params.block_hash params.raw_quality q.best_qualities params.block_hash
      ≡ some params.raw_quality
insert-best params q = rw (same_refl params.block_hash) refl

-- A submission for a tracked block that is not better is filtered and changes nothing. While the handler
-- runs, one that is better, and the first of a block, are queued.
pub submit-outcomes :
    (params : SubmitNonceParams) (q : GlobalBestQueue)
    → ((best : ℕ)
        → q.best_qualities params.block_hash ≡ some best
        → best ≤ params.raw_quality
        → submit params q ≡ (false, q))
      × ((best : ℕ)
          → q.best_qualities params.block_hash ≡ some best
          → params.raw_quality < best
          → q.receiver ≡ true
          → IsQueued params q (submit params q))
      × (q.best_qualities params.block_hash ≡ none
          → q.receiver ≡ true
          → IsQueued params q (submit params q))
unfolding submit
submit-outcomes params q = (
  λ best known worse.
      ap (submit_known params q) known ∙ rw (le→leb best params.raw_quality worse) refl,
  λ best known better alive.
      simp (known, gt→leb best params.raw_quality better)
        (unbounded_send-IsQueued params q _ alive (record { sends = refl; open_end = refl })
          (insert-best params q)),
  λ new alive. simp new (
      unbounded_send-IsQueued params q _ alive (added params)
        (unfold add_block in insert-best params (evict_oldest q))),
)
  where
    added :
        (p : SubmitNonceParams)
        → SameChannel q (add_block p.block_hash p.raw_quality (evict_oldest q))
    added p =
        unfold add_block in
        record {
          sends = (evict_oldest-SameChannel q).sends;
          open_end = (evict_oldest-SameChannel q).open_end;
        }
