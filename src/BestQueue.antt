-- ===== src/BestQueue.antt =====
-- pocx_aggregator/src/queue/global_best_queue.rs: the filter of submissions in wallet mode. A string is
-- the list of its characters' codes, the map from block hashes to qualities is a function, and the
-- channel to the handler keeps what is sent while its receiver lives. Both locks are held during all of
-- `submit`, so calls are one after the other. The log is not modelled.
pub mod Valid
pub mod Outcome
mod Tests
use pocx.Base.{
  ℕ, zero, suc, List, [], ◌∷◌, ◌++◌, Option, none, some, Bool, true, false, ◌&&◌, ◌||◌, length, ltb,
  leb, ◌==◌, if◌then◌else◌,
}

abbrev pub Str : Type 0
Str = List ℕ

abbrev pub same : Str → Str → Bool
same [] [] = true
same [] (y ∷ ys) = false
same (x ∷ xs) [] = false
same (x ∷ xs) (y ∷ ys) = (x == y) && same xs ys

pub record SubmitNonceParams : Type 0 where
  pub block_hash : Str
  pub height : ℕ
  pub generation_signature : Str
  pub base_target : ℕ
  pub account_id : Str
  pub seed : Str
  pub nonce : ℕ
  pub compression : ℕ
  pub raw_quality : ℕ

pub record GlobalBestQueue : Type 0 where
  pub block_hashes : List Str
  pub best_qualities : Str → Option ℕ
  pub sent : List SubmitNonceParams
  pub receiver : Bool

abbrev pub max_blocks : ℕ
max_blocks = 3

abbrev pub insert : Str → ℕ → (Str → Option ℕ) → Str → Option ℕ
insert key value m h = if same h key then some value else m h

abbrev pub remove : Str → (Str → Option ℕ) → Str → Option ℕ
remove key m h = if same h key then none else m h

-- A new queue, whose handler runs.
abbrev pub new_queue : GlobalBestQueue
new_queue = record { block_hashes = []; best_qualities = λ h. none; sent = []; receiver = true }

-- `pop_front` on the hashes, with the removal of the quality.
abbrev pub evicted : GlobalBestQueue → List Str → GlobalBestQueue
evicted q [] = q
evicted q (oldest ∷ rest) = record q {
  block_hashes = rest;
  best_qualities = remove oldest q.best_qualities;
}

unfoldable pub evict_oldest : GlobalBestQueue → GlobalBestQueue
evict_oldest q = if leb max_blocks (length q.block_hashes) then evicted q q.block_hashes else q

-- `push_back` and `insert` for a new block.
unfoldable pub add_block : Str → ℕ → GlobalBestQueue → GlobalBestQueue
add_block block_hash raw_quality q = record q {
  block_hashes = q.block_hashes ++ block_hash ∷ [];
  best_qualities = insert block_hash raw_quality q.best_qualities;
}

-- `unbounded_send`, which fails when the receiver is gone.
unfoldable pub unbounded_send : SubmitNonceParams → GlobalBestQueue → Bool × GlobalBestQueue
unbounded_send params q =
    if q.receiver then (true, record q { sent = q.sent ++ params ∷ [] }) else (false, q)

abbrev pub submit_known : SubmitNonceParams → GlobalBestQueue → Option ℕ → Bool × GlobalBestQueue
submit_known params q none =
    unbounded_send params (add_block params.block_hash params.raw_quality (evict_oldest q))
submit_known params q (some best_quality) =
    if leb best_quality params.raw_quality
    then (false, q)
    else unbounded_send params
        (record q { best_qualities = insert params.block_hash params.raw_quality q.best_qualities })

unfoldable pub submit : SubmitNonceParams → GlobalBestQueue → Bool × GlobalBestQueue
submit params q = submit_known params q (q.best_qualities params.block_hash)
