-- ===== src/BestQueue/Valid.antt =====
-- The queue tracks the blocks of its list, at most three and each once.
use pocx.Base.{
  ℕ, ◌≤◌, ◌<◌, ◌≡◌, refl, ◌∙◌, ap, ap₂, sym, subst, List, [], ◌∷◌, ◌++◌, Option, none, some, Bool,
  true, false, ◌&&◌, ◌||◌, length, length-append, leb, leb→le, leb→gt, ◌==◌, ==_iff, Bool-cases,
  inl, inr, arith,
}
use pocx.BestQueue.{
  Str, same, SubmitNonceParams, GlobalBestQueue, max_blocks, insert, remove, new_queue, evicted,
  evict_oldest, add_block, unbounded_send, submit_known, submit,
}

pub same_refl : (s : Str) → same s s ≡ true
same_refl [] = refl
same_refl (x ∷ s) = rw ((==_iff x x).1 refl, same_refl s) refl

pub same-eq : (s t : Str) → same s t ≡ true → s ≡ t
same-eq [] [] h = refl
same-eq [] (y ∷ t) h = absurd (cc h)
same-eq (x ∷ s) [] h = absurd (cc h)
same-eq (x ∷ s) (y ∷ t) h = elim (Bool-cases (x == y)) [
  | inl e ↦ ap₂ ◌∷◌ ((==_iff x y).0 e) (same-eq s t (sym (ap (λ b. b && same s t) e) ∙ h))
  | inr e ↦ absurd (cc (sym (ap (λ b. b && same s t) e) ∙ h))
]

abbrev pub contains : Str → List Str → Bool
contains h [] = false
contains h (x ∷ xs) = same h x || contains h xs

abbrev pub is_known : Option ℕ → Bool
is_known none = false
is_known (some v) = true

abbrev pub Distinct : List Str → Type 0
Distinct [] = Unit {0}
Distinct (x ∷ xs) = (contains x xs ≡ false) × Distinct xs

pub record IsValid (q : GlobalBestQueue) : Type 0 where
  pub few : length q.block_hashes ≤ max_blocks
  pub distinct : Distinct q.block_hashes
  pub tracked : (h : Str) → is_known (q.best_qualities h) ≡ contains h q.block_hashes

contains-append :
    (h b : Str) (xs : List Str) → contains h (xs ++ b ∷ []) ≡ same h b || contains h xs
contains-append h b [] = refl
contains-append h b (x ∷ xs) = elim (Bool-cases (same h x)) [
  | inl e ↦ rw (contains-append h b xs, e) (either_true (same h b))
  | inr e ↦ rw (contains-append h b xs, e) refl
]
  where
    either_true : (c : Bool) → true ≡ c || true
    either_true true = refl
    either_true false = refl

or_false : (c d : Bool) → c || d ≡ false → (c ≡ false) × (d ≡ false)
or_false true d h = absurd (cc h)
or_false false d h = (refl, h)

not_same : (s t : Str) → same s t ≡ false → same t s ≡ false
not_same s t h = elim (Bool-cases (same t s)) [
  | inl e ↦ absurd (cc (sym (same_refl s) ∙ ap (same s) (sym (same-eq t s e)) ∙ h))
  | inr e ↦ e
]

Distinct-append :
    (b : Str) (xs : List Str) → contains b xs ≡ false → Distinct xs → Distinct (xs ++ b ∷ [])
Distinct-append b [] h d = (refl, tt)
Distinct-append b (x ∷ xs) h d =
    let (here, rest) = or_false (same b x) (contains b xs) h in
    (contains-append x b xs ∙ ap₂ ◌||◌ (not_same b x here) d.0, Distinct-append b xs rest d.1)

pub new_queue-IsValid : IsValid new_queue
new_queue-IsValid = record { few = omega arith; distinct = tt; tracked = λ h. refl }

-- Room for one more block.
record HasRoom (q : GlobalBestQueue) : Type 0 where
  valid : IsValid q
  room : length q.block_hashes < max_blocks

evicted-tracked :
    (q : GlobalBestQueue) (oldest : Str) (rest : List Str)
    → contains oldest rest ≡ false
    → ((h : Str) → is_known (q.best_qualities h) ≡ contains h (oldest ∷ rest))
    → (h : Str) → is_known (remove oldest q.best_qualities h) ≡ contains h rest
evicted-tracked q oldest rest gone tracked h = elim (Bool-cases (same h oldest)) [
  | inl e ↦ rw e (sym (ap (λ s. contains s rest) (same-eq h oldest e) ∙ gone))
  | inr e ↦ rw e (tracked h ∙ ap (λ b. b || contains h rest) e)
]

evicted-HasRoom :
    (q : GlobalBestQueue) (hashes : List Str)
    → hashes ≡ q.block_hashes
    → max_blocks ≤ length hashes
    → IsValid q
    → HasRoom (evicted q hashes)
evicted-HasRoom q [] e full v = absurd (omega arith)
evicted-HasRoom q (oldest ∷ rest) e full v =
    let d : Distinct (oldest ∷ rest) = subst Distinct (sym e) v.distinct in
    record {
      valid = record {
        few = omega (arith, v.few, ap length e);
        distinct = d.1;
        tracked = evicted-tracked q oldest rest d.0 (λ h. v.tracked h ∙ ap (contains h) (sym e));
      };
      room = omega (arith, v.few, ap length e);
    }

evict_oldest-HasRoom : (q : GlobalBestQueue) → IsValid q → HasRoom (evict_oldest q)
unfolding evict_oldest
evict_oldest-HasRoom q v = elim (Bool-cases (leb max_blocks (length q.block_hashes))) [
  | inl e ↦ rw e (evicted-HasRoom q q.block_hashes refl (leb→le _ _ e) v)
  | inr e ↦ rw e (record { valid = v; room = omega (arith, leb→gt _ _ e) })
]

insert-known :
    (q : GlobalBestQueue) (b : Str) (value : ℕ) (h : Str)
    → is_known (insert b value q.best_qualities h) ≡ same h b || is_known (q.best_qualities h)
insert-known q b value h = elim (Bool-cases (same h b)) [ inl e ↦ rw e refl | inr e ↦ rw e refl ]

add_block-IsValid :
    (b : Str) (value : ℕ) (q : GlobalBestQueue)
    → q.best_qualities b ≡ none
    → HasRoom q
    → IsValid (add_block b value q)
unfolding add_block
add_block-IsValid b value q new r = record {
  few = omega (arith, length-append q.block_hashes (b ∷ []), r.room);
  distinct =
      Distinct-append b q.block_hashes (sym (r.valid.tracked b) ∙ ap is_known new) r.valid.distinct;
  tracked = λ h.
      insert-known q b value h
      ∙ ap (λ c. same h b || c) (r.valid.tracked h)
      ∙ sym (contains-append h b q.block_hashes);
}

-- A better quality for a block that is tracked.
update-IsValid :
    (b : Str) (value old : ℕ) (q : GlobalBestQueue)
    → q.best_qualities b ≡ some old
    → IsValid q
    → IsValid (record q { best_qualities = insert b value q.best_qualities })
update-IsValid b value old q known v = record {
  few = v.few;
  distinct = v.distinct;
  tracked = λ h. elim (Bool-cases (same h b)) [
    | inl e ↦ rw e (
        sym (ap is_known known)
        ∙ ap (λ s. is_known (q.best_qualities s)) (sym (same-eq h b e))
        ∙ v.tracked h)
    | inr e ↦ rw e (v.tracked h)
  ];
}

unbounded_send-IsValid :
    (params : SubmitNonceParams) (q : GlobalBestQueue)
    → IsValid q
    → IsValid (unbounded_send params q).1
unfolding unbounded_send
unbounded_send-IsValid params q v = elim (Bool-cases q.receiver) [
  | inl e ↦ simp e (record { few = v.few; distinct = v.distinct; tracked = v.tracked })
  | inr e ↦ simp e v
]

evict_oldest-none :
    (q : GlobalBestQueue) (b : Str)
    → q.best_qualities b ≡ none
    → (evict_oldest q).best_qualities b ≡ none
unfolding evict_oldest
evict_oldest-none q b new = elim (Bool-cases (leb max_blocks (length q.block_hashes))) [
  | inl e ↦ rw e (left q.block_hashes)
  | inr e ↦ rw e new
]
  where
    left : (hashes : List Str) → (evicted q hashes).best_qualities b ≡ none
    left [] = new
    left (oldest ∷ rest) = elim (Bool-cases (same b oldest)) [
      | inl e ↦ rw e refl
      | inr e ↦ rw e new
    ]

-- Every submission keeps the queue valid: at most three blocks, each once, and a best quality for exactly
-- the blocks of the list.
pub submit-IsValid :
    (params : SubmitNonceParams) (q : GlobalBestQueue) → IsValid q → IsValid (submit params q).1
unfolding submit
submit-IsValid params q v = by_best (q.best_qualities params.block_hash) refl
  where
    by_best :
        (o : Option ℕ)
        → q.best_qualities params.block_hash ≡ o
        → IsValid (submit_known params q o).1
    by_best none e = unbounded_send-IsValid params _ (
        add_block-IsValid params.block_hash params.raw_quality (evict_oldest q)
          (evict_oldest-none q params.block_hash e) (evict_oldest-HasRoom q v))
    by_best (some best) e = elim (Bool-cases (leb best params.raw_quality)) [
      | inl worse ↦ rw worse v
      | inr better ↦ rw better (
          unbounded_send-IsValid params _
            (update-IsValid params.block_hash params.raw_quality best q e v))
    ]
