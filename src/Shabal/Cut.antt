-- ===== src/Shabal/Cut.antt =====
-- How a message may be cut into the arguments of the hash functions.
use pocx.Base.{
  ℕ, zero, suc, ◌+◌, ◌*◌, ◌/◌, ◌≡◌, ◌≤◌, refl, ◌∙◌, ap, sym, subst, List, ◌∷◌, [], ◌++◌, none, some,
  length, length-append, Below, drop-Below, u32_mod, arith, words_of, bytes_of, words_of-append,
  words_of-bytes_of, words_of-Below, length-bytes_of, length-words_of, drop, take, tabulate-get_or,
  append_assoc, take-append-drop, length-take, length-drop, drop-append_le, ap₂, wrapping_add,
  wrapping_sub,
}
use pocx.Shabal.{State, Pair, initial, input_block_add, input_block_sub, perm, apply_p}
use pocx.Shabal.Hash.{
  enter, absorb_block, absorb, finish, absorb_pre_term, shabal256, shabal256_state,
}
use pocx.Shabal.Sizes.{IsValid, Words, absorb_block-IsValid, initial-IsValid}

-- The block functions read 16 words.
input_block_add-append :
    (b ws rest : List ℕ)
    → length b ≤ length ws
    → input_block_add b (ws ++ rest) ≡ input_block_add b ws
unfolding input_block_add
input_block_add-append [] ws rest h = refl
input_block_add-append (x ∷ b) [] rest h = absurd (omega arith)
input_block_add-append (x ∷ b) (w ∷ ws) rest h =
    ap (◌∷◌ (wrapping_add x w)) (input_block_add-append b ws rest (omega arith))

input_block_sub-append :
    (b ws rest : List ℕ)
    → length b ≤ length ws
    → input_block_sub b (ws ++ rest) ≡ input_block_sub b ws
unfolding input_block_sub
input_block_sub-append [] ws rest h = refl
input_block_sub-append (x ∷ b) [] rest h = absurd (omega arith)
input_block_sub-append (x ∷ b) (w ∷ ws) rest h =
    ap (◌∷◌ (wrapping_sub x w)) (input_block_sub-append b ws rest (omega arith))

perm-append : (c ws rest : List ℕ) (s : Pair) → length ws ≡ 16 → perm c (ws ++ rest) s ≡ perm c ws s
unfolding perm
perm-append c ws rest s h =
    subst (λ xs. perm c (xs ++ rest) s ≡ perm c xs s) (tabulate-get_or 16 ws 0 h) refl

apply_p-append :
    (c ws rest : List ℕ) (s : Pair) → length ws ≡ 16 → apply_p c (ws ++ rest) s ≡ apply_p c ws s
unfolding apply_p
apply_p-append c ws rest s h = rw (perm-append c ws rest _ h)

enter-append :
    (ws rest : List ℕ) (s : State)
    → length ws ≡ 16
    → length s.b ≡ 16
    → enter (ws ++ rest) s ≡ enter ws s
unfolding enter
enter-append ws rest s h hb =
    rw (input_block_add-append s.b ws rest (omega arith), apply_p-append s.c ws rest _ h)

absorb_block-append :
    (ws rest : List ℕ) (s : State)
    → length ws ≡ 16
    → length s.b ≡ 16
    → length s.c ≡ 16
    → absorb_block (ws ++ rest) s ≡ absorb_block ws s
unfolding absorb_block
absorb_block-append ws rest s h hb hc = rw (
  enter-append ws rest s h hb,
  input_block_sub-append (enter ws s).c ws rest (unfold enter in omega arith),
)

-- Only the first 16 words count.
absorb_block-long :
    (xs ys : List ℕ) (s : State)
    → 16 ≤ length xs
    → IsValid s
    → absorb_block (xs ++ ys) s ≡ absorb_block xs s
absorb_block-long xs ys s h v =
    ap (λ zs. absorb_block (zs ++ ys) s) (sym (take-append-drop 16 xs))
    ∙ ap (λ zs. absorb_block zs s) (append_assoc (take 16 xs) (drop 16 xs) ys)
    ∙ first (drop 16 xs ++ ys)
    ∙ sym (first (drop 16 xs))
    ∙ ap (λ zs. absorb_block zs s) (take-append-drop 16 xs)
  where
    first : (rest : List ℕ) → absorb_block (take 16 xs ++ rest) s ≡ absorb_block (take 16 xs) s
    first rest =
        absorb_block-append (take 16 xs) rest s (omega (arith, length-take 16 xs)) v.b_words.0
          v.c_words.0

-- Whole blocks are absorbed first, whatever follows them.
pub absorb-append :
    (n m : ℕ) (xs ys : List ℕ) (s : State)
    → length xs ≡ 16 * n
    → Below u32_mod xs
    → IsValid s
    → absorb (n + m) (xs ++ ys) s ≡ absorb m ys (absorb n xs s)
unfolding absorb
absorb-append zero m [] ys s h b v = ap (λ k. absorb k ys s) {x = 0 + m} {y = m} (omega arith)
absorb-append zero m (x ∷ xs) ys s h b v = absurd (omega arith)
absorb-append (suc n) m xs ys s h b v =
    ap (λ k. absorb k (xs ++ ys) s) {x = suc n + m} {y = suc (n + m)} (omega arith)
    ∙ ap₂ (λ zs t. absorb (n + m) zs t) (drop-append_le 16 xs ys (omega arith))
        (absorb_block-long xs ys s (omega arith) v)
    ∙ absorb-append n m (drop 16 xs) ys (absorb_block xs s) (omega (arith, length-drop 16 xs))
        (drop-Below u32_mod 16 xs b) (absorb_block-IsValid xs b v)

pub absorb-one : (ws : List ℕ) (s : State) → absorb 1 ws s ≡ absorb_block ws s
unfolding absorb
absorb-one ws s = refl

-- The optional block before the last hashes like 64 more bytes of the message.
pub shabal256-pre_term :
    (k : ℕ) (bytes pre_term term : List ℕ)
    → length bytes ≡ 64 * k
    → Below 256 bytes
    → Words 16 pre_term
    → shabal256 bytes (some pre_term) term ≡ shabal256 (bytes ++ bytes_of pre_term) none term
unfolding shabal256 shabal256_state absorb_pre_term
shabal256-pre_term k bytes pre_term term e h w =
    ap (λ t. bytes_of (take 8 (drop 8 (finish term t).b))) (sym (whole ∙ last))
  where
    ws : List ℕ
    ws = words_of bytes

    whole :
        absorb
          (length (bytes ++ bytes_of pre_term) / 64)
          (words_of (bytes ++ bytes_of pre_term))
          initial
        ≡ absorb (k + 1) (ws ++ pre_term) initial
    whole =
        ap₂ (λ n xs. absorb n xs initial) {x = length (bytes ++ bytes_of pre_term) / 64} {y = k + 1}
          (omega (arith, length-append bytes (bytes_of pre_term), length-bytes_of pre_term, w.0))
          (words_of-append (16 * k) bytes (bytes_of pre_term) (omega arith)
            ∙ ap (λ xs. ws ++ xs) (words_of-bytes_of pre_term w.1))

    last :
        absorb (k + 1) (ws ++ pre_term) initial
        ≡ absorb_block pre_term (absorb (length bytes / 64) ws initial)
    last =
        absorb-append k 1 ws pre_term initial
          (omega (arith, length-words_of (16 * k) bytes (omega arith)))
          (words_of-Below (16 * k) bytes h (omega arith)) initial-IsValid
        ∙ absorb-one pre_term (absorb k ws initial)
        ∙ ap (λ n. absorb_block pre_term (absorb n ws initial)) {x = k} {y = length bytes / 64}
            (omega arith)
