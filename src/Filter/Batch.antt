-- ===== src/Filter/Batch.antt =====
-- `contains_batch` of src/banding.rs and src/banding128.rs, for any query.
use pleat.Common.{
  take-append-drop, ℕ, zero, suc, ◌≤◌, ==_iff, ◌≡◌, refl, sym, ap, ◌∙◌, subst, arith, Bool, List,
  [], ◌∷◌, ◌++◌, length, length-drop, take, drop, map, map-append, append-All, All, Run, done,
}
use pleat.Filter.{answer_chunk, chunks_loop, contains_batch}

module _ (ask : ℕ → Run Bool) (answer : ℕ → Bool) where
  abbrev Answers : ℕ → Type 0
  Answers k = ask k ≡ done (answer k)

  answer_chunk-map :
      (keys : List ℕ) → All Answers keys → answer_chunk ask keys ≡ done (map answer keys)
  unfolding answer_chunk
  answer_chunk-map [] h = refl
  answer_chunk-map (k ∷ keys) h = rw (h.0, answer_chunk-map keys h.1)

  chunks_loop-map :
      (fuel : ℕ) (keys : List ℕ)
      → length keys ≤ fuel
      → All Answers keys
      → chunks_loop ask fuel keys ≡ done (map answer keys)
  unfolding chunks_loop
  chunks_loop-map fuel [] p h = refl
  chunks_loop-map zero (k ∷ keys) p h = absurd (omega arith)
  chunks_loop-map (suc fuel) (k ∷ keys) p h =
      let split : All Answers (take 32 (k ∷ keys) ++ drop 32 (k ∷ keys)) =
        subst (All Answers) (sym (take-append-drop 32 (k ∷ keys))) h in
      let (front, back) = append-All Answers (take 32 (k ∷ keys)) (drop 32 (k ∷ keys)) split in
      rw
        (
          answer_chunk-map (take 32 (k ∷ keys)) front,
          chunks_loop-map fuel (drop 32 (k ∷ keys)) (omega (arith, length-drop 31 keys)) back,
        )
        (ap done (
          sym (map-append answer (take 32 (k ∷ keys)) (drop 32 (k ∷ keys)))
          ∙ ap (map answer) (take-append-drop 32 (k ∷ keys))))

  -- Where the output is as long as the keys and each key's single query returns an answer, the
  -- batch query in chunks of 32 returns these answers in the order of the keys.
  pub contains_batch-map :
      (keys : List ℕ) (out : List Bool)
      → length keys ≡ length out
      → All Answers keys
      → contains_batch ask keys out ≡ done (map answer keys)
  unfolding contains_batch
  contains_batch-map keys out len h =
      rw ((==_iff (length keys) (length out)).1 len)
        (chunks_loop-map (length keys) keys (omega arith) h)
