-- ===== src/Filter/Parallel/Threads/Apart.antt =====
-- Threads on ranges of one matrix, beside threads that have their rows to themselves.
use mathlib.Core.Option
use native.Mathlib.Decide.{ℕ_discrete, dec_le}
use pleat.Common.{
  ℕ, zero, suc, ◌+◌, ◌==◌, ◌<◌, ◌≡◌, refl, sym, ap, ap₂, ◌∙◌, arith, leb, Bool-cases, true, false,
  inl, inr, List, [], ◌∷◌, ◌++◌, length, length-set, get_or, get_or-append_left,
  get_or-append_right, set, bit_xor, some,
}
use pleat.Hash.{ribbon_hash, start}
use pleat.Filter.Parallel.Threads.{Phase, between, reducing, Worker, reduce_at, advance_in, advance}
use pleat.Filter.Parallel.Threads.Shared.{Borrower, reduce_in, step_in, step}

-- A thread with its rows, as one with a range of the matrix.
abbrev pub lend : Worker → Borrower
lend t = record {
  base = t.base;
  len = length t.rows;
  phase = t.phase;
  keys = t.keys;
  spilled = t.spilled;
}

abbrev pub lend_all : List Worker → List Borrower
lend_all [] = []
lend_all (t ∷ ts) = lend t ∷ lend_all ts

set-append :
    (pre xs post : List ℕ) (i j x : ℕ)
    → length pre + i ≡ j
    → i < length xs
    → set (pre ++ (xs ++ post)) j x ≡ pre ++ (set xs i x ++ post)
set-append [] [] post i j x e p = absurd (omega arith)
set-append [] (y ∷ xs) post zero zero x e p = refl
set-append [] (y ∷ xs) post zero (suc j) x e p = absurd (omega arith)
set-append [] (y ∷ xs) post (suc i) zero x e p = absurd (omega arith)
set-append [] (y ∷ xs) post (suc i) (suc j) x e p =
    ap (λ l. y ∷ l) (set-append [] xs post i j x (omega arith) (omega arith))
set-append (y ∷ pre) xs post i zero x e p = absurd (omega arith)
set-append (y ∷ pre) xs post i (suc j) x e p =
    ap (λ l. y ∷ l) (set-append pre xs post i j x (omega arith) p)

-- The matrix around the rows of a thread.
abbrev pub around : List ℕ → List ℕ → Worker → List ℕ × Borrower
around pre post t = (pre ++ (t.rows ++ post), lend t)

module _ (num_starts seed : ℕ) (pre post : List ℕ) where
  reduce_in-around :
      (t : Worker) (k i cr c : ℕ)
      → t.base ≡ length pre
      → i < length t.rows
      → reduce_in (pre ++ (t.rows ++ post)) (lend t) k i cr c
        ≡ around pre post (reduce_at t k i cr c)
  unfolding reduce_in reduce_at
  reduce_in-around t k i cr c e p = elim (ℕ_discrete c 0) [
    | yes z ↦
        let empty : (c == 0) ≡ true = ground arith in
        rw empty (
          ap₂
            (λ l n. (
              l,
              record {
                base = t.base;
                len = n;
                phase = between;
                keys = t.keys;
                spilled = t.spilled;
              },
            ))
            (set-append pre t.rows post i (t.base + i) cr (omega arith) p)
            (sym (length-set t.rows i cr)))
    | no nz ↦
        let full : (c == 0) ≡ false = ground arith in
        elim (ℕ_discrete (bit_xor cr c) 0) [
          | yes s ↦
              let zero_sum : (bit_xor cr c == 0) ≡ true = ground arith in rw (full, zero_sum) refl
          | no ns ↦ let sum : (bit_xor cr c == 0) ≡ false = ground arith in rw (full, sum) refl
        ]
  ]

  step_in-around :
      (t : Worker) (phase : Phase) (keys : List ℕ)
      → t.base ≡ length pre
      → step_in num_starts seed (pre ++ (t.rows ++ post)) (lend t) phase keys
        ≡ Option.map (around pre post) (advance_in num_starts seed t phase keys)
  unfolding step_in advance_in
  step_in-around t between [] e = refl
  step_in-around t between (k ∷ keys) e =
      elim (Bool-cases (leb t.base (start (ribbon_hash k seed) num_starts))) [
        | inl b ↦ rw b refl
        | inr b ↦ rw b refl
      ]
  step_in-around t (reducing k i cr) keys e = elim (dec_le (length t.rows) i) [
    | yes p ↦ let past : leb (length t.rows) i ≡ true = ground arith in rw past refl
    | no p ↦
        let inside : leb (length t.rows) i ≡ false = ground arith in
        let read : get_or (pre ++ (t.rows ++ post)) (t.base + i) 0 ≡ get_or t.rows i 0 =
          get_or-append_right pre (t.rows ++ post) (t.base + i) i 0 (omega arith)
          ∙ get_or-append_left t.rows post i 0 (omega arith) in
        rw (inside, read) (ap some (reduce_in-around t k i cr (get_or t.rows i 0) e (omega arith)))
  ]

  -- The thread takes the same steps on the matrix.
  pub step-around :
      (t : Worker)
      → t.base ≡ length pre
      → step num_starts seed (pre ++ (t.rows ++ post)) (lend t)
        ≡ Option.map (around pre post) (advance num_starts seed t)
  unfolding step advance
  step-around t e = step_in-around t t.phase t.keys e
