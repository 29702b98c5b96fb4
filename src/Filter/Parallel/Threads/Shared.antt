-- ===== src/Filter/Parallel/Threads/Shared.antt =====
-- The scope of threads of src/filter/parallel.rs on one matrix in memory: a slice is a range of its
-- rows, and a step reads and writes the matrix itself.
use pleat.Common.{
  ℕ, suc, ◌+◌, ◌-◌, ◌==◌, leb, if◌then◌else◌, List, [], ◌∷◌, ◌++◌, length, get_or, set, bit_xor,
  Option, some, none, ◌≡◌,
}
use pleat.Word.{shr, trailing_zeros}
use pleat.Hash.{ribbon_hash, start, coeff_row}
use pleat.Banding.{w}
use pleat.Filter.Parallel.Threads.{Phase, between, reducing}

-- A thread: the range that it has, the keys to come, and the keys that it has spilled.
pub record Borrower : Type 0 where
  pub base : ℕ
  pub len : ℕ
  pub phase : Phase
  pub keys : List ℕ
  pub spilled : List ℕ

-- One iteration of the inner loop, at a row of the range.
unfoldable pub reduce_in : List ℕ → Borrower → ℕ → ℕ → ℕ → ℕ → List ℕ × Borrower
reduce_in rows t k i cr cr_at_i =
    let sum = bit_xor cr cr_at_i in
    let tz = trailing_zeros w sum in
    if cr_at_i == 0
    then (set rows (t.base + i) cr, record t { phase = between })
    else if sum == 0
    then (rows, record t { phase = between })
    else (rows, record t { phase = reducing k (i + tz) (shr sum tz) })

module _ (num_starts seed : ℕ) where
  unfoldable pub step_in : List ℕ → Borrower → Phase → List ℕ → Option (List ℕ × Borrower)
  step_in rows t between [] = none
  step_in rows t between (k ∷ keys) =
      let h = ribbon_hash k seed in
      if leb t.base (start h num_starts)
      then some (
        rows,
        record t { phase = reducing k (start h num_starts - t.base) (coeff_row h); keys = keys },
      )
      else none
  step_in rows t (reducing k i cr) keys =
      if leb t.len i
      then some (rows, record t { phase = between; spilled = t.spilled ++ (k ∷ []) })
      else some (reduce_in rows t k i cr (get_or rows (t.base + i) 0))

  -- The next step of a thread, and what it makes of the matrix.
  unfoldable pub step : List ℕ → Borrower → Option (List ℕ × Borrower)
  step rows t = step_in rows t t.phase t.keys

  -- Any one of the threads takes a step.
  pub data Steps : List ℕ → List Borrower → List ℕ → List Borrower → Type 0 where
    this :
        {rows rows' : List ℕ} {t t' : Borrower} {ts : List Borrower}
        → step rows t ≡ some (rows', t')
        → Steps rows (t ∷ ts) rows' (t' ∷ ts)
    other :
        {rows rows' : List ℕ} {t : Borrower} {ts ts' : List Borrower}
        → Steps rows ts rows' ts'
        → Steps rows (t ∷ ts) rows' (t ∷ ts')

  -- An interleaving: `n` steps, one after the other.
  pub data Interleaving : ℕ → List ℕ → List Borrower → List ℕ → List Borrower → Type 0 where
    rest : {rows : List ℕ} {ts : List Borrower} → Interleaving 0 rows ts rows ts
    next :
        {n : ℕ} {rows rows' rows'' : List ℕ} {ts ts' ts'' : List Borrower}
        → Steps rows ts rows' ts'
        → Interleaving n rows' ts' rows'' ts''
        → Interleaving (suc n) rows ts rows'' ts''

-- `scope.spawn` on each range and its bucket.
unfoldable pub spawn_in : List (ℕ × List ℕ) → List (List ℕ) → List Borrower
spawn_in [] buckets = []
spawn_in (s ∷ slices) [] = []
spawn_in (s ∷ slices) (bucket ∷ buckets) =
    record { base = s.0; len = length s.1; phase = between; keys = bucket; spilled = [] }
    ∷ spawn_in slices buckets

-- Every thread is at the end of its keys.
unfoldable pub AllDone : List Borrower → Type 0
AllDone [] = Unit
AllDone (t ∷ ts) = (t.phase ≡ between) × (t.keys ≡ []) × AllDone ts

-- `h.join()` of each: the keys that it has spilled.
unfoldable pub spills : List Borrower → List (List ℕ)
spills [] = []
spills (t ∷ ts) = t.spilled ∷ spills ts
