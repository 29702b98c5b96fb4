-- ===== src/Filter/Parallel/Threads.antt =====
-- The scope of threads of src/filter/parallel.rs, each thread with the rows of its slice to itself, as
-- a machine that takes one step of one thread at a time, in any order. A step is an iteration of a
-- loop of `band_slice`.
pub mod Alone
pub mod Together
pub mod Build
pub mod Shared
pub mod Apart
pub mod Simulate
pub mod Laid
use pleat.Common.{
  ℕ, zero, suc, ◌+◌, ◌-◌, ◌==◌, leb, if◌then◌else◌, List, [], ◌∷◌, ◌++◌, length, get_elem?, get_or,
  set, bit_xor, Option, some, none, ◌≡◌,
}
use pleat.Word.{shr, trailing_zeros}
use pleat.Hash.{ribbon_hash, start, coeff_row}
use pleat.Banding.{w}

-- Where a thread is: at the head of the loop on the keys, or in the inner loop with a key, a slot
-- and a row.
pub data Phase : Type 0 where
  between : Phase
  reducing : ℕ → ℕ → ℕ → Phase

-- A thread: its slice, the keys to come, and the keys that it has spilled.
pub record Worker : Type 0 where
  pub base : ℕ
  pub rows : List ℕ
  pub phase : Phase
  pub keys : List ℕ
  pub spilled : List ℕ

-- One iteration of the inner loop, at a row that is in the slice.
unfoldable pub reduce_at : Worker → ℕ → ℕ → ℕ → ℕ → Worker
reduce_at t k i cr cr_at_i =
    let sum = bit_xor cr cr_at_i in
    let tz = trailing_zeros w sum in
    if cr_at_i == 0
    then record t { rows = set t.rows i cr; phase = between }
    else if sum == 0
    then record t { phase = between }
    else record t { phase = reducing k (i + tz) (shr sum tz) }

module _ (num_starts seed : ℕ) where
  -- The next step of a thread. There is none at the end, and none where the slot of the key would be
  -- below the slice.
  unfoldable pub advance_in : Worker → Phase → List ℕ → Option Worker
  advance_in t between [] = none
  advance_in t between (k ∷ keys) =
      let h = ribbon_hash k seed in
      if leb t.base (start h num_starts)
      then some
          (record t { phase = reducing k (start h num_starts - t.base) (coeff_row h); keys = keys })
      else none
  advance_in t (reducing k i cr) keys =
      if leb (length t.rows) i
      then some (record t { phase = between; spilled = t.spilled ++ (k ∷ []) })
      else some (reduce_at t k i cr (get_or t.rows i 0))

  unfoldable pub advance : Worker → Option Worker
  advance t = advance_in t t.phase t.keys

  -- Any one of the threads takes a step.
  pub data Step : List Worker → List Worker → Type 0 where
    here : {t t' : Worker} {ts : List Worker} → advance t ≡ some t' → Step (t ∷ ts) (t' ∷ ts)
    there : {t : Worker} {ts ts' : List Worker} → Step ts ts' → Step (t ∷ ts) (t ∷ ts')

  -- A schedule: `n` steps, one after the other.
  pub data Schedule : ℕ → List Worker → List Worker → Type 0 where
    stop : {ts : List Worker} → Schedule 0 ts ts
    after :
        {n : ℕ} {ts ts' ts'' : List Worker}
        → Step ts ts'
        → Schedule n ts' ts''
        → Schedule (suc n) ts ts''

-- `scope.spawn` on each slice and its bucket.
unfoldable pub spawn : List (ℕ × List ℕ) → List (List ℕ) → List Worker
spawn [] buckets = []
spawn (s ∷ slices) [] = []
spawn (s ∷ slices) (bucket ∷ buckets) =
    record { base = s.0; rows = s.1; phase = between; keys = bucket; spilled = [] }
    ∷ spawn slices buckets
