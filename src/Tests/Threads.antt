-- ===== src/Tests/Threads.antt =====
-- The threads of src/filter/parallel.rs, on one matrix in any order, on a small build.
use native.Mathlib.Omega.{arith}
use pleat.Common.{ℕ, ◌+◌, ◌-◌, ◌≡◌, List, [], ◌∷◌, length, done}
use pleat.Banding
use pleat.Banding.{Banding, w}
use pleat.Filter.{num_slots_for}
use pleat.Filter.Ribbon.{from_keys_seeded}
use pleat.Filter.Parallel.Ribbon.{split_work}
use pleat.Filter.Parallel.Threads.Shared.{Borrower, Interleaving, spawn_in}
use pleat.Filter.Parallel.Threads.Build.{Goes, Interleaving-from_keys_seeded}

abbrev some_keys : List ℕ
some_keys = 2 ∷ 4 ∷ 3 ∷ 10 ∷ []

Interleaving-from_keys_seeded_example :
    (band : Banding) × (Banding.new (num_slots_for 4 7) 5 ≡ done band)
    × (split : (List (ℕ × List ℕ) × List ℕ) × (List (List ℕ) × List ℕ)) × (split_work band some_keys
          5 4 2
        ≡ done split)
    × (n : ℕ) × ((k : ℕ) (rows : List ℕ) (ts : List Borrower)
        → Interleaving
            (length band.coeff_rows - w + 1)
            5
            k
            band.coeff_rows
            (spawn_in split.0.0 split.1.0)
            rows
            ts
        → Goes 7 band 5 split.1.1 (from_keys_seeded 7 some_keys 5) n k rows ts)
Interleaving-from_keys_seeded_example =
    Interleaving-from_keys_seeded 7 (omega arith) some_keys 5 4 2 (omega arith) (omega arith)
      (omega arith)
