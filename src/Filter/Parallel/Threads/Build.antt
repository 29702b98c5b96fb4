-- ===== src/Filter/Parallel/Threads/Build.antt =====
-- The whole build of src/filter/parallel.rs, with its threads on one matrix in any order, beside the
-- build in order of arrival.
use pleat.Common.{
  ℕ, ◌+◌, ◌-◌, ◌/◌, ◌^◌, ◌≤◌, ◌<◌, ◌≡◌, ◌⊎◌, inl, inr, refl, sym, subst, ap, ◌∙◌, arith, List, ◌++◌,
  length, Run, done, done_inj, ◌>>=◌, done-bind,
}
use pleat.Banding
use pleat.Banding.{Banding, w, solve}
use pleat.Banding.Build.{new-IsBand}
use pleat.Filter.{num_slots_for}
use pleat.Filter.Slots.{num_slots_for_blocks, num_slots_for_bounds}
use pleat.Filter.Ribbon.{Ribbon, from_keys_seeded}
use pleat.Filter.Parallel.Ribbon.{split_work, merge, band_slices, band_parallel}
use pleat.Filter.Parallel.Equal.{Gains-solve, add_all-Gains, band_parallel-Gains}
use pleat.Filter.Parallel.Threads.{spawn}
use pleat.Filter.Parallel.Threads.Together.{Schedule-joined}
use pleat.Filter.Parallel.Threads.Shared.{Borrower, Steps, Interleaving, spawn_in, AllDone, spills}
use pleat.Filter.Parallel.Threads.Simulate.{
  Interleaving-Schedule, Step-goes, lend_all-AllDone, spills-lend_all,
}
use pleat.Filter.Parallel.Threads.Laid.{Laid, lend_all-spawn, split_work-Laid}

-- Where the threads of a build are after `k` of the `n` steps that they take together: they can go
-- on, or they are at the end, and then `out` is what the build makes of the matrix and the spilled
-- keys.
abbrev pub Goes : ℕ → Banding → ℕ → List ℕ → Run Ribbon → ℕ → ℕ → List ℕ → List Borrower → Type 0
Goes r band seed deferred out n k rows ts =
    ((k < n)
      × (rows' : List ℕ) × (ts' : List Borrower) × Steps (length band.coeff_rows - w + 1) seed rows
          ts rows' ts')
    ⊎ ((k ≡ n)
        × AllDone ts
        × ((merge band rows deferred (spills ts) >>= λ b. done (record { soln = solve r b }))
            ≡ out))

-- The parts of a build with threads that returns.
band_parallel-parts :
    (b : Banding) (keys : List ℕ) (seed window_shift threads : ℕ) (last : Banding)
    → band_parallel b keys seed window_shift threads ≡ done last
    → (split : (List (ℕ × List ℕ) × List ℕ) × (List (List ℕ) × List ℕ)) × (split_work b keys seed
          window_shift threads
        ≡ done split)
      × (banded : List ℕ × List (List ℕ)) × (band_slices
            (length b.coeff_rows - w + 1)
            seed
            split.0.0
            split.1.0
          ≡ done banded)
      × (merge b (banded.0 ++ split.0.1) split.1.1 banded.1 ≡ done last)
unfolding band_parallel
band_parallel-parts b keys seed window_shift threads last run =
    let (split, split_run, next) = done-bind _ _ last run in
    let (banded, threads_run, merged) = done-bind _ _ last next in
    (split, split_run, banded, threads_run, merged)

-- Threads that are laid out side by side and come to `banded` each on its own.
interleaved-Goes :
    (r : ℕ) (b : Banding) (seed : ℕ) (slices : List (ℕ × List ℕ) × List ℕ) (buckets : List (List ℕ))
    (deferred : List ℕ) (banded : List ℕ × List (List ℕ)) (last : Banding)
    → Laid 0 b.coeff_rows slices buckets
    → band_slices (length b.coeff_rows - w + 1) seed slices.0 buckets ≡ done banded
    → merge b (banded.0 ++ slices.1) deferred banded.1 ≡ done last
    → (n : ℕ) × ((k : ℕ) (rows : List ℕ) (ts : List Borrower)
        → Interleaving
            (length b.coeff_rows - w + 1)
            seed
            k
            b.coeff_rows
            (spawn_in slices.0 buckets)
            rows
            ts
        → Goes r b seed deferred (done (record { soln = solve r last })) n k rows ts)
interleaved-Goes r b seed slices buckets deferred banded last laid run merged =
    let starts : ℕ = length b.coeff_rows - w + 1 in
    let (n, f) = Schedule-joined starts seed slices.0 buckets banded run in
    (
      n,
      λ k rows bs s.
          let (ts, alone, rows_are, bs_are, apart) =
            Interleaving-Schedule starts seed slices.1 (spawn slices.0 buckets) laid.whole
              (lend_all-spawn slices.0 buckets) laid.apart s in
          elim (f k ts alone) [
            | inl (lt, ts', more) ↦
                let (rows', bs', go) =
                  Step-goes starts seed slices.1 ts ts' rows bs rows_are bs_are apart more in
                inl (lt, rows', bs', go)
            | inr (e, halted, j) ↦
                let whole : rows ≡ banded.0 ++ slices.1 =
                  rows_are ∙ ap (λ (o : List ℕ × List (List ℕ)). o.0 ++ slices.1) j in
                let spilled : spills bs ≡ banded.1 =
                  ap spills bs_are ∙ spills-lend_all ts ∙ ap (λ o. o.1) j in
                inr (
                  e,
                  subst AllDone (sym bs_are) (lend_all-AllDone ts halted),
                  rw (whole, spilled, merged) refl,
                )
          ],
    )

-- For at most 32 columns, fewer than 2 ^ 44 keys, a window shift below 64 and any positive number
-- of threads, the parallel homogeneous build divides its work without a panic, and its threads,
-- which read and write ranges of one matrix, take a fixed number of steps together in whatever
-- order: an interleaving of fewer steps can go on, and any other has exactly so many, has all
-- threads at the end of their keys, and leaves a matrix and spilled keys that the build completes
-- to the very filter of the build in order of arrival.
pub Interleaving-from_keys_seeded :
    (r : ℕ)
    → r ≤ 32
    → (keys : List ℕ) (seed window_shift threads : ℕ) → length keys < 2 ^ 44
    → window_shift < 64
    → 0 < threads
    → (band : Banding) × (Banding.new (num_slots_for (length keys) r) seed ≡ done band)
      × (split : (List (ℕ × List ℕ) × List ℕ) × (List (List ℕ) × List ℕ)) × (split_work band keys
            seed window_shift threads
          ≡ done split)
      × (n : ℕ) × ((k : ℕ) (rows : List ℕ) (ts : List Borrower)
          → Interleaving
              (length band.coeff_rows - w + 1)
              seed
              k
              band.coeff_rows
              (spawn_in split.0.0 split.1.0)
              rows
              ts
          → Goes r band seed split.1.1 (from_keys_seeded r keys seed) n k rows ts)
unfolding from_keys_seeded
Interleaving-from_keys_seeded r width keys seed window_shift threads few shift pos =
    let num_slots : ℕ = num_slots_for (length keys) r in
    let (lo, _, hi) = num_slots_for_bounds (length keys) r width few in
    let (b, run, v, slots, starts, raw, empty) =
      new-IsBand num_slots seed (num_slots_for_blocks (length keys) r) (omega arith)
        (omega arith) in
    let small : length b.coeff_rows < 2 ^ 64 = omega (arith, slots) in
    let (arrival, add, g) = add_all-Gains b keys v in
    let (last, par, h) = band_parallel-Gains b keys window_shift threads v small shift pos in
    let (split, split_run, laid) = split_work-Laid b keys window_shift threads v small shift pos in
    let (split', split_run', banded, threads_run, merged) =
      band_parallel-parts b keys b.raw_seed window_shift threads last par in
    let same_split : split' ≡ split = done_inj (sym split_run' ∙ split_run) in
    let (n, f) =
      interleaved-Goes r b b.raw_seed split.0 split.1.0 split.1.1 banded last laid
        (rw same_split at threads_run) (rw same_split at merged) in
    let same : solve r last ≡ solve r arrival =
      Gains-solve r (num_slots / 64) b last arrival keys
        (omega (arith, slots, num_slots_for_blocks (length keys) r)) h g in
    let result : done (record { soln = solve r last }) ≡ from_keys_seeded r keys seed =
      rw (run, add, same) refl in
    (
      b,
      run,
      split,
      rw raw at split_run,
      n,
      λ k rows ts s.
          subst (λ (s : ℕ). Goes r b s split.1.1 (from_keys_seeded r keys seed) n k rows ts) raw
            (subst (λ o. Goes r b b.raw_seed split.1.1 o n k rows ts) result
              (f k rows ts (
                subst
                  (λ (s : ℕ).
                    Interleaving (length b.coeff_rows - w + 1) s k b.coeff_rows
                      (spawn_in split.0.0 split.1.0) rows ts)
                  (sym raw) s))),
    )
