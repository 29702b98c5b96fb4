-- ===== src/Filter/Parallel/Ribbon.antt =====
-- src/filter/parallel.rs: the parallel build of the homogeneous filter.
use pleat.Common.{
  ℕ, zero, suc, ◌+◌, ◌-◌, ◌/◌, ◌==◌, leb, ltb, min, max, if◌then◌else◌, List, [], ◌∷◌, ◌++◌, length,
  get_elem?, set, drop, replicate, bit_xor, Option, some, none, Run, done, out_of_fuel, ◌>>=◌, ◌>>◌,
  assert, unwrap,
}
use pleat.Word.{shr, trailing_zeros}
use pleat.Hash.{ribbon_hash, start, coeff_row}
use pleat.Banding
use pleat.Banding.{Banding, Solution, w, solve}
use pleat.Filter.{num_slots_for, window_size, default_window_shift, div_ceil}
use pleat.Filter.Ribbon.{Ribbon}
use pleat.Filter.Parallel.{bounds_from, dedup, assign_loop, split_loop}

-- The inner loop of `band_slice`: the slice after it, or nothing where the reduction leaves it.
unfoldable pub slice_loop : ℕ → List ℕ → ℕ → ℕ → Run (Option (List ℕ))
slice_loop zero rows i cr = out_of_fuel
slice_loop (suc fuel) rows i cr =
    let step = unwrap (get_elem? rows i) >>= λ cr_at_i.
    let sum = bit_xor cr cr_at_i in
    let tz = trailing_zeros w sum in
    let more = slice_loop fuel rows (i + tz) (shr sum tz) in
    if cr_at_i == 0
    then done (some (set rows i cr))
    else if sum == 0
    then done (some rows)
    else more in
    if leb (length rows) i then done none else step

-- What one key does to the slice and to the spilled keys.
unfoldable pub settle : ℕ → List ℕ → Option (List ℕ) → List ℕ × List ℕ
settle k rows none = (rows, k ∷ [])
settle k rows (some rows') = (rows', [])

unfoldable pub band_slice : List ℕ → ℕ → ℕ → ℕ → List ℕ → Run (List ℕ × List ℕ)
band_slice rows base num_starts seed [] = done (rows, [])
band_slice rows base num_starts seed (k ∷ keys) = do
  let h = ribbon_hash k seed
  assert (leb base (start h num_starts))
  found ← slice_loop (suc (length rows)) rows (start h num_starts - base) (coeff_row h)
  let settled = settle k rows found
  more ← band_slice settled.0 base num_starts seed keys
  done (more.0, settled.1 ++ more.1)

-- The threads, each with a slice and its bucket: the rows of all slices and the keys each spilled.
unfoldable pub band_slices :
    ℕ → ℕ → List (ℕ × List ℕ) → List (List ℕ) → Run (List ℕ × List (List ℕ))
band_slices num_starts seed [] buckets = done ([], [])
band_slices num_starts seed (s ∷ slices) [] = done ([], [])
band_slices num_starts seed (s ∷ slices) (bucket ∷ buckets) = do
  banded ← band_slice s.1 s.0 num_starts seed bucket
  more ← band_slices num_starts seed slices buckets
  done (banded.0 ++ more.0, banded.1 ∷ more.1)

-- `for spill in spilled { band.add_all(&spill); }`.
unfoldable pub add_spilled : Banding → List (List ℕ) → Run Banding
add_spilled b [] = done b
add_spilled b (spill ∷ spilled) = Banding.add_all b spill >>= λ b'. add_spilled b' spilled

-- What the threads are given: the slices with the rows behind them, and the buckets with the
-- deferred keys.
unfoldable pub split_work :
    Banding → List ℕ → ℕ → ℕ → ℕ → Run ((List (ℕ × List ℕ) × List ℕ) × (List (List ℕ) × List ℕ))
split_work band keys seed window_shift threads = do
  let num_slots = length band.coeff_rows
  let num_starts = num_slots - w + 1
  window ← window_size window_shift
  let per = div_ceil (div_ceil num_slots window) threads
  let bounds = dedup (bounds_from per window num_slots (suc threads) 0)
  let nt = length bounds - 1
  assert (ltb 0 nt)
  assigned ← assign_loop bounds num_starts seed keys (replicate nt []) []
  first ← unwrap (get_elem? bounds 0)
  slices ← split_loop first (drop 1 bounds) 0 band.coeff_rows
  done (slices, assigned)

-- After the threads, with the matrix as they leave it: the deferred keys, and then the spilled ones.
unfoldable pub merge : Banding → List ℕ → List ℕ → List (List ℕ) → Run Banding
merge band rows deferred spilled = do
  b ← Banding.add_all (record band { coeff_rows = rows }) deferred
  add_spilled b spilled

-- The part of the build with more than one thread.
unfoldable pub band_parallel : Banding → List ℕ → ℕ → ℕ → ℕ → Run Banding
band_parallel band keys seed window_shift threads = do
  let num_starts = length band.coeff_rows - w + 1
  split ← split_work band keys seed window_shift threads
  banded ← band_slices num_starts seed split.0.0 split.1.0
  merge band (banded.0 ++ split.0.1) split.1.1 banded.1

unfoldable pub from_keys_parallel_seeded : ℕ → List ℕ → ℕ → ℕ → ℕ → Run Solution
from_keys_parallel_seeded r keys seed window_shift threads = do
  band ← Banding.new (num_slots_for (length keys) r) seed
  let threads' = min (max threads 1) (length band.coeff_rows / w)
  b ←
      (if leb threads' 1
        then Banding.add_all band keys
        else band_parallel band keys seed window_shift threads')
  done (solve r b)

-- `Ribbon::from_keys_parallel_seeded` and `Ribbon::from_keys_parallel`.
unfoldable pub ribbon_from_keys_parallel_seeded : ℕ → List ℕ → ℕ → ℕ → ℕ → Run Ribbon
ribbon_from_keys_parallel_seeded r keys seed window_shift threads = do
  _ ← window_size window_shift
  s ← from_keys_parallel_seeded r keys seed window_shift threads
  done (record { soln = s })

unfoldable pub from_keys_parallel : ℕ → List ℕ → ℕ → Run Ribbon
from_keys_parallel r keys threads =
    ribbon_from_keys_parallel_seeded r keys 0 default_window_shift threads
