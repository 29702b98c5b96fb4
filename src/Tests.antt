-- ===== src/Tests.antt =====
-- Runs of the code on small inputs, and the properties at concrete inputs.
mod Threads
mod Storage
mod Filters
mod Prefetch
use mathlib.Core.List.{Perm, Permᴰ}
use native.Mathlib.Omega.{arith}
use pleat.Common.{
  ℕ, ◌+◌, ◌-◌, ◌*◌, ◌/◌, ltb, lt→ltb, le→ltb, ◌%◌, ◌^◌, ◌≤◌, ◌<◌, ◌≡◌, refl, ap, ◌∙◌, Bool, true,
  false, inl, List, [], ◌∷◌, length, get_or, get_or-replicate, if◌then◌else◌, replicate, map, All,
  Option, Run, done, Result, ok, OnOk, Returns,
}
use pleat.Hash.{start}
use pleat.Hash.Bounds.{start-lt}
use pleat.Pleat.{PleatPlan, pleat_into, num_windows}
use pleat.Pleat.Windows.{windows, below}
use pleat.Pleat.Order.{window, pleat_into-windows, pleat_into-perm}
use pleat.Banding
use pleat.Banding.{Banding, solve}
use pleat.Banding.Build.{IsBand, BandSolves, Extends, add-Extends}
use pleat.Banding.Back.{column}
use pleat.Banding.Query.{IsSolution, fails, contains-none_from}
use pleat.Banding.Filled.{solve-only}
use pleat.System.Fill.{dot_zero}
use pleat.Banding.Laws.{solve-IsSolution, solve-BandSolves}
use pleat.Interleaved.Agree.{none_from}
use pleat.Banding128
use pleat.Banding128.{Banding128, Solution128, find_seed, build_std128, build_std128_pleated}
use pleat.Banding128.Build.{HasShape, Ran, add-Ran}
use pleat.Banding128.While.{IsFresh, reset-IsFresh}
use pleat.Word.Bits.{bit, bit-zero}
use pleat.Banding128.Query.{
  IsSolution as IsSolution_128, fails as fails_128, contains-none_from_128,
}
use pleat.Banding128.Seed.{Search, find_seed-Search}
use pleat.Banding128.Laws.{build_std128_pleated-eq, build_std128-perm}
use pleat.Format.{family_std, decode}
use pleat.Format.Decode.{Accepted, decode-Returns}
use pleat.Filter.{BuildError, num_slots_for, num_slots_for_128}
use pleat.Filter
use pleat.Filter.Slots.{num_slots_for_bounds, num_slots_for_128_bounds}
use pleat.Filter.Batch.{contains_batch-map}
use pleat.Filter.Ribbon
use pleat.Filter.Parallel.Ribbon as Parallel
use pleat.Filter.Parallel.Equal.{ribbon_from_keys_parallel_seeded-eq}
use pleat.Filter.Parallel.StdRibbon as Parallel_std
use pleat.Filter.Parallel.StdRibbon.Equal.{build_std128_parallel-eq}
use pleat.Filter.Parallel.Slices.{Sliced, band_slice-Sliced}
use pleat.Filter.Ribbon.{Ribbon}
use pleat.Filter.Ribbon.Laws.{
  from_keys_seeded-contains, from_keys_seeded-perm, from_keys_pleated_seeded-eq,
  from_hashable-contains_hashable,
}
use pleat.Filter.Ribbon.Store.{from_bytes-Returns, from_keys_seeded-from_bytes}
use pleat.Filter.StdRibbon
use pleat.Filter.StdRibbon.{StdRibbon}
use pleat.Filter.StdRibbon.Laws.{Built, from_keys-Built}
use pleat.Filter.StdRibbon.Store.{from_bytes-Returns_std, from_keys-from_bytes}

abbrev sample : List ℕ
sample = 17 ∷ 4 ∷ 99 ∷ []

abbrev turned : List ℕ
turned = 4 ∷ 17 ∷ 99 ∷ []

sample-turned : Perm sample turned
sample-turned = ∣ Permᴰ.swap refl refl ∣₁

abbrev plan : PleatPlan
plan = record { num_starts = 100; shift = 4 }

abbrev empty_band : Banding
empty_band = record { coeff_rows = replicate 128 0; num_starts = 65; raw_seed = 0 }

empty_band-IsBand : IsBand empty_band
empty_band-IsBand = record {
  starts = omega arith;
  starts_u64 = omega arith;
  slots = refl;
  echelon = record {
    slot = λ i. inl (get_or-replicate 128 i 0);
    past = λ i p. get_or-replicate 128 i 0;
  };
}

abbrev empty_band_128 : Banding128
empty_band_128 = record {
  coeff_rows = replicate 256 0;
  result_rows = replicate 256 0;
  num_starts = 129;
  raw_seed = 0;
  ordinal_seed = 0;
}

empty_band_128-HasShape : HasShape 256 empty_band_128
empty_band_128-HasShape = record {
  starts = omega arith;
  starts_u64 = omega arith;
  slots = refl;
  rows = refl;
  results = refl;
}

empty_band_128-IsFresh : IsFresh 256 129 3 (Banding128.reset empty_band_128 3)
empty_band_128-IsFresh = reset-IsFresh 256 129 empty_band_128 3 empty_band_128-HasShape refl

from_keys_seeded-contains_example :
    (f : Ribbon) × (Ribbon.from_keys_seeded 7 sample 5 ≡ done f)
    × All (λ k. Ribbon.contains 7 f k ≡ done true) sample
from_keys_seeded-contains_example = from_keys_seeded-contains 7 (omega arith) sample 5 (omega arith)

from_keys-Built_example :
    (out : Result BuildError StdRibbon) × (StdRibbon.from_keys 7 sample ≡ done out)
    × Built 7 sample out
from_keys-Built_example = from_keys-Built 7 (omega arith) sample (omega arith)

from_keys_pleated_seeded-eq_example :
    Ribbon.from_keys_pleated_seeded 7 sample 5 4 ≡ Ribbon.from_keys_seeded 7 sample 5
from_keys_pleated_seeded-eq_example =
    from_keys_pleated_seeded-eq 7 (omega arith) sample 5 4 (omega arith) (omega arith)

build_std128_pleated-eq_example : build_std128_pleated 7 sample 4 ≡ build_std128 7 sample
build_std128_pleated-eq_example =
    build_std128_pleated-eq 7 (omega arith) sample 4 (omega arith) (omega arith)

from_keys_seeded-from_bytes_example :
    (f : Ribbon) × (Ribbon.from_keys_seeded 7 sample 5 ≡ done f)
    × (Ribbon.from_bytes 7 (Ribbon.to_bytes 7 f) ≡ done (ok f))
from_keys_seeded-from_bytes_example =
    from_keys_seeded-from_bytes 7 (omega arith) sample 5 (omega arith) (omega arith)

from_keys-from_bytes_example :
    (out : Result BuildError StdRibbon) × (StdRibbon.from_keys 7 sample ≡ done out)
    × OnOk (λ f. StdRibbon.from_bytes 7 (StdRibbon.to_bytes 7 f) ≡ done (ok f)) out
from_keys-from_bytes_example = from_keys-from_bytes 7 (omega arith) sample (omega arith)

from_bytes-Returns_example :
    Returns
      (OnOk (λ f. (key : ℕ) → Returns (λ (b : Bool). Unit {0}) (Ribbon.contains 7 f key)))
      (Ribbon.from_bytes 7 (80 ∷ 76 ∷ []))
from_bytes-Returns_example = from_bytes-Returns 7 (omega arith) (80 ∷ 76 ∷ [])

from_bytes-Returns_std_example :
    Returns
      (OnOk (λ f. (key : ℕ) → Returns (λ (b : Bool). Unit {0}) (StdRibbon.contains 7 f key)))
      (StdRibbon.from_bytes 7 (80 ∷ 76 ∷ []))
from_bytes-Returns_std_example = from_bytes-Returns_std 7 (omega arith) (80 ∷ 76 ∷ [])

decode-Returns_example : Returns (Accepted 7 16 128) (decode (replicate 50 0) family_std 7 16 128)
decode-Returns_example = decode-Returns (replicate 50 0) family_std 7 16 128 (omega arith)

from_keys_seeded-perm_example :
    Ribbon.from_keys_seeded 7 sample 5 ≡ Ribbon.from_keys_seeded 7 turned 5
from_keys_seeded-perm_example =
    from_keys_seeded-perm 7 (omega arith) sample turned 5 (omega arith) sample-turned

build_std128-perm_example : build_std128 7 sample ≡ build_std128 7 turned
build_std128-perm_example =
    build_std128-perm 7 (omega arith) sample turned (omega arith) sample-turned

from_hashable-contains_hashable_example :
    (f : Ribbon) × (Ribbon.from_hashable (λ (b : Bool). if b then 5 else 6) 7 (true ∷ false ∷ [])
      ≡ done f)
    × All
        (λ k. Ribbon.contains_hashable (λ (b : Bool). if b then 5 else 6) 7 f k ≡ done true)
        (true ∷ false ∷ [])
from_hashable-contains_hashable_example =
    from_hashable-contains_hashable (λ (b : Bool). if b then 5 else 6) 7 (omega arith)
      (true ∷ false ∷ []) (omega arith)

add-Extends_example :
    (b' : Banding) × (Banding.add empty_band 42 ≡ done (b', true)) × Extends empty_band (42 ∷ []) b'
add-Extends_example = add-Extends empty_band 42 empty_band-IsBand

solve-BandSolves_example :
    (x : ℕ → ℕ → Bool) × IsSolution 7 (solve 7 empty_band) x
    × ((j : ℕ) → BandSolves empty_band (x j))
solve-BandSolves_example = solve-BandSolves 7 2 empty_band empty_band-IsBand refl

-- Column 3 of a matrix without rows.
abbrev filling : ℕ → Bool
filling i = if ltb i 128 then bit 3 (i * 0x9e3779b185ebca87) else false

filling_empty :
    (i : ℕ)
    → i < 128
    → get_or empty_band.coeff_rows i 0 ≡ 0
    → filling i ≡ bit 3 (i * 0x9e3779b185ebca87)
filling_empty i p e = rw (lt→ltb i 128 p) refl

filling_past : (i : ℕ) → 128 ≤ i → filling i ≡ false
filling_past i p = rw (le→ltb i 128 p) refl

filling-BandSolves : BandSolves empty_band filling
filling-BandSolves i = rw (get_or-replicate {A = ℕ} 128 i 0) (dot_zero 64 (λ b. filling (i + b)))

solve-only_example :
    bit (69 % 64) (get_or (solve 7 empty_band).segments (69 / 64 * 7 + 3) 0) ≡ filling 69
solve-only_example =
    solve-only 7 2 empty_band 3 filling (omega arith) (omega arith) empty_band-IsBand refl
      filling-BandSolves filling_empty filling_past 69 (omega arith)

contains-none_from_example :
    Banding.contains 7 (solve 7 empty_band) 42
    ≡ done (none_from (fails (solve 7 empty_band) (column empty_band.coeff_rows) 42) 0 7)
contains-none_from_example =
    contains-none_from 7 (solve 7 empty_band) (column empty_band.coeff_rows)
      (solve-IsSolution 7 2 empty_band empty_band-IsBand refl) 42

add-Ran_example :
    (out : Banding128 × Bool) × (Banding128.add (Banding128.reset empty_band_128 3) 42 ≡ done out)
    × Ran 256 (Banding128.reset empty_band_128 3) (42 ∷ []) out
add-Ran_example =
    add-Ran 256 (Banding128.reset empty_band_128 3) 42 empty_band_128-IsFresh.shape
      empty_band_128-IsFresh.matrix

find_seed-Search_example :
    (out : Option Banding128) × (find_seed 256 sample ≡ done out)
    × Search (256 - 127) sample 0 64 out
find_seed-Search_example = find_seed-Search 256 refl (omega arith) (omega arith) sample

pleat_into-windows_example :
    (offsets : List ℕ) × (pleat_into plan sample (λ k. k % 100) (0 ∷ 0 ∷ 0 ∷ [])
      ≡ done (windows (window plan (λ k. k % 100)) (num_windows plan) sample, offsets))
    × (length offsets ≡ num_windows plan + 1)
    × ((v : ℕ)
        → v ≤ num_windows plan
        → get_or offsets v 0 ≡ below (window plan (λ k. k % 100)) v sample)
pleat_into-windows_example =
    pleat_into-windows plan (λ k. k % 100) sample (0 ∷ 0 ∷ 0 ∷ []) (λ k. omega arith) refl

abbrev flat : Solution128
flat = record { segments = replicate 14 0; num_starts = 129; raw_seed = 0; ordinal_seed = 0 }

flat-IsSolution : IsSolution_128 7 flat (λ j i. false)
flat-IsSolution = record {
  blocks = 2;
  starts = omega arith;
  starts_u64 = omega arith;
  slots = refl;
  words = refl;
  stores =
      λ blk j b lo p jr bw. ap (bit b) (get_or-replicate {A = ℕ} 14 (blk * 7 + j) 0) ∙ bit-zero b;
}

contains-none_from_128_example :
    Banding128.contains 7 flat 42 ≡ done (none_from (fails_128 flat (λ j i. false) 42) 0 7)
contains-none_from_128_example = contains-none_from_128 7 flat (λ j i. false) flat-IsSolution 42

abbrev ask : ℕ → Run Bool
ask = Banding.contains 7 (solve 7 empty_band)

abbrev answer : ℕ → Bool
answer k = none_from (fails (solve 7 empty_band) (column empty_band.coeff_rows) k) 0 7

ask-answer : (k : ℕ) → ask k ≡ done (answer k)
ask-answer =
    contains-none_from 7 (solve 7 empty_band) (column empty_band.coeff_rows)
      (solve-IsSolution 7 2 empty_band empty_band-IsBand refl)

contains_batch-map_example :
    Filter.contains_batch ask sample (false ∷ false ∷ false ∷ []) ≡ done (map answer sample)
contains_batch-map_example =
    contains_batch-map ask answer sample (false ∷ false ∷ false ∷ []) refl
      (ask-answer 17, (ask-answer 4, (ask-answer 99, tt)))

num_slots_for_bounds_example :
    (128 ≤ num_slots_for 3 7) × (3 ≤ num_slots_for 3 7) × (num_slots_for 3 7 < 2 ^ 46)
num_slots_for_bounds_example = num_slots_for_bounds 3 7 (omega arith) (omega arith)

num_slots_for_128_bounds_example :
    ((528 + 7) * 3 < 2 ^ 53)
    × (256 ≤ num_slots_for_128 3 7)
    × (3 ≤ num_slots_for_128 3 7)
    × (num_slots_for_128 3 7 < 2 ^ 46)
num_slots_for_128_bounds_example = num_slots_for_128_bounds 3 7 (omega arith) (omega arith)

start-lt_example : start 123456789 129 < 129
start-lt_example = start-lt 123456789 129 (omega arith) (omega arith) (omega arith)

band_slice-Sliced_example :
    (out : List ℕ × List ℕ) × (Parallel.band_slice (replicate 64 0) 0 65 0 (42 ∷ 7 ∷ []) ≡ done out)
    × Sliced empty_band [] (replicate 64 0) (replicate 64 0) (42 ∷ 7 ∷ []) out
band_slice-Sliced_example =
    band_slice-Sliced empty_band [] (replicate 64 0) (replicate 64 0) (42 ∷ 7 ∷ [])
      empty_band-IsBand (omega arith, (omega arith, tt))

ribbon_from_keys_parallel_seeded-eq_example :
    Parallel.ribbon_from_keys_parallel_seeded 7 sample 5 4 2 ≡ Ribbon.from_keys_seeded 7 sample 5
ribbon_from_keys_parallel_seeded-eq_example =
    ribbon_from_keys_parallel_seeded-eq 7 (omega arith) sample 5 4 2 (omega arith) (omega arith)

build_std128_parallel-eq_example :
    Parallel_std.build_std128_parallel 7 sample 4 2 ≡ build_std128 7 sample
build_std128_parallel-eq_example =
    build_std128_parallel-eq 7 (omega arith) sample 4 2 (omega arith) (omega arith)

-- Two threads build what one does.
abbrev few : List ℕ
few = 5 ∷ 6 ∷ []

parallel_as_arrival :
    Parallel.ribbon_from_keys_parallel_seeded 1 few 3 5 2 ≡ Ribbon.from_keys_seeded 1 few 3
unfolding Parallel.ribbon_from_keys_parallel_seeded Parallel.from_keys_parallel_seeded
    Ribbon.from_keys_seeded Banding.new Filter.window_size num_slots_for Banding.add_all Banding.add
    Parallel.band_parallel Parallel.split_work Parallel.merge Banding.add_loop
    pleat.Filter.Parallel.dedup start pleat.Filter.Parallel.bounds_from pleat.Hash.ribbon_hash
    pleat.Filter.Parallel.assign_loop pleat.Filter.Parallel.assign
    pleat.Filter.Parallel.partition_point pleat.Filter.Parallel.split_loop Parallel.band_slices
    Parallel.band_slice Parallel.add_spilled
parallel_as_arrival = refl
