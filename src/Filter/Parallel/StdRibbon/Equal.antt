-- ===== src/Filter/Parallel/StdRibbon/Equal.antt =====
-- `build_std128_parallel` of src/banding128.rs and `StdRibbon::from_keys_parallel` of
-- src/filter.rs, beside the build in order of arrival.
use native.Mathlib.Nat
use pleat.Common.{
  ℕ, ◌+◌, ◌-◌, ◌/◌, ◌%◌, ◌^◌, ◌≤◌, ◌<◌, ◌≡◌, subst, ap, arith, ltb, leb, lt→ltb, min, Bool-cases,
  true, ◌||◌, inl, inr, List, length, done,
}
use pleat.Banding128.{w128, seed_count, build_std128}
use pleat.Banding128.Build.{HasShape}
use pleat.Banding128.While.{new-HasShape}
use pleat.Banding128.Seed.{find_seed-Search}
use pleat.Banding128.Laws.{Search-unique, build_std128_pleated-eq}
use pleat.Filter.StdRibbon.{from_keys}
use pleat.Filter.{default_window_shift, num_slots_for_128, window_size, div_ceil}
use pleat.Filter.Slots.{num_slots_for_128_blocks, num_slots_for_128_bounds}
use pleat.Filter.Parallel.Bounds.{div_ceil-pos}
use pleat.Filter.Parallel.StdRibbon.{build_std128_parallel, std_from_keys_parallel}
use pleat.Filter.Parallel.StdRibbon.Round.{parallel_seed_loop-Search}

-- For at most 32 columns, fewer than 2 ^ 43 keys and a window shift below 64, the parallel
-- standard build neither panics nor runs out of fuel on any number of threads, and gives the same
-- solution under the same seed as the build in order of arrival, or fails where that fails.
pub build_std128_parallel-eq :
    (r : ℕ)
    → r ≤ 32
    → (keys : List ℕ) (window_shift threads : ℕ) → length keys < 2 ^ 43
    → window_shift < 64
    → build_std128_parallel r keys window_shift threads ≡ build_std128 r keys
unfolding build_std128_parallel build_std128 window_size
build_std128_parallel-eq r width keys window_shift threads few shift =
    let n : ℕ = num_slots_for_128 (length keys) r in
    let m : n % 128 ≡ 0 = num_slots_for_128_blocks (length keys) r in
    let (_, lo, _, hi) = num_slots_for_128_bounds (length keys) r width few in
    let shifted : ltb window_shift 64 ≡ true = lt→ltb window_shift 64 shift in
    let window : 0 < 2 ^ window_shift = Nat.one-le-pow window_shift 2 (omega arith) in
    let windows : 0 < div_ceil n (2 ^ window_shift) =
      div_ceil-pos n (2 ^ window_shift) (omega arith) window in
    elim (Bool-cases (leb threads 1 || ltb (n / w128) 2)) [
      | inl e ↦ rw e (build_std128_pleated-eq r width keys window_shift few shift)
      | inr e ↦
          let (out, run, h) = find_seed-Search n m (omega arith) (omega arith) keys in
          let (b, run', v, starts) = new-HasShape n m (omega arith) (omega arith) in
          let slots : n ≡ n - 127 + 127 = omega arith in
          let some_thread : 0 < min threads (div_ceil n (2 ^ window_shift)) = ground arith in
          let (out', run'', h') =
            parallel_seed_loop-Search (n - 127) seed_count 0 b keys (2 ^ window_shift)
              (min threads (div_ceil n (2 ^ window_shift)))
              (subst (λ (k : ℕ). HasShape k b) slots v) starts (omega arith) window some_thread in
          rw (e, run, run', shifted, run'')
            (ap done (Search-unique (n - 127) keys r (n / 128) out' out (omega arith) h' h))
    ]

-- `from_keys_parallel` of the filter ends in the same result as `from_keys`, an error included.
std_from_keys_parallel-eq :
    (r : ℕ)
    → r ≤ 32
    → (keys : List ℕ) (threads : ℕ) → length keys < 2 ^ 43
    → std_from_keys_parallel r keys threads ≡ from_keys r keys
unfolding std_from_keys_parallel from_keys
std_from_keys_parallel-eq r width keys threads few =
    rw (build_std128_parallel-eq r width keys default_window_shift threads few (omega arith))
