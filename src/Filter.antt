-- ===== src/Filter.antt =====
-- src/filter.rs: the public filters. This file has the names that both families use; the children
-- `Ribbon` and `StdRibbon` are the families.
pub mod Slots
pub mod Ribbon
pub mod StdRibbon
pub mod Batch
pub mod Parallel
use pleat.Common.{
  ℕ, zero, suc, ◌+◌, ◌-◌, ◌*◌, ◌/◌, ◌%◌, ◌^◌, ◌==◌, ltb, if◌then◌else◌, max, Bool, List, [], ◌∷◌,
  ◌++◌, length, take, drop, Run, done, out_of_fuel, ◌>>=◌, ◌>>◌, assert,
}

abbrev pub default_window_shift : ℕ
default_window_shift = 16

unfoldable pub window_size : ℕ → Run ℕ
window_size window_shift = do assert (ltb window_shift 64); done (2 ^ window_shift)

pub data BuildError : Type 0 where
  no_solving_seed : BuildError

-- `usize::div_ceil`.
abbrev pub div_ceil : ℕ → ℕ → ℕ
div_ceil a b = (a + b - 1) / b

-- `(overhead(r) * n as f64) as usize` with `overhead(r) = 1.0 + (4.0 + r * 0.25) / 64.0`. The
-- factor is (272 + r) / 256, and the product is exact in an `f64` while (272 + r) * n is below
-- 2 ^ 53.
abbrev pub overhead_times : ℕ → ℕ → ℕ
overhead_times r n = (272 + r) * n / 256

unfoldable pub num_slots_for : ℕ → ℕ → ℕ
num_slots_for n r =
    let raw = overhead_times r n in
    let s = div_ceil raw 64 * 64 in let s' = if s == 64 then s + 64 else s in max s' (2 * 64)

-- The same with `overhead128(r) = 1.0 + (4.0 + r * 0.25) / 128.0`, which is (528 + r) / 512. The
-- product is exact while (528 + r) * n is below 2 ^ 53, so for fewer than 2 ^ 43 keys and at most 32
-- columns; beyond that the `f64` may round it up.
abbrev pub overhead128_times : ℕ → ℕ → ℕ
overhead128_times r n = (528 + r) * n / 512

unfoldable pub num_slots_for_128 : ℕ → ℕ → ℕ
num_slots_for_128 n r =
    let raw = overhead128_times r n in
    let s = div_ceil raw 128 * 128 in let s' = if s == 128 then s + 128 else s in max s' (2 * 128)

-- `contains_batch`, for the query `ask`. The prefetches of a chunk change nothing.
module _ (ask : ℕ → Run Bool) where
  -- The answers for one chunk.
  unfoldable pub answer_chunk : List ℕ → Run (List Bool)
  answer_chunk [] = done []
  answer_chunk (k ∷ keys) = do a ← ask k; rest ← answer_chunk keys; done (a ∷ rest)

  -- The chunks of 32 keys, in turn.
  unfoldable pub chunks_loop : ℕ → List ℕ → Run (List Bool)
  chunks_loop fuel [] = done []
  chunks_loop zero (k ∷ keys) = out_of_fuel
  chunks_loop (suc fuel) (k ∷ keys) = do
    answers ← answer_chunk (take 32 (k ∷ keys))
    rest ← chunks_loop fuel (drop 32 (k ∷ keys))
    done (answers ++ rest)

  -- What `out` holds afterwards.
  unfoldable pub contains_batch : List ℕ → List Bool → Run (List Bool)
  contains_batch keys out = do assert (length keys == length out); chunks_loop (length keys) keys
