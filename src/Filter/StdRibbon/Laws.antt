-- ===== src/Filter/StdRibbon/Laws.antt =====
-- The builds of `StdRibbon<R>` of src/filter.rs.
use mathlib.Core.Option
use pleat.Common.{
  ℕ, ◌-◌, ◌^◌, ◌≤◌, ◌<◌, ◌≡◌, arith, ◌⊎◌, inl, inr, List, length, Option, done, Result, ok, err,
  ok_or,
}
use pleat.Filter.{BuildError, no_solving_seed, num_slots_for_128, default_window_shift}
use pleat.Banding128.{Solution128}
use pleat.Banding128.Seed.{Unsolvable}
use pleat.Banding128.Laws.{Finds, Found, build_std128-Finds, build_std128_pleated-eq}
use pleat.Filter.StdRibbon.{StdRibbon, from_keys, from_keys_pleated}

-- What a build ends in: a filter with a solution of the keys' equations, or the error, if no
-- ordinal below 64 has one.
abbrev pub Built : ℕ → List ℕ → Result BuildError StdRibbon → Type 0
Built r keys out =
    let num_starts = num_slots_for_128 (length keys) r - 127 in
    ((out ≡ err no_solving_seed) × ((o : ℕ) → o < 64 → Unsolvable num_starts o keys))
    ⊎ ((f : StdRibbon) × (out ≡ ok f) × Found r num_starts keys f.soln)

Finds-Built :
    (r : ℕ) (keys : List ℕ) (out : Option Solution128)
    → Finds r (num_slots_for_128 (length keys) r - 127) keys out
    → Built r keys (ok_or (Option.map (λ s. record { soln = s }) out) no_solving_seed)
Finds-Built r keys out (inl (e, h)) = inl (rw e, h)
Finds-Built r keys out (inr (s, e, h)) = inr (record { soln = s }, rw e, h)

module _ (r : ℕ) (width : r ≤ 32) where
  -- For at most 32 columns and fewer than 2 ^ 43 keys, the standard build in order of arrival
  -- ends in a result. Either it is the error, and no choice of columns solves the keys' equations
  -- under any ordinal seed below 64; or it is a filter under an ordinal below 64, all smaller
  -- ones having no such choice, which answers `true`, without a panic, for each of the keys and
  -- has a word of 128 bits for each block and column.
  pub from_keys-Built :
      (keys : List ℕ)
      → length keys < 2 ^ 43
      → (out : Result BuildError StdRibbon) × (from_keys r keys ≡ done out) × Built r keys out
  unfolding from_keys
  from_keys-Built keys few =
      let (out, run, h) = build_std128-Finds r width keys few in
      (
        ok_or (Option.map (λ s. record { soln = s }) out) no_solving_seed,
        rw run,
        Finds-Built r keys out h,
      )

  -- Pleated construction gives the same result, whether it succeeds or fails.
  pub from_keys_pleated-eq :
      (keys : List ℕ) → length keys < 2 ^ 43 → from_keys_pleated r keys ≡ from_keys r keys
  unfolding from_keys_pleated from_keys
  from_keys_pleated-eq keys few =
      rw (build_std128_pleated-eq r width keys default_window_shift few (omega arith))
