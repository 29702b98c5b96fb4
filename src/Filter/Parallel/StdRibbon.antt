-- ===== src/Filter/Parallel/StdRibbon.antt =====
-- `build_std128_parallel` and `band_range_128` of src/banding128.rs: the parallel build of the
-- standard filter.
pub mod Land
pub mod Trial
pub mod Thread
pub mod Threads
pub mod Tail
pub mod Round
pub mod Equal
use mathlib.Core.Option
use pleat.Common.{
  ℕ, zero, suc, ◌+◌, ◌-◌, ◌/◌, ◌==◌, leb, ltb, min, if◌then◌else◌, Bool, true, false, ◌||◌, List,
  [], ◌∷◌, ◌++◌, length, get_elem?, set, drop, replicate, bit_xor, Option, some, none, Run, done,
  out_of_fuel, ◌>>=◌, ◌>>◌, assert, unwrap, Result, ok_or,
}
use pleat.Word.{shr, trailing_zeros}
use pleat.Hash.{ribbon_hash, start, coeff_row_128, result_row}
use pleat.Banding128
use pleat.Banding128.{
  Banding128, Solution128, w128, seed_count, reset, add_while, into_solution, build_std128_pleated,
}
use pleat.Filter.{
  BuildError, no_solving_seed, num_slots_for_128, window_size, default_window_shift, div_ceil,
}
use pleat.Filter.StdRibbon.{StdRibbon}
use pleat.Filter.Parallel.{bounds_from, dedup, assign_loop, split_loop}

-- What the inner loop of `band_range_128` ends in: the rows after it, a reduction that leaves the
-- range, or an inconsistent dependence.
pub data Landing : Type 0 where
  banded : List ℕ → List ℕ → Landing
  spilled : Landing
  inconsistent : Landing

unfoldable pub range_loop : ℕ → List ℕ → List ℕ → ℕ → ℕ → ℕ → Run Landing
range_loop zero coeff result i cr rr = out_of_fuel
range_loop (suc fuel) coeff result i cr rr =
    let step = unwrap (get_elem? coeff i) >>= λ cr_at_i. unwrap (get_elem? result i) >>= λ rr_at_i.
    let sum = bit_xor cr cr_at_i in
    let rr' = bit_xor rr rr_at_i in
    let tz = trailing_zeros w128 sum in
    let more = range_loop fuel coeff result (i + tz) (shr sum tz) rr' in
    if cr_at_i == 0
    then done (banded (set coeff i cr) (set result i rr))
    else if sum == 0
    then done (if rr' == 0 then banded coeff result else inconsistent)
    else more in
    if leb (length coeff) i then done spilled else step

-- The rows after the run of a thread, and the keys it spilled, or nothing if the seed fails.
abbrev pub Ranged : Type 0
Ranged = List ℕ × List ℕ × Option (List ℕ)

unfoldable pub spill_key : ℕ → Ranged → Ranged
spill_key k r = (r.0, r.1, Option.map (λ keys. k ∷ keys) r.2)

unfoldable pub land : ℕ → List ℕ → List ℕ → Landing → (List ℕ → List ℕ → Run Ranged) → Run Ranged
land k coeff result (banded coeff' result') next = next coeff' result'
land k coeff result spilled next = next coeff result >>= λ r. done (spill_key k r)
land k coeff result inconsistent next = done (coeff, result, none)

unfoldable pub band_range_128 : List ℕ → List ℕ → ℕ → ℕ → ℕ → List ℕ → Run Ranged
band_range_128 coeff result base num_starts raw [] = done (coeff, result, some [])
band_range_128 coeff result base num_starts raw (k ∷ keys) = do
  let h = ribbon_hash k raw
  assert (leb base (start h num_starts))
  landing ←
      range_loop (suc (length coeff)) coeff result (start h num_starts - base) (coeff_row_128 h)
        (result_row h)
  land k coeff result landing (λ c r. band_range_128 c r base num_starts raw keys)

-- The threads, each with its slices and its bucket.
unfoldable pub band_ranges :
    ℕ
    → ℕ
    → List (ℕ × List ℕ)
    → List (ℕ × List ℕ)
    → List (List ℕ)
    → Run (List ℕ × List ℕ × List (Option (List ℕ)))
band_ranges num_starts raw [] results buckets = done ([], [], [])
band_ranges num_starts raw (c ∷ coeffs) [] buckets = done ([], [], [])
band_ranges num_starts raw (c ∷ coeffs) (r ∷ results) [] = done ([], [], [])
band_ranges num_starts raw (c ∷ coeffs) (r ∷ results) (bucket ∷ buckets) = do
  out ← band_range_128 c.1 r.1 c.0 num_starts raw bucket
  more ← band_ranges num_starts raw coeffs results buckets
  done (out.0 ++ more.0, out.1 ++ more.1, out.2 ∷ more.2)

-- `results.iter().any(Option::is_none)`.
unfoldable pub any_none : List (Option (List ℕ)) → Bool
any_none [] = false
any_none (none ∷ results) = true
any_none (some keys ∷ results) = any_none results

-- `add` over the spilled keys of each thread, up to the first that fails.
unfoldable pub tail_loop : Banding128 → List (Option (List ℕ)) → Run (Banding128 × Bool)
tail_loop b [] = done (b, true)
tail_loop b (none ∷ results) = tail_loop b results
tail_loop b (some keys ∷ results) =
    add_while b keys >>= λ r. if r.1 then tail_loop r.0 results else done r

-- One round of the seed loop: the matrix after it, and whether the seed solves.
unfoldable pub try_seed : ℕ → Banding128 → List ℕ → ℕ → ℕ → Run (Banding128 × Bool)
try_seed ordinal b keys window threads = do
  let b' = reset b ordinal
  let num_slots = length b.coeff_rows
  let per = div_ceil (div_ceil num_slots window) threads
  let bounds = dedup (bounds_from per window num_slots (suc threads) 0)
  let nt = length bounds - 1
  assert (ltb 0 nt)
  assigned ← assign_loop bounds b.num_starts b'.raw_seed keys (replicate nt []) []
  first ← unwrap (get_elem? bounds 0)
  coeffs ← split_loop first (drop 1 bounds) 0 b'.coeff_rows
  results ← split_loop first (drop 1 bounds) 0 b'.result_rows
  out ← band_ranges b.num_starts b'.raw_seed coeffs.0 results.0 assigned.0
  let b'' = record b' { coeff_rows = out.0 ++ coeffs.1; result_rows = out.1 ++ results.1 }
  let tail = add_while b'' assigned.1 >>= λ r. if r.1 then tail_loop r.0 out.2 else done r
  if any_none out.2 then done (b'', false) else tail

unfoldable pub parallel_seed_loop : ℕ → ℕ → Banding128 → List ℕ → ℕ → ℕ → Run (Option Banding128)
parallel_seed_loop zero ordinal b keys window threads = done none
parallel_seed_loop (suc n) ordinal b keys window threads =
    try_seed ordinal b keys window threads >>= λ r.
    let more = parallel_seed_loop n (suc ordinal) r.0 keys window threads in
    if r.1 then done (some r.0) else more

unfoldable pub build_std128_parallel : ℕ → List ℕ → ℕ → ℕ → Run (Option Solution128)
build_std128_parallel r keys window_shift threads =
    let num_slots = num_slots_for_128 (length keys) r in
    let ranged = Banding128.new num_slots >>= λ b. window_size window_shift >>= λ window.
    parallel_seed_loop seed_count 0 b keys window (min threads (div_ceil num_slots window))
    >>= λ found. done (Option.map (into_solution r) found) in
    if leb threads 1 || ltb (num_slots / w128) 2
    then build_std128_pleated r keys window_shift
    else ranged

unfoldable pub std_from_keys_parallel : ℕ → List ℕ → ℕ → Run (Result BuildError StdRibbon)
std_from_keys_parallel r keys threads = do
  found ← build_std128_parallel r keys default_window_shift threads
  done (ok_or (Option.map (λ s. record { soln = s }) found) no_solving_seed)
