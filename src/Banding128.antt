-- ===== src/Banding128.antt =====
-- src/banding128.rs: the banding matrix of the standard filter (128-bit rows with result rows), the
-- search for a seed that solves, and the queries on the solution.
pub mod Add
pub mod Build
pub mod While
pub mod Seed
pub mod Back
pub mod Query
pub mod Laws
use pleat.Common.{
  ℕ, zero, suc, ◌+◌, ◌-◌, ◌*◌, ◌/◌, ◌%◌, ◌^◌, ◌==◌, leb, ltb, if◌then◌else◌, Bool, true, false, not,
  List, [], ◌∷◌, length, get_elem?, get_or, set, replicate, map, bit_and, bit_or, bit_xor, Option,
  some, none, slice, Run, done, panic, out_of_fuel, ◌>>=◌, ◌>>◌, assert, unwrap,
}
use mathlib.Core.Option
use pleat.Word.{shl, shr, cast, count_ones, trailing_zeros}
use pleat.Hash.{ribbon_hash, start, coeff_row_128, result_row, ordinal_to_raw_seed}
use pleat.Interleaved.{blocks_loop}
use pleat.Pleat
use pleat.Pleat.{pleat_into}
use pleat.Filter.{window_size, num_slots_for_128}

abbrev pub w128 : ℕ
w128 = 128

abbrev pub seed_count : ℕ
seed_count = 64

pub record Banding128 : Type 0 where
  pub coeff_rows : List ℕ
  pub result_rows : List ℕ
  pub num_starts : ℕ
  pub raw_seed : ℕ
  pub ordinal_seed : ℕ

unfoldable pub new : ℕ → Run Banding128
new num_slots = do
  assert (num_slots % w128 == 0)
  assert (leb w128 num_slots)
  done (record {
    coeff_rows = replicate num_slots 0;
    result_rows = replicate num_slots 0;
    num_starts = num_slots - w128 + 1;
    raw_seed = 0;
    ordinal_seed = 0;
  })

-- `iter_mut().for_each(|c| *c = 0)` on both vectors.
unfoldable pub reset : Banding128 → ℕ → Banding128
reset b ordinal = record b {
  coeff_rows = map (λ c. 0) b.coeff_rows;
  result_rows = map (λ c. 0) b.result_rows;
  ordinal_seed = ordinal;
  raw_seed = ordinal_to_raw_seed ordinal;
}

-- The loop of `add`: the two vectors after it, and whether the key was consistent.
unfoldable pub add_loop : ℕ → List ℕ → List ℕ → ℕ → ℕ → ℕ → Run (List ℕ × List ℕ × Bool)
add_loop zero rows results i cr rr = out_of_fuel
add_loop (suc fuel) rows results i cr rr = unwrap (get_elem? rows i) >>= λ cr_at_i.
    unwrap (get_elem? results i) >>= λ rr_at_i.
    let sum = bit_xor cr cr_at_i in
    let tz = trailing_zeros w128 sum in
    let more = add_loop fuel rows results (i + tz) (shr sum tz) (bit_xor rr rr_at_i) in
    if cr_at_i == 0
    then done (set rows i cr, set results i rr, true)
    else if sum == 0
    then done (rows, results, bit_xor rr rr_at_i == 0)
    else more

unfoldable pub add : Banding128 → ℕ → Run (Banding128 × Bool)
add b key = do
  let h = ribbon_hash key b.raw_seed
  r ←
      add_loop (suc (length b.coeff_rows)) b.coeff_rows b.result_rows (start h b.num_starts)
        (coeff_row_128 h) (result_row h)
  done (record b { coeff_rows = r.0; result_rows = r.1 }, r.2)

-- `keys.iter().all(|&k| b.add(k))`, which stops at the first key that fails.
unfoldable pub add_while : Banding128 → List ℕ → Run (Banding128 × Bool)
add_while b [] = done (b, true)
add_while b (k ∷ keys) = add b k >>= λ r. if r.1 then add_while r.0 keys else done r

-- `for ordinal in ordinal..ordinal + n`.
unfoldable pub seed_loop : ℕ → ℕ → Banding128 → List ℕ → Run (Option Banding128)
seed_loop zero ordinal b keys = done none
seed_loop (suc n) ordinal b keys = add_while (reset b ordinal) keys >>= λ r.
    let more = seed_loop n (suc ordinal) r.0 keys in if r.1 then done (some r.0) else more

unfoldable pub find_seed : ℕ → List ℕ → Run (Option Banding128)
find_seed num_slots keys = do b ← new num_slots; seed_loop seed_count 0 b keys

-- The same loop with the keys pleated for each seed, into the reused buffer `scratch`.
unfoldable pub seed_loop_pleated :
    ℕ → ℕ → Banding128 → List ℕ → List ℕ → ℕ → ℕ → Run (Option Banding128)
seed_loop_pleated zero ordinal b keys scratch num_starts window_shift = done none
seed_loop_pleated (suc n) ordinal b keys scratch num_starts window_shift =
    let b' = reset b ordinal in
    Pleat.new num_starts window_shift >>= λ plan.
    pleat_into plan keys (λ k. start (ribbon_hash k b'.raw_seed) num_starts) scratch >>= λ p.
    add_while b' p.0 >>= λ r.
    let more = seed_loop_pleated n (suc ordinal) r.0 keys p.0 num_starts window_shift in
    if r.1 then done (some r.0) else more

unfoldable pub find_seed_pleated : ℕ → List ℕ → ℕ → Run (Option Banding128)
find_seed_pleated num_slots keys window_shift = do
  b ← new num_slots
  seed_loop_pleated seed_count 0 b keys (replicate (length keys) 0) b.num_starts window_shift

unfoldable pub back_substitute : ℕ → Banding128 → List ℕ
back_substitute r b =
    let num_blocks = length b.coeff_rows / w128 in
    blocks_loop w128 (λ i. get_or b.coeff_rows i 0) (λ i. get_or b.result_rows i 0) r num_blocks
      (replicate r 0) (replicate (num_blocks * r) 0)

pub record Solution128 : Type 0 where
  pub segments : List ℕ
  pub num_starts : ℕ
  pub raw_seed : ℕ
  pub ordinal_seed : ℕ

-- `relocate` is the caller's.
unfoldable pub relocate_storage : (List ℕ → List ℕ) → Solution128 → Run Solution128
relocate_storage relocate s =
    let segments = relocate s.segments in
    assert (length segments == length s.segments) >> done (record s { segments = segments })

abbrev pub from_parts : ℕ → ℕ → List ℕ → Solution128
from_parts num_starts ordinal_seed segments = record {
  segments = segments;
  num_starts = num_starts;
  raw_seed = ordinal_to_raw_seed ordinal_seed;
  ordinal_seed = ordinal_seed;
}

unfoldable pub into_solution : ℕ → Banding128 → Solution128
into_solution r b = record {
  segments = back_substitute r b;
  num_starts = b.num_starts;
  raw_seed = b.raw_seed;
  ordinal_seed = b.ordinal_seed;
}

-- `((soln as u64) ^ ((soln >> 64) as u64)).count_ones() & 1`.
abbrev pub parity_128 : ℕ → ℕ
parity_128 soln = bit_and (count_ones 64 (bit_xor (cast 64 soln) (cast 64 (shr soln 64)))) 1

-- The columns `i .. i + n` of a query, with an early return at the first that disagrees.
unfoldable pub columns_loop : List ℕ → List ℕ → ℕ → ℕ → ℕ → ℕ → ℕ → Run Bool
columns_loop lo hi cr_left cr_right expected i zero = done true
columns_loop lo hi cr_left cr_right expected i (suc n) = do
  a ← unwrap (get_elem? lo i)
  b ← unwrap (get_elem? hi i)
  let soln = bit_or (bit_and a cr_left) (bit_and b cr_right)
  let more = columns_loop lo hi cr_left cr_right expected (suc i) n
  if parity_128 soln == bit_and (shr expected i) 1 then more else done false

unfoldable pub contains : ℕ → Solution128 → ℕ → Run Bool
contains r s key =
    let h = ribbon_hash key s.raw_seed in
    let start_slot = start h s.num_starts in
    let seg = start_slot / w128 * r in
    let start_bit = start_slot % w128 in
    let cr = coeff_row_128 h in
    let expected = result_row h in
    let cr_left = shl w128 cr start_bit in
    let cr_right = shr cr ((w128 - start_bit) % w128) in
    let maybe = if start_bit == 0 then 0 else r in
    slice s.segments seg r >>= λ lo.
    slice s.segments (seg + maybe) r >>= λ hi. columns_loop lo hi cr_left cr_right expected 0 r

unfoldable pub build_std128 : ℕ → List ℕ → Run (Option Solution128)
build_std128 r keys = do
  found ← find_seed (num_slots_for_128 (length keys) r) keys
  done (Option.map (into_solution r) found)

unfoldable pub build_std128_pleated : ℕ → List ℕ → ℕ → Run (Option Solution128)
build_std128_pleated r keys window_shift = do
  _ ← window_size window_shift
  found ← find_seed_pleated (num_slots_for_128 (length keys) r) keys window_shift
  done (Option.map (into_solution r) found)
