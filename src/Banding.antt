-- ===== src/Banding.antt =====
-- src/banding.rs: the banding matrix of the homogeneous filter (64-bit rows), its
-- back-substitution, and the queries on the solution.
--
-- `R` is the const generic of the source, given to each function that reads it. A loop on
-- `coeff_rows` has one more than the number of slots as its fuel. The reads of `back_substitute` are at slots
-- below `num_blocks * 64`, which do not pass the end of the vector.
pub mod Add
pub mod Build
pub mod Back
pub mod Query
pub mod Laws
pub mod Filled
use pleat.Common.{
  ℕ, zero, suc, ◌+◌, ◌-◌, ◌*◌, ◌/◌, ◌%◌, ◌^◌, ◌==◌, leb, ltb, if◌then◌else◌, Bool, true, false,
  ◌||◌, List, [], ◌∷◌, length, get_elem?, get_or, set, replicate, bit_and, bit_or, bit_xor, Run,
  done, panic, out_of_fuel, ◌>>=◌, ◌>>◌, assert, unwrap,
}
use pleat.Word.{wrapping_mul, shl, shr, cast, count_ones, trailing_zeros}
use pleat.Hash.{ribbon_hash, start, coeff_row}
use pleat.Interleaved.{blocks_loop}

abbrev pub w : ℕ
w = 64

pub record Banding : Type 0 where
  pub coeff_rows : List ℕ
  pub num_starts : ℕ
  pub raw_seed : ℕ

-- The subtraction panics below zero, as in a debug build.
unfoldable pub new : ℕ → ℕ → Run Banding
new num_slots raw_seed = do
  assert (num_slots % w == 0)
  assert (leb w num_slots)
  done (record {
    coeff_rows = replicate num_slots 0;
    num_starts = num_slots - w + 1;
    raw_seed = raw_seed;
  })

-- The loop of `add`: the rows after it, or a panic on an index past the end.
unfoldable pub add_loop : ℕ → List ℕ → ℕ → ℕ → Run (List ℕ)
add_loop zero rows i cr = out_of_fuel
add_loop (suc fuel) rows i cr = unwrap (get_elem? rows i) >>= λ cr_at_i.
    let sum = bit_xor cr cr_at_i in
    let tz = trailing_zeros w sum in
    let more = add_loop fuel rows (i + tz) (shr sum tz) in
    if cr_at_i == 0 then done (set rows i cr) else if sum == 0 then done rows else more

unfoldable pub add : Banding → ℕ → Run (Banding × Bool)
add b key = do
  let h = ribbon_hash key b.raw_seed
  rows ← add_loop (suc (length b.coeff_rows)) b.coeff_rows (start h b.num_starts) (coeff_row h)
  done (record b { coeff_rows = rows }, true)

unfoldable pub add_all : Banding → List ℕ → Run Banding
add_all b [] = done b
add_all b (k ∷ keys) = add b k >>= λ r. add_all r.0 keys

-- The result row of slot `i` with the row `cr`: pseudorandom where the slot is empty.
unfoldable pub load_row : ℕ → ℕ → ℕ
load_row i cr = if cr == 0 then cast 32 (wrapping_mul 64 (cast 64 i) 0x9E37_79B1_85EB_CA87) else 0

unfoldable pub back_substitute : ℕ → Banding → List ℕ
back_substitute r b =
    let rows = b.coeff_rows in
    let num_blocks = length rows / w in
    let cr = λ (i : ℕ). get_or rows i 0 in
    blocks_loop w cr (λ i. load_row i (cr i)) r num_blocks (replicate r 0)
      (replicate (num_blocks * r) 0)

pub record Solution : Type 0 where
  pub segments : List ℕ
  pub num_starts : ℕ
  pub raw_seed : ℕ

-- `relocate` is the caller's.
unfoldable pub relocate_storage : (List ℕ → List ℕ) → Solution → Run Solution
relocate_storage relocate s =
    let segments = relocate s.segments in
    assert (length segments == length s.segments) >> done (record s { segments = segments })

abbrev pub from_parts : ℕ → ℕ → List ℕ → Solution
from_parts num_starts raw_seed segments = record {
  segments = segments;
  num_starts = num_starts;
  raw_seed = raw_seed;
}

unfoldable pub solve : ℕ → Banding → Solution
solve r b = record {
  segments = back_substitute r b;
  num_starts = b.num_starts;
  raw_seed = b.raw_seed;
}

-- The columns `i .. i + n` of a query: even parity in each, with an early return at the first that
-- is odd.
unfoldable pub columns_loop : List ℕ → ℕ → ℕ → ℕ → ℕ → ℕ → ℕ → Run Bool
columns_loop segments lo hi cr_left cr_right i zero = done true
columns_loop segments lo hi cr_left cr_right i (suc n) = do
  a ← unwrap (get_elem? segments (lo + i))
  b ← unwrap (get_elem? segments (hi + i))
  let soln = bit_or (bit_and a cr_left) (bit_and b cr_right)
  let more = columns_loop segments lo hi cr_left cr_right (suc i) n
  if bit_and (count_ones w soln) 1 == 0 then more else done false

unfoldable pub contains : ℕ → Solution → ℕ → Run Bool
contains r s key =
    let h = ribbon_hash key s.raw_seed in
    let start_slot = start h s.num_starts in
    let segment_num = start_slot / w * r in
    let start_bit = start_slot % w in
    let cr = coeff_row h in
    let cr_left = shl w cr start_bit in
    let cr_right = shr cr ((w - start_bit) % w) in
    let maybe = if start_bit == 0 then 0 else r in
    columns_loop s.segments segment_num (segment_num + maybe) cr_left cr_right 0 r
