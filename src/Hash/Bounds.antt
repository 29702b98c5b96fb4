-- ===== src/Hash/Bounds.antt =====
-- The ranges of the functions of src/hash.rs and src/hash128.rs.
use pleat.Common.{ℕ, ◌*◌, ◌^◌, ◌<◌, ◌≡◌, arith, true, bit_xor}
use pleat.Word.{wrapping_mul, shl, shr}
use pleat.Word.Bits.{bit, odd, bit-bit_or, bit_or-lt, bit_xor-lt}
use pleat.Hash.{
  ribbon_hash, start, coeff_row, coeff_row_128, result_row, k_coeff_and_result_factor,
  k_coeff_xor64, fold33,
}

pub fold33-lt : (h : ℕ) → h < 2 ^ 64 → fold33 h < 2 ^ 64
fold33-lt h p = bit_xor-lt 64 h (shr h 33) p (omega arith)

pub ribbon_hash-lt : (key raw_seed : ℕ) → ribbon_hash key raw_seed < 2 ^ 64
unfolding ribbon_hash
ribbon_hash-lt key raw_seed = fold33-lt _ (omega arith)

-- For a hash of 64 bits and a positive number of starts of 64 bits, the start of the hash is
-- below the number of starts.
pub start-lt :
    (h num_starts : ℕ)
    → h < 2 ^ 64
    → 0 < num_starts
    → num_starts < 2 ^ 64
    → start h num_starts < num_starts
unfolding start
start-lt h num_starts p pos q =
    let m : h * num_starts < num_starts * 2 ^ 64 = grind arith in omega arith

-- The row is odd, and a word.
pub coeff_row-odd : (h : ℕ) → odd (coeff_row h) ≡ true
unfolding coeff_row bit odd
coeff_row-odd h = ground (arith, bit-bit_or 0 (wrapping_mul 64 h k_coeff_and_result_factor) 1)

pub coeff_row-lt : (h : ℕ) → coeff_row h < 2 ^ 64
unfolding coeff_row
coeff_row-lt h = bit_or-lt 64 _ 1 (omega arith) (omega arith)

pub coeff_row_128-odd : (h : ℕ) → odd (coeff_row_128 h) ≡ true
unfolding coeff_row_128 bit odd
coeff_row_128-odd h =
    let a : ℕ = wrapping_mul 64 h k_coeff_and_result_factor in
    ground (arith, bit-bit_or 0 (bit_xor (shl 128 a 64) (bit_xor a k_coeff_xor64)) 1)

pub coeff_row_128-lt : (h : ℕ) → coeff_row_128 h < 2 ^ 128
unfolding coeff_row_128
coeff_row_128-lt h =
    let a : ℕ = wrapping_mul 64 h k_coeff_and_result_factor in
    bit_or-lt 128 _ 1
      (bit_xor-lt 128 (shl 128 a 64) _ (omega arith)
        (bit_xor-lt 128 a k_coeff_xor64 (omega arith) (omega arith)))
      (omega arith)

pub result_row-lt : (h : ℕ) → result_row h < 2 ^ 32
unfolding result_row
result_row-lt h = omega arith
