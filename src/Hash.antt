-- ===== src/Hash.antt =====
-- src/hash.rs and src/hash128.rs: from a key to its start slot, its row of coefficients and its
-- result row, and from an ordinal seed to a raw seed.
pub mod Bounds
pub mod Injective
use pleat.Common.{ℕ, zero, suc, ◌+◌, ◌*◌, ◌/◌, ◌%◌, ◌^◌, bit_and, bit_or, bit_xor}
use pleat.Word.{wrapping_add, wrapping_mul, shl, shr, cast}

-- `h ^= h >> 33`.
abbrev pub fold33 : ℕ → ℕ
fold33 h = bit_xor h (shr h 33)

-- The murmur-style finalizer of `key + raw_seed`.
unfoldable pub ribbon_hash : ℕ → ℕ → ℕ
ribbon_hash key raw_seed =
    let h0 = wrapping_add 64 key raw_seed in
    let h1 = wrapping_mul 64 (fold33 h0) 0xff51_afd7_ed55_8ccd in
    let h2 = wrapping_mul 64 (fold33 h1) 0xc4ce_b9fe_1a85_ec53 in fold33 h2

-- The high half of the 128-bit product.
unfoldable pub start : ℕ → ℕ → ℕ
start h num_starts = cast 64 (shr (wrapping_mul 128 h num_starts) 64)

abbrev pub k_coeff_and_result_factor : ℕ
k_coeff_and_result_factor = 0xc28f_8282_2b65_0bed

unfoldable pub coeff_row : ℕ → ℕ
coeff_row h = bit_or (wrapping_mul 64 h k_coeff_and_result_factor) 1

abbrev pub k_coeff_xor64 : ℕ
k_coeff_xor64 = 0xc367_844a_6e52_731d

abbrev pub k_seed_mix_mask : ℕ
k_seed_mix_mask = 0xf0f0_f0f0_f0f0_f0f0

abbrev pub k_seed_mix_shift : ℕ
k_seed_mix_shift = 4

abbrev pub k_to_raw_seed_factor : ℕ
k_to_raw_seed_factor = 0xc782_19a2_3eea_dd03

unfoldable pub coeff_row_128 : ℕ → ℕ
coeff_row_128 h =
    let a = wrapping_mul 64 h k_coeff_and_result_factor in
    let c = bit_xor (shl 128 a 64) (bit_xor a k_coeff_xor64) in bit_or c 1

-- The `n` low bytes of a word in the opposite order.
abbrev swap_bytes : ℕ → ℕ → ℕ
swap_bytes zero x = 0
swap_bytes (suc n) x = x % 256 * 256 ^ n + swap_bytes n (x / 256)

unfoldable pub result_row : ℕ → ℕ
result_row h = let a = wrapping_mul 64 h k_coeff_and_result_factor in cast 32 (swap_bytes 8 a)

unfoldable pub ordinal_to_raw_seed : ℕ → ℕ
ordinal_to_raw_seed ordinal =
    let tmp = wrapping_mul 64 ordinal k_to_raw_seed_factor in
    cast 32 (bit_xor tmp (shr (bit_and tmp k_seed_mix_mask) k_seed_mix_shift))
