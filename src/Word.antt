-- ===== src/Word.antt =====
-- The operations of Rust's unsigned integers that the program calls, on words of `w` bits as
-- native numbers: wrapping products, shifts, `count_ones`, `trailing_zeros`.
pub mod Bits
pub mod Parity
pub mod Shift
pub mod Column
pub mod Window
pub mod Invert
use pleat.Common.{ℕ, zero, suc, ◌+◌, ◌*◌, ◌/◌, ◌%◌, ◌^◌, ◌==◌, if◌then◌else◌, Bool, bit_and}

abbrev pub wrapping_add : ℕ → ℕ → ℕ → ℕ
wrapping_add w a b = (a + b) % 2 ^ w

abbrev pub wrapping_mul : ℕ → ℕ → ℕ → ℕ
wrapping_mul w a b = a * b % 2 ^ w

-- `x << k` and `x >> k`, for a shift below the width.
abbrev pub shl : ℕ → ℕ → ℕ → ℕ
shl w x k = x * 2 ^ k % 2 ^ w

abbrev pub shr : ℕ → ℕ → ℕ
shr x k = x / 2 ^ k

-- `x as u64` and the like.
abbrev pub cast : ℕ → ℕ → ℕ
cast w x = x % 2 ^ w

unfoldable pub count_ones : ℕ → ℕ → ℕ
count_ones zero x = 0
count_ones (suc w) x = x % 2 + count_ones w (x / 2)

-- `w` at zero.
unfoldable pub trailing_zeros : ℕ → ℕ → ℕ
trailing_zeros zero x = 0
trailing_zeros (suc w) x = if x % 2 == 1 then 0 else suc (trailing_zeros w (x / 2))
