-- ===== src/Word/Bits.antt =====
-- The binary digits of a word, and what the native bit operations do to each of them.
mod Step
use Step.{bit_and_halves, bit_or_halves, bit_xor_halves}
use native.Mathlib.Nat.{pow-suc}
use pleat.Common.{
  ℕ, zero, suc, ◌+◌, ◌*◌, ◌/◌, ◌%◌, ◌^◌, ◌≤◌, ◌<◌, ◌==◌, ◌≡◌, refl, arith, Bool, true, false, ◌&&◌,
  ◌||◌, ◌⊕◌, bit_and, bit_or, bit_xor, min, max,
}

unfoldable pub odd : ℕ → Bool
odd n = n % 2 == 1

-- Digit `k` of a number.
unfoldable pub bit : ℕ → ℕ → Bool
unfolding odd
bit zero n = odd n
bit (suc k) n = bit k (n / 2)

pub bit-bit_and : (k a b : ℕ) → bit k (bit_and a b) ≡ (bit k a && bit k b)
unfolding bit
bit-bit_and zero a b = ground (arith, bit_and_halves a b)
bit-bit_and (suc k) a b =
    let e : bit_and a b / 2 ≡ bit_and (a / 2) (b / 2) = omega (arith, bit_and_halves a b) in
    rw e (bit-bit_and k (a / 2) (b / 2))

pub bit-bit_or : (k a b : ℕ) → bit k (bit_or a b) ≡ (bit k a || bit k b)
unfolding bit
bit-bit_or zero a b = ground (arith, bit_or_halves a b)
bit-bit_or (suc k) a b =
    let e : bit_or a b / 2 ≡ bit_or (a / 2) (b / 2) = omega (arith, bit_or_halves a b) in
    rw e (bit-bit_or k (a / 2) (b / 2))

pub bit-bit_xor : (k a b : ℕ) → bit k (bit_xor a b) ≡ (bit k a ⊕ bit k b)
unfolding bit
bit-bit_xor zero a b = ground (arith, bit_xor_halves a b)
bit-bit_xor (suc k) a b =
    let e : bit_xor a b / 2 ≡ bit_xor (a / 2) (b / 2) = omega (arith, bit_xor_halves a b) in
    rw e (bit-bit_xor k (a / 2) (b / 2))

-- A word of `w` bits has no digit from `w` on, and an operation on words gives a word.
pub bit_past : (w k n : ℕ) → n < 2 ^ w → w ≤ k → bit k n ≡ false
unfolding bit
bit_past zero zero n h p = ground arith
bit_past zero (suc k) n h p = bit_past zero k (n / 2) (omega arith) (omega arith)
bit_past (suc w) zero n h p = absurd (omega arith)
bit_past (suc w) (suc k) n h p = bit_past w k (n / 2) (omega (arith, pow-suc 2 w)) (omega arith)

pub bit-zero : (b : ℕ) → bit b 0 ≡ false
bit-zero b = bit_past 0 b 0 (omega arith) (omega arith)

pub bit_xor-lt : (w a b : ℕ) → a < 2 ^ w → b < 2 ^ w → bit_xor a b < 2 ^ w
bit_xor-lt zero a b p q =
    let ea : a ≡ 0 = omega arith in let eb : b ≡ 0 = omega arith in rw (ea, eb) (omega arith)
bit_xor-lt (suc w) a b p q = omega (
  arith,
  bit_xor_halves a b,
  pow-suc 2 w,
  bit_xor-lt w (a / 2) (b / 2) (omega (arith, pow-suc 2 w)) (omega (arith, pow-suc 2 w)),
)

pub bit_or-lt : (w a b : ℕ) → a < 2 ^ w → b < 2 ^ w → bit_or a b < 2 ^ w
bit_or-lt zero a b p q =
    let ea : a ≡ 0 = omega arith in let eb : b ≡ 0 = omega arith in rw (ea, eb) (omega arith)
bit_or-lt (suc w) a b p q = omega (
  arith,
  bit_or_halves a b,
  pow-suc 2 w,
  bit_or-lt w (a / 2) (b / 2) (omega (arith, pow-suc 2 w)) (omega (arith, pow-suc 2 w)),
)

-- Words are equal if their digits are.
pub bit_ext : (w a b : ℕ) → a < 2 ^ w → b < 2 ^ w → ((k : ℕ) → k < w → bit k a ≡ bit k b) → a ≡ b
unfolding bit
bit_ext zero a b p q h = omega arith
bit_ext (suc w) a b p q h = ground (
  arith,
  h 0 (omega arith),
  bit_ext w (a / 2) (b / 2) (omega (arith, pow-suc 2 w)) (omega (arith, pow-suc 2 w))
      (λ k r. h (suc k) (omega arith)),
)

-- `x & 0` is below every power of two.
none_left : (w x : ℕ) → x < 2 ^ w → bit_and x 0 ≡ 0
none_left zero x p = let e : x ≡ 0 = omega arith in rw e refl
none_left (suc w) x p =
    omega (arith, bit_and_halves x 0, none_left w (x / 2) (omega (arith, pow-suc 2 w)))

lt-two_pow : (x : ℕ) → x < 2 ^ x
lt-two_pow zero = omega arith
lt-two_pow (suc x) = omega (arith, pow-suc 2 x, lt-two_pow x)

-- `x & 1`.
pub bit_and-one : (x : ℕ) → bit_and x 1 ≡ x % 2
bit_and-one x = omega (arith, bit_and_halves x 1, none_left (x / 2) (x / 2) (lt-two_pow (x / 2)))
