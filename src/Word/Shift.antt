-- ===== src/Word/Shift.antt =====
-- The digits of a shifted word, and what a shift by `trailing_zeros` leaves.
use native.Mathlib.Nat.{pow-suc, pow-succ', div-div-eq-div-mul, div-add-mod, mod-lt, one-le-pow}
use native.Mathlib.Nat.{mul-add-mod_self_left, mod-eq_of_lt}
use pleat.Common.{
  ℕ, zero, suc, ◌+◌, ◌*◌, ◌/◌, ◌%◌, ◌^◌, ◌<◌, ◌≡◌, ◌≢◌, sym, ap, ◌∙◌, arith, true, false,
}
use pleat.Word.{shr, trailing_zeros}
use pleat.Word.Bits.{bit, odd}

pub shr-suc : (c t : ℕ) → shr (c / 2) t ≡ shr c (suc t)
shr-suc c t = div-div-eq-div-mul c 2 (2 ^ t) ∙ ap (λ (m : ℕ). c / m) (sym (pow-succ' 2 t))

pub bit-shr : (m k j c : ℕ) → m + k ≡ j → bit k (shr c m) ≡ bit j c
unfolding bit
bit-shr zero k j c e =
    let e' : j ≡ k = omega arith in let f : shr c 0 ≡ c = omega arith in rw (e', f)
bit-shr (suc m) k zero c e = absurd (omega arith)
bit-shr (suc m) k (suc j) c e = rw (← shr-suc c m) (bit-shr m k j (c / 2) (omega arith))

mod_double : (w c : ℕ) → c % 2 ^ suc w ≡ c / 2 % 2 ^ w * 2 + c % 2
mod_double w c =
    ap (λ (m : ℕ). m % 2 ^ suc w) split
    ∙ mul-add-mod_self_left (2 ^ suc w) (c / 2 / 2 ^ w) (c / 2 % 2 ^ w * 2 + c % 2)
    ∙ mod-eq_of_lt below
  where
    split : c ≡ 2 ^ suc w * (c / 2 / 2 ^ w) + (c / 2 % 2 ^ w * 2 + c % 2)
    split =
        omega
          (arith, div-add-mod (c / 2) (2 ^ w), ap (λ (t : ℕ). t * (c / 2 / 2 ^ w)) (pow-suc 2 w))

    below : c / 2 % 2 ^ w * 2 + c % 2 < 2 ^ suc w
    below = omega (arith, pow-suc 2 w, mod-lt (c / 2) (one-le-pow w 2 (omega arith)))

pub bit-mod : (w k c : ℕ) → k < w → bit k (c % 2 ^ w) ≡ bit k c
unfolding bit
bit-mod zero k c p = absurd (omega arith)
bit-mod (suc w) zero c p = ground (arith, mod_double w c)
bit-mod (suc w) (suc k) c p =
    let e : c % 2 ^ suc w / 2 ≡ c / 2 % 2 ^ w = omega (arith, mod_double w c) in
    rw e (bit-mod w k (c / 2) (omega arith))

half-mul_pow : (s c : ℕ) → c * 2 ^ suc s / 2 ≡ c * 2 ^ s
half-mul_pow s c = omega (arith, ap (λ (t : ℕ). c * t) (pow-succ' 2 s))

-- A shift to the left brings in zeros, and digit `b` moves to `b + s`.
pub bit-mul_pow_low : (s k c : ℕ) → k < s → bit k (c * 2 ^ s) ≡ false
unfolding bit
bit-mul_pow_low zero k c p = absurd (omega arith)
bit-mul_pow_low (suc s) zero c p = ground (arith, ap (λ (t : ℕ). c * t) (pow-succ' 2 s))
bit-mul_pow_low (suc s) (suc k) c p = rw (half-mul_pow s c) (bit-mul_pow_low s k c (omega arith))

pub bit-mul_pow : (s k j c : ℕ) → s + k ≡ j → bit j (c * 2 ^ s) ≡ bit k c
unfolding bit
bit-mul_pow zero k j c e =
    let e' : j ≡ k = omega arith in let f : c * 2 ^ 0 ≡ c = omega arith in rw (e', f)
bit-mul_pow (suc s) k zero c e = absurd (omega arith)
bit-mul_pow (suc s) k (suc j) c e = rw (half-mul_pow s c) (bit-mul_pow s k j c (omega arith))

-- The shift by `trailing_zeros` drops zeros only.
pub trailing_zeros_low : (w k c : ℕ) → k < trailing_zeros w c → bit k c ≡ false
unfolding trailing_zeros bit
trailing_zeros_low zero k c p = absurd (omega arith)
trailing_zeros_low (suc w) zero c p = ground arith
trailing_zeros_low (suc w) (suc k) c p = ground (arith, trailing_zeros_low w k (c / 2))

-- A word that is not zero has its lowest digit one after that shift.
pub shr-trailing_zeros-odd : (w c : ℕ) → c < 2 ^ w → c ≢ 0 → odd (shr c (trailing_zeros w c)) ≡ true
unfolding trailing_zeros odd
shr-trailing_zeros-odd zero c p q = absurd (q (omega arith))
shr-trailing_zeros-odd (suc w) c p q = ground (
  arith,
  shr-suc c (trailing_zeros w (c / 2)),
  shr-trailing_zeros-odd w (c / 2) (omega (arith, pow-suc 2 w)),
)

-- An even word that is not zero has at least one zero to drop.
pub trailing_zeros_pos : (w c : ℕ) → c < 2 ^ w → c ≢ 0 → odd c ≡ false → 0 < trailing_zeros w c
unfolding trailing_zeros odd
trailing_zeros_pos zero c p q e = absurd (q (omega arith))
trailing_zeros_pos (suc w) c p q e = ground arith

pub shr-lt : (w c t : ℕ) → c < 2 ^ w → shr c t < 2 ^ w
shr-lt w c t p = omega arith
