-- ===== src/Word/Parity.antt =====
-- The parity of a run of Booleans, which is what `count_ones() & 1` computes of a word, and its
-- laws: it splits at any place, it is linear, and it depends on the run alone.
use pleat.Common.{
  ℕ, zero, suc, ◌+◌, ◌/◌, ◌<◌, ◌≡◌, refl, ap, ap₂, ◌∙◌, arith, Bool, false, ◌&&◌, ◌⊕◌, xor_regroup,
  and-xor, bit_xor,
}
use pleat.Word.{count_ones}
use pleat.Word.Bits.{bit, odd, bit-bit_xor}

-- The run of Booleans that starts at place `i` of another.
abbrev pub from : ℕ → (ℕ → Bool) → ℕ → Bool
from i y b = y (i + b)

unfoldable pub parity : ℕ → (ℕ → Bool) → Bool
parity zero y = false
parity (suc w) y = y 0 ⊕ parity w (λ b. y (suc b))

-- The sum of the entries of `x` at the digits of `c`: a row of the linear system, applied to `x`.
abbrev pub dot : ℕ → ℕ → (ℕ → Bool) → Bool
dot w c x = parity w (λ b. bit b c && x b)

pub parity_ext : (w : ℕ) (y z : ℕ → Bool) → ((b : ℕ) → b < w → y b ≡ z b) → parity w y ≡ parity w z
unfolding parity
parity_ext zero y z h = refl
parity_ext (suc w) y z h =
    ap₂ ◌⊕◌ (h 0 (omega arith)) (parity_ext w _ _ (λ b p. h (suc b) (omega arith)))

pub parity-false : (w : ℕ) (y : ℕ → Bool) → ((b : ℕ) → b < w → y b ≡ false) → parity w y ≡ false
unfolding parity
parity-false zero y h = refl
parity-false (suc w) y h =
    ap₂ ◌⊕◌ (h 0 (omega arith)) (parity-false w _ (λ b p. h (suc b) (omega arith)))

pub parity-xor : (w : ℕ) (y z : ℕ → Bool) → parity w (λ b. y b ⊕ z b) ≡ (parity w y ⊕ parity w z)
unfolding parity
parity-xor zero y z = refl
parity-xor (suc w) y z =
    ap (λ t. (y 0 ⊕ z 0) ⊕ t) (parity-xor w (λ b. y (suc b)) (λ b. z (suc b)))
    ∙ xor_regroup (y 0) (z 0) (parity w (λ b. y (suc b))) (parity w (λ b. z (suc b)))

-- A run of `w` entries is one of `m` and one of `n`.
pub parity-add :
    (m n w : ℕ) (y : ℕ → Bool) → m + n ≡ w → parity w y ≡ (parity m y ⊕ parity n (λ b. y (m + b)))
unfolding parity
parity-add zero n w y e =
    let e' : w ≡ n = omega arith in rw e' (parity_ext n _ _ (λ b p. ap y (omega arith)))
parity-add (suc m) n zero y e = absurd (omega arith)
parity-add (suc m) n (suc w) y e = ground (
  arith,
  parity-add m n w (λ b. y (suc b)) (omega arith),
  parity_ext n (λ b. y (suc (m + b))) (λ b. y (suc m + b)) (λ b p. ap y (omega arith)),
)

pub parity_first :
    (w v : ℕ) (y : ℕ → Bool) → suc v ≡ w → parity w y ≡ (y 0 ⊕ parity v (λ b. y (suc b)))
unfolding parity
parity_first zero v y e = absurd (omega arith)
parity_first (suc w) v y e = let e' : w ≡ v = omega arith in rw e'

-- Adding rows adds what they are applied to.
pub dot-bit_xor : (w c d : ℕ) (x : ℕ → Bool) → dot w (bit_xor c d) x ≡ (dot w c x ⊕ dot w d x)
dot-bit_xor w c d x =
    parity_ext w _ _
      (λ b p. ap (λ t. t && x b) (bit-bit_xor b c d) ∙ and-xor (bit b c) (bit b d) (x b))
    ∙ parity-xor w (λ b. bit b c && x b) (λ b. bit b d && x b)

pub odd-count_ones : (w a : ℕ) → odd (count_ones w a) ≡ parity w (λ b. bit b a)
unfolding odd count_ones parity bit
odd-count_ones zero a = refl
odd-count_ones (suc w) a = ground (arith, odd-count_ones w (a / 2))
