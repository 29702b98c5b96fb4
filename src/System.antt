-- ===== src/System.antt =====
-- The linear system over two elements that a banding matrix stands for. Row `i` has a word of
-- coefficients, whose digit `b` belongs to the unknown of slot `i + b`, and a right-hand side.
-- Both banding matrices of the program are such systems, one for each result column.
pub mod Reduce
pub mod Fill
pub mod Unique
use pleat.Common.{ℕ, ◌+◌, ◌^◌, ◌≤◌, ◌<◌, ◌≡◌, ◌⊎◌, Bool, true, arith}
use pleat.Word.Bits.{bit, odd}
use pleat.Word.Parity.{dot, from}

-- `x` solves every row.
abbrev pub Solves : ℕ → (ℕ → ℕ) → (ℕ → Bool) → (ℕ → Bool) → Type 0
Solves w coef rhs x = (i : ℕ) → dot w (coef i) (from i x) ≡ rhs i

-- A row that may stand at slot `i` of `n`: its first coefficient is one, and its last unknown is
-- below `n`.
pub record IsRow (w n i c : ℕ) : Type 0 where
  pub first : odd c ≡ true
  pub word : c < 2 ^ w
  pub fits : (b : ℕ) → bit b c ≡ true → i + b < n

-- Each slot below `n` is empty or has a row; from `n` on there is nothing.
pub record IsEchelon (w n : ℕ) (coef : ℕ → ℕ) : Type 0 where
  pub slot : (i : ℕ) → (coef i ≡ 0) ⊎ IsRow w n i (coef i)
  pub past : (i : ℕ) → n ≤ i → coef i ≡ 0

pub IsRow-lt : {w n i c : ℕ} → IsRow w n i c → i < n
IsRow-lt r = omega (arith, r.fits 0 (unfold bit in r.first))
