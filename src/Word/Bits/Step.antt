-- ===== src/Word/Bits/Step.antt =====
-- Each native bit operation halves its operands: what it makes of two numbers, from what it makes of
-- their halves and of their lowest digits.
use Prim.Native.Nat.{digits, bitwise, differ, bit_and-bitwise, bit_or-bitwise, bit_xor-bitwise}
use pleat.Common.{
  ℕ, zero, suc, ◌+◌, ◌*◌, ◌/◌, ◌%◌, ◌-◌, ◌≤◌, ◌<◌, ◌≡◌, refl, ap, ◌∙◌, arith, bit_and, bit_or,
  bit_xor, min, max,
}

module _ (rest : ℕ → ℕ) (digit : ℕ → ℕ → ℕ) where
  -- With enough steps for the first operand, one more changes nothing, and so none do.
  one_more :
      (steps x y : ℕ) → x ≤ steps → digits rest digit (suc steps) x y ≡ digits rest digit steps x y
  one_more zero zero y h = refl
  one_more zero (suc x) y h = absurd (omega arith)
  one_more (suc steps) zero y h = refl
  one_more (suc steps) (suc x) y h =
      ap (λ (t : ℕ). t * 2 + digit (suc x % 2) (y % 2))
        (one_more steps (suc x / 2) (y / 2) (omega arith))

  surplus :
      (more steps total x y : ℕ)
      → more + steps ≡ total
      → x ≤ steps
      → digits rest digit total x y ≡ digits rest digit steps x y
  surplus zero steps total x y e h =
      let same : total ≡ steps = omega arith in ap (λ (t : ℕ). digits rest digit t x y) same
  surplus (suc more) steps zero x y e h = absurd (omega arith)
  surplus (suc more) steps (suc total) x y e h =
      one_more total x y (omega arith) ∙ surplus more steps total x y (omega arith) h

  -- An operation with this meaning halves, if what it makes of nothing and `y` does.
  halves :
      (operation : ℕ → ℕ → ℕ)
      → ((x y : ℕ) → operation x y ≡ bitwise rest digit x y)
      → ((y : ℕ) → rest y ≡ rest (y / 2) * 2 + digit 0 (y % 2))
      → (x y : ℕ) → operation x y ≡ operation (x / 2) (y / 2) * 2 + digit (x % 2) (y % 2)
  halves operation means nothing zero y = omega (arith, means 0 y, means 0 (y / 2), nothing y)
  halves operation means nothing (suc x) y = omega (
    arith,
    means (suc x) y,
    means (suc x / 2) (y / 2),
    surplus (x - suc x / 2) (suc x / 2) x (suc x / 2) (y / 2) (omega arith) (omega arith),
  )

pub bit_and_halves : (x y : ℕ) → bit_and x y ≡ bit_and (x / 2) (y / 2) * 2 + min (x % 2) (y % 2)
bit_and_halves = halves (λ y. 0) min bit_and (λ x y. bit_and-bitwise x y) (λ y. omega arith)

pub bit_or_halves : (x y : ℕ) → bit_or x y ≡ bit_or (x / 2) (y / 2) * 2 + max (x % 2) (y % 2)
bit_or_halves = halves (λ y. y) max bit_or (λ x y. bit_or-bitwise x y) (λ y. omega arith)

-- The digit of an exclusive or is the sum of the two digits modulo 2.
differ_digit : (x y : ℕ) → x < 2 → y < 2 → differ x y ≡ (x + y) % 2
differ_digit zero y p q = omega arith
differ_digit (suc zero) zero p q = refl
differ_digit (suc zero) (suc zero) p q = refl
differ_digit (suc zero) (suc (suc y)) p q = absurd (omega arith)
differ_digit (suc (suc x)) y p q = absurd (omega arith)

pub bit_xor_halves : (x y : ℕ) → bit_xor x y ≡ bit_xor (x / 2) (y / 2) * 2 + (x + y) % 2
bit_xor_halves x y = omega (
  arith,
  halves (λ y. y) differ bit_xor (λ x y. bit_xor-bitwise x y) (λ y. omega arith) x y,
  differ_digit (x % 2) (y % 2) (omega arith) (omega arith),
)
