-- ===== src/Common/Xor.antt =====
-- Exclusive or on Booleans, by clauses, with the laws of a group in which each element is its own
-- inverse.
use mathlib.Core.Path.{◌≡◌, refl}
use mathlib.Core.Bool.{Bool, true, false, not, ◌&&◌}
use native.Mathlib.Omega.{arith}

infixl 30 ◌⊕◌
abbrev pub ◌⊕◌ : Bool → Bool → Bool
true ⊕ b = not b
false ⊕ b = b

pub xor_self : (a : Bool) → (a ⊕ a) ≡ false
xor_self true = refl
xor_self false = refl

pub xor-false : (a : Bool) → (a ⊕ false) ≡ a
xor-false true = refl
xor-false false = refl

pub xor_comm : (a b : Bool) → (a ⊕ b) ≡ (b ⊕ a)
xor_comm a b = ground arith

pub xor_regroup : (a b c d : Bool) → ((a ⊕ b) ⊕ (c ⊕ d)) ≡ ((a ⊕ c) ⊕ (b ⊕ d))
xor_regroup a b c d = ground arith

pub and-xor : (a b c : Bool) → ((a ⊕ b) && c) ≡ ((a && c) ⊕ (b && c))
and-xor a b c = ground arith
