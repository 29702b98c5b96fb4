-- ===== src/Common/Outcome.antt =====
-- What a run of a Rust function ends in: a value, a panic, or, for a loop on fuel, no fuel left.
use mathlib.Core.Path.{◌≡◌, refl, ap}
use mathlib.Core.Bool.{Bool, true, false}
use mathlib.Core.Option.{Option, none, some}

pub data Run {ℓ} (A : Type ℓ) : Type ℓ where
  done : A → Run A
  panic : Run A
  out_of_fuel : Run A

module _ {ℓ κ} {A : Type ℓ} {B : Type κ} where
  infixl 5 ◌>>=◌
  abbrev pub ◌>>=◌ : Run A → (A → Run B) → Run B
  done value >>= next = next value
  panic >>= next = panic
  out_of_fuel >>= next = out_of_fuel

infixl 5 ◌>>◌
abbrev pub ◌>>◌ {ℓ} : {B : Type ℓ} → Run (Unit {0}) → Run B → Run B
m >> k = m >>= λ _. k

-- `assert!` and the checks on an index: a panic where the test fails.
abbrev pub assert : Bool → Run (Unit {0})
assert true = done tt
assert false = panic

-- `xs[i]`, from what a lookup finds.
abbrev pub unwrap {ℓ} : {A : Type ℓ} → Option A → Run A
unwrap none = panic
unwrap (some a) = done a

module _ {ℓ} {A : Type ℓ} where
  abbrev result_or : A → Run A → A
  result_or d (done a) = a
  result_or d panic = d
  result_or d out_of_fuel = d

  pub done_inj : {a b : A} → ◌≡◌ {A = Run A} (done a) (done b) → a ≡ b
  done_inj {a} e = ap (result_or a) e

-- A chain that is done was done in both parts.
pub done-bind {ℓ κ} :
    {A : Type ℓ} {B : Type κ} (m : Run A) (next : A → Run B) (b : B)
    → (m >>= next) ≡ done b
    → (a : A) × (m ≡ done a) × (next a ≡ done b)
done-bind (done a) next b e = (a, refl, e)
done-bind panic next b e = absurd (cc e)
done-bind out_of_fuel next b e = absurd (cc e)
