-- ===== src/Common/Results.antt =====
-- `Result` with `?`, and what it is for a run to return: a value that satisfies a property.
use mathlib.Core.Path.{◌≡◌, refl, ap, subst}
use mathlib.Core.Option.{Option, none, some}
use pleat.Common.Outcome.{Run, done}

pub data Result {ℓ κ} (E : Type ℓ) (A : Type κ) : Type (ℓ ⊔ κ) where
  ok : A → Result E A
  err : E → Result E A

-- `?` on a result.
unfoldable pub and_then {ℓ κ ν} :
    {E : Type ℓ} {A : Type κ} {B : Type ν} → Result E A → (A → Result E B) → Result E B
and_then (ok a) f = f a
and_then (err e) f = err e

abbrev pub ok_or {ℓ κ} : {E : Type ℓ} {A : Type κ} → Option A → E → Result E A
ok_or none e = err e
ok_or (some a) e = ok a

-- The run ends in a value with the property `P`.
abbrev pub Returns {ℓ κ} : {A : Type ℓ} → (A → Type κ) → Run A → Type (ℓ ⊔ κ)
Returns {A} P m = (a : A) × (m ≡ done a) × P a

-- What holds of the value, if there is one.
unfoldable pub OnOk {ℓ κ ν} : {E : Type ℓ} {A : Type κ} → (A → Type ν) → Result E A → Type ν
OnOk P (ok a) = P a
OnOk P (err e) = Unit

pub OnOk-and_then {ℓ κ ν μ} :
    {E : Type ℓ} {A : Type κ} {B : Type ν} (P : B → Type μ) (m : Result E A) (f : A → Result E B)
    → ((a : A) → m ≡ ok a → OnOk P (f a))
    → OnOk P (and_then m f)
unfolding and_then OnOk
OnOk-and_then P (ok a) f h = h a refl
OnOk-and_then P (err e) f h = tt

module _ {ℓ κ} {E : Type ℓ} {A : Type κ} where
  abbrev value_or : A → Result E A → A
  value_or d (ok x) = x
  value_or d (err x) = d

  pub ok_inj : {a b : A} → ◌≡◌ {A = Result E A} (ok a) (ok b) → a ≡ b
  ok_inj {a} e = ap (value_or a) e

  abbrev IsErr : Result E A → Type 0
  IsErr (ok x) = ⊥
  IsErr (err x) = Unit

  pub err≢ok : {x : E} {a : A} → ◌≡◌ {A = Result E A} (err x) (ok a) → ⊥
  err≢ok e = subst IsErr e tt
