-- ===== src/Common/Everywhere.antt =====
-- Lists all of whose elements have a property.
use Prim.Native.Nat.{ℕ, zero, suc}
use mathlib.Core.List.{List, [], ◌∷◌, ◌++◌}
use pleat.Common.Lists.{get_or, set, replicate, All}
use pleat.Common.Copy.{copy_from_slice}

module _ {ℓ κ} {A : Type ℓ} (P : A → Type κ) where
  pub All-get_or : (xs : List A) (i : ℕ) (d : A) → All P xs → P d → P (get_or xs i d)
  All-get_or [] i d h p = p
  All-get_or (x ∷ xs) zero d h p = h.0
  All-get_or (x ∷ xs) (suc i) d h p = All-get_or xs i d h.1 p

  pub All-set : (xs : List A) (i : ℕ) (v : A) → All P xs → P v → All P (set xs i v)
  All-set [] i v h p = h
  All-set (x ∷ xs) zero v h p = (p, h.1)
  All-set (x ∷ xs) (suc i) v h p = (h.0, All-set xs i v h.1 p)

  pub All-replicate : (n : ℕ) (a : A) → P a → All P (replicate n a)
  All-replicate zero a p = tt
  All-replicate (suc n) a p = (p, All-replicate n a p)

  pub All-append : (xs ys : List A) → All P xs → All P ys → All P (xs ++ ys)
  All-append [] ys h k = k
  All-append (x ∷ xs) ys h k = (h.0, All-append xs ys h.1 k)

  pub append-All : (xs ys : List A) → All P (xs ++ ys) → All P xs × All P ys
  append-All [] ys h = (tt, h)
  append-All (x ∷ xs) ys h = let (a, b) = append-All xs ys h.1 in ((h.0, a), b)

  pub All-copy_from_slice :
      (out : List A) (at : ℕ) (src : List A)
      → All P out
      → All P src
      → All P (copy_from_slice out at src)
  unfolding copy_from_slice
  All-copy_from_slice out at [] h k = h
  All-copy_from_slice out at (s ∷ src) h k =
      All-copy_from_slice (set out at s) (suc at) src (All-set out at s h k.0) k.1

pub All-map {ℓ κ μ} :
    {A : Type ℓ} {P : A → Type κ} {Q : A → Type μ} (xs : List A)
    → ((a : A) → P a → Q a)
    → All P xs
    → All Q xs
All-map [] f h = tt
All-map (x ∷ xs) f h = (f x h.0, All-map xs f h.1)

-- What holds of all elements for each index holds for all indices of each element.
pub All-forall {ℓ κ μ} :
    {A : Type ℓ} {I : Type μ} (P : I → A → Type κ) (xs : List A)
    → ((i : I) → All (P i) xs)
    → All (λ a. (i : I) → P i a) xs
All-forall P [] h = tt
All-forall P (x ∷ xs) h = (λ i. (h i).0, All-forall P xs (λ i. (h i).1))

pub All-always {ℓ κ} : {A : Type ℓ} {P : A → Type κ} (xs : List A) → ((a : A) → P a) → All P xs
All-always [] f = tt
All-always (x ∷ xs) f = (f x, All-always xs f)
