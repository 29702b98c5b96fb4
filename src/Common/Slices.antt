-- ===== src/Common/Slices.antt =====
-- Slices `&xs[lo..lo + n]`, which panic out of range, and the two halves of an appended list.
use Prim.Native.Nat.{ℕ, zero, suc, ◌+◌, ◌≤◌, ◌<◌}
use mathlib.Core.Path.{◌≡◌, refl, ap, ◌∙◌}
use mathlib.Core.List.{List, [], ◌∷◌, ◌++◌}
use native.Mathlib.Omega.{arith}
use pleat.Common.Lists.{
  length, take, drop, get_or, length-take, length-drop, get_or-take, get_or-drop,
}
use pleat.Common.Tests.{leb}
use pleat.Common.Outcome.{Run, done, assert, ◌>>=◌}

module _ {ℓ} {A : Type ℓ} where
  abbrev pub slice : List A → ℕ → ℕ → Run (List A)
  slice xs lo n = assert (leb (lo + n) (length xs)) >>= λ u. done (take n (drop lo xs))

  pub slice-done :
      (xs : List A) (lo n : ℕ) → lo + n ≤ length xs → slice xs lo n ≡ done (take n (drop lo xs))
  slice-done xs lo n p = ground arith

  pub length-slice :
      (xs : List A) (lo n : ℕ) → lo + n ≤ length xs → length (take n (drop lo xs)) ≡ n
  length-slice xs lo n p = length-take n (drop lo xs) (omega (arith, length-drop lo xs))

  pub get_or-slice :
      (xs : List A) (lo n i : ℕ) (d : A)
      → i < n
      → get_or (take n (drop lo xs)) i d ≡ get_or xs (lo + i) d
  get_or-slice xs lo n i d p = get_or-take n (drop lo xs) i d p ∙ get_or-drop lo xs i d

  pub take-append : (n : ℕ) (xs ys : List A) → length xs ≡ n → take n (xs ++ ys) ≡ xs
  take-append zero [] ys e = refl
  take-append zero (x ∷ xs) ys e = absurd (omega arith)
  take-append (suc n) [] ys e = absurd (omega arith)
  take-append (suc n) (x ∷ xs) ys e = ap (λ l. x ∷ l) (take-append n xs ys (omega arith))

  pub drop-append : (n : ℕ) (xs ys : List A) → length xs ≡ n → drop n (xs ++ ys) ≡ ys
  drop-append zero [] ys e = refl
  drop-append zero (x ∷ xs) ys e = absurd (omega arith)
  drop-append (suc n) [] ys e = absurd (omega arith)
  drop-append (suc n) (x ∷ xs) ys e = drop-append n xs ys (omega arith)

  pub take_all : (n : ℕ) (xs : List A) → length xs ≡ n → take n xs ≡ xs
  take_all zero [] e = refl
  take_all zero (x ∷ xs) e = absurd (omega arith)
  take_all (suc n) [] e = absurd (omega arith)
  take_all (suc n) (x ∷ xs) e = ap (λ l. x ∷ l) (take_all n xs (omega arith))

  pub take-append-drop : (n : ℕ) (xs : List A) → take n xs ++ drop n xs ≡ xs
  take-append-drop zero xs = refl
  take-append-drop (suc n) [] = refl
  take-append-drop (suc n) (x ∷ xs) = ap (λ ys. x ∷ ys) (take-append-drop n xs)

  -- Before or after a cut, an appended list is cut in its own part.
  pub take-append_past :
      (n m : ℕ) (xs ys : List A) → length xs + m ≡ n → take n (xs ++ ys) ≡ xs ++ take m ys
  take-append_past n m [] ys e = ap (λ (k : ℕ). take k ys) (omega (arith, e))
  take-append_past zero m (x ∷ xs) ys e = absurd (omega arith)
  take-append_past (suc n) m (x ∷ xs) ys e =
      ap (λ l. x ∷ l) (take-append_past n m xs ys (omega arith))

  pub drop-append_past :
      (n m : ℕ) (xs ys : List A) → length xs + m ≡ n → drop n (xs ++ ys) ≡ drop m ys
  drop-append_past n m [] ys e = ap (λ (k : ℕ). drop k ys) (omega (arith, e))
  drop-append_past zero m (x ∷ xs) ys e = absurd (omega arith)
  drop-append_past (suc n) m (x ∷ xs) ys e = drop-append_past n m xs ys (omega arith)

  pub take-append_before : (n : ℕ) (xs ys : List A) → n ≤ length xs → take n (xs ++ ys) ≡ take n xs
  take-append_before zero xs ys p = refl
  take-append_before (suc n) [] ys p = absurd (omega arith)
  take-append_before (suc n) (x ∷ xs) ys p =
      ap (λ l. x ∷ l) (take-append_before n xs ys (omega arith))

  pub drop-append_before :
      (n : ℕ) (xs ys : List A) → n ≤ length xs → drop n (xs ++ ys) ≡ drop n xs ++ ys
  drop-append_before zero xs ys p = refl
  drop-append_before (suc n) [] ys p = absurd (omega arith)
  drop-append_before (suc n) (x ∷ xs) ys p = drop-append_before n xs ys (omega arith)
