-- ===== src/Common/Copy.antt =====
-- `copy_from_slice` into a range of a vector.
use Prim.Native.Nat.{ℕ, zero, suc, ◌+◌, ◌≤◌, ◌<◌}
use mathlib.Core.Path.{◌≡◌, refl, ap, ◌∙◌}
use mathlib.Core.Logic.{◌⊎◌}
use mathlib.Core.List.{List, [], ◌∷◌}
use native.Mathlib.Omega.{arith}
use pleat.Common.Lists.{length, get_or, set, length-set, get_or-set_self, get_or-set_ne}

-- `out[at..at + src.len()].copy_from_slice(src)`, where the range lies in `out`.
unfoldable pub copy_from_slice {ℓ} : {A : Type ℓ} → List A → ℕ → List A → List A
copy_from_slice out at [] = out
copy_from_slice out at (s ∷ src) = copy_from_slice (set out at s) (suc at) src

module _ {ℓ} {A : Type ℓ} where
  pub length-copy_from_slice :
      (out : List A) (at : ℕ) (src : List A) → length (copy_from_slice out at src) ≡ length out
  unfolding copy_from_slice
  length-copy_from_slice out at [] = refl
  length-copy_from_slice out at (s ∷ src) =
      length-copy_from_slice (set out at s) (suc at) src ∙ length-set out at s

  pub copy_from_slice_outside :
      (out : List A) (at : ℕ) (src : List A) (p : ℕ) (d : A)
      → (p < at) ⊎ (at + length src ≤ p)
      → get_or (copy_from_slice out at src) p d ≡ get_or out p d
  unfolding copy_from_slice
  copy_from_slice_outside out at [] p d h = refl
  copy_from_slice_outside out at (s ∷ src) p d h =
      copy_from_slice_outside (set out at s) (suc at) src p d (omega arith)
      ∙ get_or-set_ne out at p s d (omega arith)

  pub copy_from_slice_inside :
      (out : List A) (at : ℕ) (src : List A) (j p : ℕ) (d : A)
      → at + j ≡ p
      → j < length src
      → p < length out
      → get_or (copy_from_slice out at src) p d ≡ get_or src j d
  unfolding copy_from_slice
  copy_from_slice_inside out at [] j p d e q l = absurd (omega arith)
  copy_from_slice_inside out at (s ∷ src) zero p d e q l =
      copy_from_slice_outside (set out at s) (suc at) src p d (omega arith)
      ∙ ap (λ (i : ℕ). get_or (set out at s) i d) (omega arith)
      ∙ get_or-set_self out at s d (omega arith)
  copy_from_slice_inside out at (s ∷ src) (suc j) p d e q l =
      copy_from_slice_inside (set out at s) (suc at) src j p d (omega arith) (omega arith)
        (omega (arith, length-set out at s))
