-- ===== src/Pleat/Windows.antt =====
-- The order that pleating means: the windows in turn, each with its keys in the order of arrival.
use native.Mathlib.Decide.{ℕ_discrete}
use mathlib.Core.List.{Perm, perm_middle}
use mathlib.Core.List.Perm
use pleat.Common.{
  ℕ, zero, suc, ◌+◌, ◌≤◌, ◌<◌, ◌==◌, if◌then◌else◌, ◌≡◌, ◌≢◌, refl, arith, List, [], ◌∷◌, ◌++◌,
  length, length-append, length-perm,
}

module _ (window : ℕ → ℕ) where
  -- The keys of window `w`, in order.
  unfoldable pub in_window : ℕ → List ℕ → List ℕ
  in_window w [] = []
  in_window w (k ∷ keys) = let rest = in_window w keys in if window k == w then k ∷ rest else rest

  -- The keys of the windows below `n`, window by window.
  unfoldable pub windows : ℕ → List ℕ → List ℕ
  windows zero keys = []
  windows (suc n) keys = windows n keys ++ in_window n keys

  -- How many keys lie in window `w`, and how many in the windows below `n`.
  abbrev pub tally : ℕ → List ℕ → ℕ
  tally w keys = length (in_window w keys)

  abbrev pub below : ℕ → List ℕ → ℕ
  below n keys = length (windows n keys)

  pub below-suc : (n : ℕ) (keys : List ℕ) → below (suc n) keys ≡ below n keys + tally n keys
  unfolding windows
  below-suc n keys = length-append (windows n keys) (in_window n keys)

  pub below_mono : (m n : ℕ) (keys : List ℕ) → m < n → below m keys + tally m keys ≤ below n keys
  below_mono m zero keys p = absurd (omega arith)
  below_mono m (suc n) keys p = elim (ℕ_discrete m n) [
    | yes e ↦ rw e (omega (arith, below-suc n keys))
    | no ne ↦ omega (arith, below-suc n keys, below_mono m n keys (omega arith))
  ]

  pub in_window-append :
      (w : ℕ) (xs ys : List ℕ) → in_window w (xs ++ ys) ≡ in_window w xs ++ in_window w ys
  unfolding in_window
  in_window-append w [] ys = refl
  in_window-append w (k ∷ xs) ys = ground (arith, in_window-append w xs ys)

  windows-cons_outside :
      (n k : ℕ) (keys : List ℕ) → n ≤ window k → windows n (k ∷ keys) ≡ windows n keys
  unfolding windows in_window
  windows-cons_outside zero k keys p = refl
  windows-cons_outside (suc n) k keys p =
      ground (arith, windows-cons_outside n k keys (omega arith))

  windows-cons_inside :
      (n k : ℕ) (keys : List ℕ) → window k < n → Perm (windows n (k ∷ keys)) (k ∷ windows n keys)
  unfolding windows
  windows-cons_inside zero k keys p = absurd (omega arith)
  windows-cons_inside (suc n) k keys p = elim (ℕ_discrete (window k) n) [
    | yes e ↦ rw (last e) (perm_middle (windows n keys) (in_window n keys))
    | no ne ↦
        rw (earlier ne)
          (Perm.append_right (in_window n keys) (windows-cons_inside n k keys (omega arith)))
  ]
    where
      last : window k ≡ n → windows (suc n) (k ∷ keys) ≡ windows n keys ++ (k ∷ in_window n keys)
      last e =
          unfold windows in_window in ground (arith, windows-cons_outside n k keys (omega arith))

      earlier : window k ≢ n → windows (suc n) (k ∷ keys) ≡ windows n (k ∷ keys) ++ in_window n keys
      earlier ne = unfold windows in_window in ground arith

  pub windows-nil : (n : ℕ) → windows n [] ≡ []
  unfolding windows in_window
  windows-nil zero = refl
  windows-nil (suc n) = rw (windows-nil n)

  -- With all keys in the windows below `n`, nothing is lost and nothing is added.
  pub windows-perm : (n : ℕ) (keys : List ℕ) → ((k : ℕ) → window k < n) → Perm (windows n keys) keys
  windows-perm n [] h = rw windows-nil (Perm.refl [])
  windows-perm n (k ∷ keys) h =
      Perm.trans (windows-cons_inside n k keys (h k)) (Perm.cons k (windows-perm n keys h))

  pub below-eq-length :
      (n : ℕ) (keys : List ℕ) → ((k : ℕ) → window k < n) → below n keys ≡ length keys
  below-eq-length n keys h = length-perm (windows-perm n keys h)
