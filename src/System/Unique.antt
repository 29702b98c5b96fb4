-- ===== src/System/Unique.antt =====
-- Echelon systems with the same solutions, and the solution that back-substitution gives.
use native.Mathlib.Decide.{dec_lt}
use pleat.Common.{
  ℕ, zero, suc, ◌+◌, ◌-◌, ◌≤◌, ◌<◌, ◌==◌, ◌≡◌, sym, ap, ◌∙◌, arith, Bool, true, false, ◌&&◌, ◌⊕◌,
  inl, inr, if◌then◌else◌,
}
use pleat.Word.Bits.{bit, odd}
use pleat.Word.Parity.{parity, dot, from, parity_ext, parity_first}
use pleat.System.{Solves, IsRow, IsEchelon, IsRow-lt}
use pleat.System.Fill.{
  solution, solution_empty, solution_row, solution_past, solution_above, dot_zero,
}

-- A row fixes the value of its slot by those above.
row_first :
    (w c : ℕ) (y : ℕ → Bool)
    → 0 < w
    → odd c ≡ true
    → dot w c y ≡ (y 0 ⊕ parity (w - 1) (λ b. bit (suc b) c && y (suc b)))
unfolding bit
row_first w c y p o = parity_first w (w - 1) (λ b. bit b c && y b) (omega arith) ∙ ground (arith, o)

row_fixes :
    (w c : ℕ) (y z : ℕ → Bool)
    → 0 < w
    → odd c ≡ true
    → dot w c y ≡ dot w c z
    → ((b : ℕ) → y (suc b) ≡ z (suc b))
    → y 0 ≡ z 0
row_fixes w c y z p o e h = ground (
  arith,
  row_first w c y p o,
  row_first w c z p o,
  parity_ext (w - 1) (λ b. bit (suc b) c && y (suc b)) (λ b. bit (suc b) c && z (suc b))
      (λ b q. ap (λ t. bit (suc b) c && t) (h b)),
)

-- The values that back-substitution is given: the right-hand sides, and at the empty slots those
-- of `free`.
unfoldable pub given : (ℕ → ℕ) → (ℕ → Bool) → (ℕ → Bool) → ℕ → Bool
given coef rhs free i = if coef i == 0 then free i else rhs i

pub given_empty :
    (coef : ℕ → ℕ) (rhs free : ℕ → Bool) (i : ℕ) → coef i ≡ 0 → given coef rhs free i ≡ free i
unfolding given
given_empty coef rhs free i e = ground arith

given_row :
    (coef : ℕ → ℕ) (rhs free : ℕ → Bool) (i : ℕ)
    → odd (coef i) ≡ true
    → given coef rhs free i ≡ rhs i
unfolding given odd
given_row coef rhs free i e = ground arith

module _ (w n : ℕ) (coef : ℕ → ℕ) (pos : 0 < w) (ech : IsEchelon w n coef) where
  -- Two solutions that agree at the empty slots are equal.
  pub solutions_agree :
      (rhs x y : ℕ → Bool)
      → Solves w coef rhs x
      → Solves w coef rhs y
      → ((i : ℕ) → coef i ≡ 0 → x i ≡ y i)
      → (k i : ℕ) → n ≤ i + k
      → x i ≡ y i
  solutions_agree rhs x y sx sy h zero i p = h i (ech.past i (omega arith))
  solutions_agree rhs x y sx sy h (suc k) i p = elim (ech.slot i) [
    | inl e ↦ h i e
    | inr r ↦
        ap x (omega arith)
        ∙ row_fixes w (coef i) (from i x) (from i y) pos r.first (sx i ∙ sym (sy i))
            (λ b. solutions_agree rhs x y sx sy h k (i + suc b) (omega arith))
        ∙ ap y (omega arith)
  ]

  -- Back-substitution solves the system.
  pub solution-Solves :
      (rhs free : ℕ → Bool)
      → ((i : ℕ) → coef i ≡ 0 → rhs i ≡ false)
      → Solves w coef rhs (solution w n coef (given coef rhs free))
  solution-Solves rhs free z i = elim (ech.slot i) [
    | inl e ↦ rw (e, z i e) (dot_zero w (from i (solution w n coef (given coef rhs free))))
    | inr r ↦
        solution_row w n coef (given coef rhs free) i pos (IsRow-lt r) r.first
        ∙ given_row coef rhs free i r.first
  ]

-- One at slot `i`, zero elsewhere.
at : ℕ → ℕ → Bool
at i j = j == i

module _ (w n : ℕ) (pos : 0 < w) (coef coef' : ℕ → ℕ) (rhs rhs' : ℕ → Bool) where
  -- A slot that is empty in a system is empty in one that has all its solutions: its value is free
  -- in the first, and a row of the second would fix it.
  pub empty_slot :
      IsEchelon w n coef
      → IsEchelon w n coef'
      → ((i : ℕ) → coef' i ≡ 0 → rhs' i ≡ false)
      → ((x : ℕ → Bool) → Solves w coef' rhs' x → Solves w coef rhs x)
      → (i : ℕ) → coef' i ≡ 0
      → coef i ≡ 0
  empty_slot ech ech' z inc i e = elim (ech.slot i) [ inl f ↦ f | inr r ↦ absurd (clash r) ]
    where
      x : (ℕ → Bool) → ℕ → Bool
      x free = solution w n coef' (given coef' rhs' free)

      solves : (free : ℕ → Bool) → Solves w coef rhs (x free)
      solves free = inc (x free) (solution-Solves w n coef' pos ech' rhs' free z)

      value : (free : ℕ → Bool) → i < n → x free i ≡ free i
      value free p =
          solution_empty w n coef' (given coef' rhs' free) i p e ∙ given_empty coef' rhs' free i e

      above : (b : ℕ) → x (λ j. false) (i + suc b) ≡ x (at i) (i + suc b)
      above b =
          solution_above w n coef' (given coef' rhs' (λ j. false)) (given coef' rhs' (at i))
            (i + suc b) (λ j q. unfold given at in ground arith)

      clash : IsRow w n i (coef i) → ⊥
      clash r =
          let p : i < n = IsRow-lt r in
          let same : x (λ j. false) (i + 0) ≡ x (at i) (i + 0) =
            row_fixes w (coef i) (from i (x (λ j. false))) (from i (x (at i))) pos r.first
              (solves (λ j. false) i ∙ sym (solves (at i) i)) above in
          let one : at i i ≡ true = unfold at in ground arith in
          let home : i + 0 ≡ i = omega arith in
          cc (
            ap (x (λ j. false)) home,
            ap (x (at i)) home,
            same,
            value (λ j. false) p,
            value (at i) p,
            one,
          )

  -- So back-substitution from either gives the same values, whatever is put into the empty slots.
  pub solution_unique :
      IsEchelon w n coef
      → IsEchelon w n coef'
      → ((i : ℕ) → coef i ≡ 0 → rhs i ≡ false)
      → ((i : ℕ) → coef' i ≡ 0 → rhs' i ≡ false)
      → ((x : ℕ → Bool) → Solves w coef rhs x → Solves w coef' rhs' x)
      → ((x : ℕ → Bool) → Solves w coef' rhs' x → Solves w coef rhs x)
      → (free : ℕ → Bool) (i : ℕ)
      → solution w n coef (given coef rhs free) i ≡ solution w n coef' (given coef' rhs' free) i
  solution_unique ech ech' z z' to back free i =
      solutions_agree w n coef' pos ech' rhs' x x'
        (to x (solution-Solves w n coef pos ech rhs free z))
        (solution-Solves w n coef' pos ech' rhs' free z') agree n i (omega arith)
    where
      x : ℕ → Bool
      x = solution w n coef (given coef rhs free)

      x' : ℕ → Bool
      x' = solution w n coef' (given coef' rhs' free)

      agree : (j : ℕ) → coef' j ≡ 0 → x j ≡ x' j
      agree j e = elim (dec_lt j n) [
        | yes p ↦
            let f : coef j ≡ 0 = empty_slot ech ech' z' back j e in
            solution_empty w n coef (given coef rhs free) j p f
            ∙ given_empty coef rhs free j f
            ∙ sym (
                solution_empty w n coef' (given coef' rhs' free) j p e
                ∙ given_empty coef' rhs' free j e)
        | no p ↦
            solution_past w n coef (given coef rhs free) j (omega arith)
            ∙ sym (solution_past w n coef' (given coef' rhs' free) j (omega arith))
      ]
