-- ===== src/Prefetch/Lines.antt =====
-- The cache lines of the segments that a prefetch of src/banding.rs or src/banding128.rs touches.
use native.Mathlib.Decide.{dec_lt}
use pleat.Common.{
  ℕ, zero, suc, ◌+◌, ◌/◌, ◌≤◌, ◌<◌, ◌≡◌, refl, ap, ◌∙◌, arith, ltb, lt→ltb, true, false, ◌⊎◌, inl,
  inr, List, [], ◌∷◌, ◌++◌, Bool-cases,
}
use pleat.Prefetch.{step_by, touch}

-- With `line` segments to a cache line, and the first segment at place `a` of its line: some segment
-- of the list is in the line of segment `i`.
unfoldable pub Loads : ℕ → ℕ → ℕ → List ℕ → Type 0
Loads line a i [] = ⊥
Loads line a i (t ∷ indices) = ((a + t) / line ≡ (a + i) / line) ⊎ Loads line a i indices

module _ (line a len last : ℕ) (inside : last < len) where
  last-Loads : (indices : List ℕ) → Loads line a last (touch len (indices ++ (last ∷ [])))
  unfolding Loads touch
  last-Loads [] = let e : ltb last len ≡ true = lt→ltb last len inside in rw e (inl refl)
  last-Loads (i ∷ indices) = elim (Bool-cases (ltb i len)) [
    | inl e ↦ rw e (inr (last-Loads indices))
    | inr e ↦ rw e (last-Loads indices)
  ]

  Loads-line :
      (i j : ℕ) (indices : List ℕ)
      → (a + i) / line ≡ (a + j) / line
      → Loads line a i indices
      → Loads line a j indices
  unfolding Loads
  Loads-line i j [] e h = absurd h
  Loads-line i j (t ∷ indices) e (inl f) = inl (f ∙ e)
  Loads-line i j (t ∷ indices) e (inr h) = inr (Loads-line i j indices e h)

  module _ (pos : 0 < line)
      (near : (t i u : ℕ)
        → t ≤ i
        → i < t + line
        → i ≤ u
        → u ≤ t + line
        → ((a + t) / line ≡ (a + i) / line) ⊎ ((a + u) / line ≡ (a + i) / line)) where
    -- Every segment from the first to the last is in the line of one that is touched.
    pub step_by-Loads :
        (fuel i j : ℕ)
        → i ≤ j
        → j ≤ last
        → last ≤ i + fuel
        → Loads line a j (touch len (step_by line fuel i last ++ (last ∷ [])))
    unfolding Loads touch step_by
    step_by-Loads zero i j p q f =
        Loads-line last j (touch len (last ∷ [])) (ap (λ (k : ℕ). (a + k) / line) (omega arith))
          (last-Loads [])
    step_by-Loads (suc fuel) i j p q f = elim (dec_lt i last) [
      | no past ↦
          let e : ltb i last ≡ false = ground arith in
          rw e (
            Loads-line last j (touch len (last ∷ [])) (ap (λ (k : ℕ). (a + k) / line) (omega arith))
              (last-Loads []))
      | yes before ↦
          let e : ltb i last ≡ true = ground arith in
          let here : ltb i len ≡ true = ground arith in
          rw (e, here)
            (elim (dec_lt j (i + line)) [
              | no far ↦ inr (step_by-Loads fuel (i + line) j (omega arith) q (omega arith))
              | yes close ↦ elim (dec_lt last (i + line)) [
                | yes ends ↦ elim (near i j last p close q (omega arith)) [
                  | inl g ↦ inl g
                  | inr g ↦
                      inr (Loads-line last j _ g (last-Loads (step_by line fuel (i + line) last)))
                ]
                | no goes ↦ elim (near i j (i + line) p close (omega arith) (omega arith)) [
                  | inl g ↦ inl g
                  | inr g ↦ inr (
                      Loads-line (i + line) j _ g (
                        step_by-Loads fuel (i + line) (i + line) (omega arith) (omega arith)
                          (omega arith)))
                ]
              ]
            ])
    ]
