-- ===== src/System/Fill.antt =====
-- Back-substitution on one result column, from the last slot down: slot `i` gets the value that
-- its row leaves for it, and where the row is empty the value given.
use pleat.Common.{
  ℕ, zero, suc, ◌+◌, ◌-◌, ◌≤◌, ◌<◌, ◌≡◌, refl, sym, ap, ◌∙◌, arith, Bool, true, false, ◌&&◌, ◌⊕◌,
  fun_ext,
}
use native.Mathlib.Decide.{dec_lt}
use pleat.Word.Bits.{bit, odd, bit-zero}
use pleat.Word.Parity.{dot, from, parity_ext, parity-false, parity_first}

abbrev pub push : Bool → (ℕ → Bool) → ℕ → Bool
push a y zero = a
push a y (suc b) = y b

-- What a row does with the value of its own slot, and with those above it.
pub dot-push :
    (w c : ℕ) (a : Bool) (y : ℕ → Bool)
    → 0 < w
    → dot w c (push a y) ≡ ((bit 0 c && a) ⊕ dot w c (push false y))
dot-push w c a y p =
    parity_first w (w - 1) (λ b. bit b c && push a y b) (omega arith)
    ∙ ground (arith, parity_first w (w - 1) (λ b. bit b c && push false y b) (omega arith))

-- The empty row gives zero.
pub dot_zero : (w : ℕ) (y : ℕ → Bool) → dot w 0 y ≡ false
dot_zero w y = parity-false w _ (λ b p. ap (λ t. t && y b) (bit-zero b))

module _ (w n : ℕ) (coef : ℕ → ℕ) where
  -- The values from slot `n - k` up, where slot `i` is given `val i` beside its row.
  unfoldable pub fill : (ℕ → Bool) → ℕ → ℕ → Bool
  fill val zero b = false
  fill val (suc k) b =
      push (dot w (coef (n - suc k)) (push false (fill val k)) ⊕ val (n - suc k)) (fill val k) b

  abbrev pub solution : (ℕ → Bool) → ℕ → Bool
  solution val i = fill val (n - i) 0

  fill_first : (val : ℕ → Bool) (k b : ℕ) → fill val k b ≡ fill val (k - b) 0
  unfolding fill
  fill_first val k zero = ap (λ (m : ℕ). fill val m 0) (omega arith)
  fill_first val zero (suc b) = let e : 0 - suc b ≡ 0 = omega arith in rw e
  fill_first val (suc k) (suc b) =
      let e : suc k - suc b ≡ k - b = omega arith in rw e (fill_first val k b)

  pub fill-solution : (val : ℕ → Bool) (i k b : ℕ) → i + k ≡ n → fill val k b ≡ solution val (i + b)
  fill-solution val i k b e = fill_first val k b ∙ ap (λ (m : ℕ). fill val m 0) (omega arith)

  solution_step :
      (val : ℕ → Bool) (i k : ℕ)
      → i + suc k ≡ n
      → solution val i ≡ (dot w (coef i) (push false (fill val k)) ⊕ val i)
  unfolding fill
  solution_step val i k e =
      let e' : n - i ≡ suc k = omega arith in let f : n - suc k ≡ i = omega arith in rw (e', f)

  -- An empty slot keeps the value that it is given.
  pub solution_empty : (val : ℕ → Bool) (i : ℕ) → i < n → coef i ≡ 0 → solution val i ≡ val i
  solution_empty val i p e =
      solution_step val i (n - suc i) (omega arith)
      ∙ rw (e, dot_zero w (push false (fill val (n - suc i))))

  solution-push :
      (val : ℕ → Bool) (i k b : ℕ)
      → i + suc k ≡ n
      → solution val (i + b) ≡ push (solution val i) (fill val k) b
  solution-push val i k zero e = ap (λ (m : ℕ). solution val m) (omega arith)
  solution-push val i k (suc b) e =
      sym (fill-solution val i (suc k) (suc b) e) ∙ (unfold fill in refl)

  -- A row with first coefficient one is solved, with the given value at its right.
  pub solution_row :
      (val : ℕ → Bool) (i : ℕ)
      → 0 < w
      → i < n
      → odd (coef i) ≡ true
      → dot w (coef i) (from i (solution val)) ≡ val i
  solution_row val i pos p o =
      parity_ext w _ (λ b. bit b (coef i) && push (solution val i) (fill val k) b)
        (λ b q. ap (λ t. bit b (coef i) && t) (solution-push val i k b e))
      ∙ dot-push w (coef i) (solution val i) (fill val k) pos
      ∙ unfold bit in ground (arith, solution_step val i k e, o)
    where
      k : ℕ
      k = n - suc i

      e : i + suc k ≡ n
      e = omega arith

  pub solution_past : (val : ℕ → Bool) (i : ℕ) → n ≤ i → solution val i ≡ false
  unfolding fill
  solution_past val i p = let e : n - i ≡ 0 = omega arith in rw e

  fill_above :
      (val val' : ℕ → Bool) (k b : ℕ)
      → ((j : ℕ) → n ≤ j + k → val j ≡ val' j)
      → fill val k b ≡ fill val' k b
  unfolding fill
  fill_above val val' zero b h = refl
  fill_above val val' (suc k) b h =
      let e : fill val k ≡ fill val' k =
        fun_ext (λ c. fill_above val val' k c (λ j p. h j (omega arith))) in
      rw (e, h (n - suc k) (omega arith))

  -- A slot's value depends on what is given from that slot up.
  pub solution_above :
      (val val' : ℕ → Bool) (i : ℕ)
      → ((j : ℕ) → i ≤ j → val j ≡ val' j)
      → solution val i ≡ solution val' i
  solution_above val val' i h = elim (dec_lt i n) [
    | yes p ↦ fill_above val val' (n - i) 0 (λ j q. h j (omega arith))
    | no p ↦ solution_past val i (omega arith) ∙ sym (solution_past val' i (omega arith))
  ]
