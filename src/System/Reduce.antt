-- ===== src/System/Reduce.antt =====
-- One step of Gaussian elimination: a row meets the row of its slot, or is put into an empty slot.
use native.Mathlib.Decide.{ℕ_discrete}
use pleat.Common.{
  ℕ, zero, suc, ◌+◌, ◌-◌, ◌/◌, ◌^◌, ◌≤◌, ◌<◌, ◌≡◌, ◌≢◌, refl, sym, ap, ap₂, ◌∙◌, arith, Bool, false,
  ◌&&◌, ◌⊕◌, inr, bit_xor,
}
use pleat.Word.{shr, trailing_zeros}
use pleat.Word.Bits.{bit, odd, bit_past, bit_xor-lt, bit-bit_xor}
use pleat.Word.Parity.{dot, from, parity_ext, parity-false, parity-add, dot-bit_xor}
use pleat.Word.Shift.{
  bit-shr, shr-lt, trailing_zeros_low, trailing_zeros_pos, shr-trailing_zeros-odd,
}
use pleat.System.{Solves, IsRow, IsEchelon}
use pleat.System.Fill.{dot_zero}

trailing_zeros-le : (w c : ℕ) → trailing_zeros w c ≤ w
unfolding trailing_zeros
trailing_zeros-le zero c = omega arith
trailing_zeros-le (suc w) c = ground (arith, trailing_zeros-le w (c / 2))

-- Dropping zeros moves a row to a later slot, where it says the same.
dot-shr :
    (w c i t : ℕ) (x : ℕ → Bool)
    → c < 2 ^ w
    → t ≤ w
    → ((k : ℕ) → k < t → bit k c ≡ false)
    → dot w (shr c t) (from (i + t) x) ≡ dot w c (from i x)
dot-shr w c i t x word le low =
    parity-add (w - t) t w (λ b. bit b (shr c t) && x (i + t + b)) (omega arith)
    ∙ ap₂ ◌⊕◌
        (parity_ext (w - t) _ (λ b. bit (t + b) c && x (i + (t + b)))
          (λ b p. ap₂ ◌&&◌ (bit-shr t b (t + b) c refl) (ap x (omega arith))))
        (parity-false t _ (λ b p.
          ap (λ s. s && x (i + t + (w - t + b)))
            (bit-shr t (w - t + b) (w + b) c (omega arith)
              ∙ bit_past w (w + b) c word (omega arith))))
    ∙ ground (
      arith,
      parity-false t (λ b. bit b c && x (i + b)) (λ b p. ap (λ s. s && x (i + b)) (low b p)),
    )
    ∙ sym (parity-add t (w - t) w (λ b. bit b c && x (i + b)) (omega arith))

-- Two rows of a slot whose sum is not zero: the sum, without its low zeros, is a row of a later
-- slot.
module _ {w n i c d : ℕ} (r : IsRow w n i c) (s : IsRow w n i d) where
  sum_word : bit_xor c d < 2 ^ w
  sum_word = bit_xor-lt w c d r.word s.word

  sum_even : odd (bit_xor c d) ≡ false
  sum_even = unfold bit in ground (arith, bit-bit_xor 0 c d, r.first, s.first)

  pub reduce_later : bit_xor c d ≢ 0 → 0 < trailing_zeros w (bit_xor c d)
  reduce_later ne = trailing_zeros_pos w (bit_xor c d) sum_word ne sum_even

  pub reduce-IsRow :
      bit_xor c d ≢ 0
      → let t = trailing_zeros w (bit_xor c d) in IsRow w n (i + t) (shr (bit_xor c d) t)
  reduce-IsRow ne = record {
    first = shr-trailing_zeros-odd w (bit_xor c d) sum_word ne;
    word = shr-lt w (bit_xor c d) (trailing_zeros w (bit_xor c d)) sum_word;
    fits = λ b h. ground (
      arith,
      bit-shr (trailing_zeros w (bit_xor c d)) b (trailing_zeros w (bit_xor c d) + b) (bit_xor c d)
          refl,
      bit-bit_xor (trailing_zeros w (bit_xor c d) + b) c d,
      r.fits (trailing_zeros w (bit_xor c d) + b),
      s.fits (trailing_zeros w (bit_xor c d) + b),
    );
  }

  pub reduce-dot :
      (x : ℕ → Bool)
      → let t = trailing_zeros w (bit_xor c d) in
        dot w (shr (bit_xor c d) t) (from (i + t) x) ≡ (dot w c (from i x) ⊕ dot w d (from i x))
  reduce-dot x =
      let t = trailing_zeros w (bit_xor c d) in
      dot-shr w (bit_xor c d) i t x sum_word (trailing_zeros-le w (bit_xor c d))
        (λ k p. trailing_zeros_low w k (bit_xor c d) p)
      ∙ dot-bit_xor w c d (from i x)

-- `coef'` and `rhs'` are `coef` and `rhs` with the row `c`, `r` put into the empty slot `i`.
module _ (w n i c : ℕ) (r : Bool) (coef coef' : ℕ → ℕ) (rhs rhs' : ℕ → Bool) where
  pub record Places : Type 0 where
    pub empty : coef i ≡ 0
    pub no_rhs : rhs i ≡ false
    pub here : coef' i ≡ c
    pub here_rhs : rhs' i ≡ r
    pub other : (j : ℕ) → i ≢ j → coef' j ≡ coef j
    pub other_rhs : (j : ℕ) → i ≢ j → rhs' j ≡ rhs j

  pub Places-IsEchelon : Places → IsRow w n i c → i < n → IsEchelon w n coef → IsEchelon w n coef'
  Places-IsEchelon p row lt ech = record {
    slot = λ j. elim (ℕ_discrete i j) [
      | yes e ↦ inr (rw (← e, p.here) row)
      | no ne ↦ rw (p.other j ne) (ech.slot j)
    ];
    past = λ j q. p.other j (λ e. absurd (omega arith)) ∙ ech.past j q;
  }

  pub Places-Solves :
      (x : ℕ → Bool) → Places → Solves w coef rhs x → dot w c (from i x) ≡ r → Solves w coef' rhs' x
  Places-Solves x p s e j = elim (ℕ_discrete i j) [
    | yes f ↦ rw (← f, p.here, p.here_rhs) e
    | no ne ↦ rw (p.other j ne, p.other_rhs j ne) (s j)
  ]

  pub Solves-Places :
      (x : ℕ → Bool)
      → Places
      → Solves w coef' rhs' x
      → Solves w coef rhs x × (dot w c (from i x) ≡ r)
  Solves-Places x p s = (
    λ j. elim (ℕ_discrete i j) [
      | yes f ↦ rw (← f, p.empty, p.no_rhs) (dot_zero w (from i x))
      | no ne ↦ rw (p.other j ne, p.other_rhs j ne) at (s j)
    ],
    rw (p.here, p.here_rhs) at (s i),
  )
