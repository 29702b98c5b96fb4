-- ===== src/Word/Column.antt =====
-- The word that one slot of back-substitution makes of a column: the digits of `s` are the values of
-- the next slots up, and the value of this slot is pushed below them.
use pleat.Common.{
  ℕ, zero, suc, ◌*◌, ◌^◌, ◌<◌, ◌≡◌, ◌∙◌, arith, Bool, false, ◌⊕◌, bit_and, bit_or, bit_xor,
}
use pleat.Word.{shl, shr, count_ones}
use pleat.Word.Bits.{bit, odd, bit-bit_and, bit-bit_or, bit-bit_xor, bit_past}
use pleat.Word.Parity.{dot, parity_ext, odd-count_ones}
use pleat.Word.Shift.{bit-shr, bit-mod, bit-mul_pow, bit-mul_pow_low}
use pleat.System.Fill.{push}

-- The `w` low digits of `s` are the values of `f`.
abbrev pub Holds : ℕ → ℕ → (ℕ → Bool) → Type 0
Holds w s f = (b : ℕ) → b < w → bit b s ≡ f b

-- `x & 1` as a word.
pub bit-and_one : (k x : ℕ) → bit k (bit_and x 1) ≡ push (odd x) (λ b. false) k
unfolding bit
bit-and_one zero x = ground (arith, bit-bit_and 0 x 1)
bit-and_one (suc k) x = ground (arith, bit-bit_and (suc k) x 1, bit_past 0 k 0)

odd-shr : (j x : ℕ) → odd (shr x j) ≡ bit j x
odd-shr j x = unfold bit in (bit-shr j 0 j x (omega arith))

module _ (w : ℕ) where
  pub shl_one-Holds : (s : ℕ) (f : ℕ → Bool) → Holds w s f → Holds w (shl w s 1) (push false f)
  shl_one-Holds s f h zero p = bit-mod w 0 (s * 2 ^ 1) p ∙ bit-mul_pow_low 1 0 s (omega arith)
  shl_one-Holds s f h (suc b) p =
      bit-mod w (suc b) (s * 2 ^ 1) p ∙ bit-mul_pow 1 b (suc b) s (omega arith) ∙ h b (omega arith)

  pub count_ones-dot :
      (s c : ℕ) (f : ℕ → Bool) → Holds w s f → odd (count_ones w (bit_and s c)) ≡ dot w c f
  count_ones-dot s c f h =
      odd-count_ones w (bit_and s c)
      ∙ parity_ext w _ _ (λ b p. ground (arith, bit-bit_and b s c, h b p))

-- `tmp | (((tmp & cr).count_ones() & 1) ^ ((rr >> j) & 1))` with `tmp = s << 1`.
abbrev pub column_word : ℕ → ℕ → ℕ → ℕ → ℕ → ℕ
column_word w cr rr j s =
    let tmp = shl w s 1 in
    bit_or tmp (bit_xor (bit_and (count_ones w (bit_and tmp cr)) 1) (bit_and (shr rr j) 1))

pub column_word-Holds :
    (w cr rr j s : ℕ) (f : ℕ → Bool)
    → Holds w s f
    → Holds w (column_word w cr rr j s) (push (dot w cr (push false f) ⊕ bit j rr) f)
column_word-Holds w cr rr j s f h zero p =
    let tmp : ℕ = shl w s 1 in
    let ones : ℕ = count_ones w (bit_and tmp cr) in
    ground (
      arith,
      bit-bit_or 0 tmp (bit_xor (bit_and ones 1) (bit_and (shr rr j) 1)),
      shl_one-Holds w s f h 0 p,
      bit-bit_xor 0 (bit_and ones 1) (bit_and (shr rr j) 1),
      bit-and_one 0 ones,
      bit-and_one 0 (shr rr j),
      count_ones-dot w tmp cr (push false f) (shl_one-Holds w s f h),
      odd-shr j rr,
    )
column_word-Holds w cr rr j s f h (suc b) p =
    let tmp : ℕ = shl w s 1 in
    let ones : ℕ = count_ones w (bit_and tmp cr) in
    ground (
      arith,
      bit-bit_or (suc b) tmp (bit_xor (bit_and ones 1) (bit_and (shr rr j) 1)),
      shl_one-Holds w s f h (suc b) p,
      bit-bit_xor (suc b) (bit_and ones 1) (bit_and (shr rr j) 1),
      bit-and_one (suc b) ones,
      bit-and_one (suc b) (shr rr j),
    )
