-- ===== src/Word/Window.antt =====
-- The row that a query of src/banding.rs and src/banding128.rs reads across two adjacent words, as
-- `(lo & (cr << s)) | (hi & (cr >> ((w - s) % w)))`.
use native.Mathlib.Nat.{mod-eq_of_lt}
use pleat.Common.{
  ℕ, ◌+◌, ◌-◌, ◌*◌, ◌%◌, ◌^◌, ◌<◌, ◌≡◌, refl, sym, ap, ap₂, ◌∙◌, arith, Bool, ◌&&◌, ◌||◌, ◌⊕◌,
  bit_and, bit_or, xor_comm,
}
use pleat.Word.{shl, shr, count_ones}
use pleat.Word.Bits.{bit, odd, bit-bit_and, bit-bit_or, bit_past}
use pleat.Word.Parity.{parity, dot, from, parity_ext, parity-add, odd-count_ones}
use pleat.Word.Shift.{bit-shr, bit-mod, bit-mul_pow, bit-mul_pow_low}
use pleat.Word.Column.{Holds}

abbrev pub window : ℕ → ℕ → ℕ → ℕ → ℕ → ℕ
window w lo hi cr s = bit_or (bit_and lo (shl w cr s)) (bit_and hi (shr cr ((w - s) % w)))

module _ (w lo hi cr s : ℕ) where
  bit-window :
      (b : ℕ)
      → bit b (window w lo hi cr s)
        ≡ ((bit b lo && bit b (shl w cr s)) || (bit b hi && bit b (shr cr ((w - s) % w))))
  bit-window b =
      bit-bit_or b (bit_and lo (shl w cr s)) (bit_and hi (shr cr ((w - s) % w)))
      ∙ ap₂ ◌||◌ (bit-bit_and b lo (shl w cr s)) (bit-bit_and b hi (shr cr ((w - s) % w)))

  module _ (word : cr < 2 ^ w) (y : ℕ → Bool) (holds : Holds w lo y) where
    -- Where the row begins with a word, both halves are that word.
    pub window_aligned :
        0 < w → s ≡ 0 → hi ≡ lo → odd (count_ones w (window w lo hi cr s)) ≡ dot w cr (from s y)
    window_aligned pos e same = odd-count_ones w (window w lo hi cr s) ∙ parity_ext w _ _ digit
      where
        left : shl w cr s ≡ cr
        left = rw e (ap (λ (t : ℕ). t % 2 ^ w) (omega arith) ∙ mod-eq_of_lt word)

        none_right : (w - s) % w ≡ 0
        none_right = rw e (grind arith)

        right : shr cr ((w - s) % w) ≡ cr
        right = rw none_right (omega arith)

        digit : (b : ℕ) → b < w → bit b (window w lo hi cr s) ≡ (bit b cr && y (s + b))
        digit b p = ground (
          arith,
          bit-window b,
          left,
          right,
          same,
          holds b p,
          ap y (let f : b ≡ s + b = omega arith in f),
        )

    -- Otherwise the low digits of the row meet the high end of `lo`, and its high ones the low end
    -- of `hi`.
    pub window_split :
        0 < s
        → s < w
        → Holds w hi (from w y)
        → odd (count_ones w (window w lo hi cr s)) ≡ dot w cr (from s y)
    window_split pos lt upper =
        odd-count_ones w (window w lo hi cr s)
        ∙ parity-add s (w - s) w (λ b. bit b (window w lo hi cr s)) (omega arith)
        ∙ ap₂ ◌⊕◌ (parity_ext s _ _ low) (parity_ext (w - s) _ _ high)
        ∙ xor_comm (parity s (λ b. bit (w - s + b) cr && y (s + (w - s + b))))
            (parity (w - s) (λ b. bit b cr && y (s + b)))
        ∙ sym (parity-add (w - s) s w (λ b. bit b cr && y (s + b)) (omega arith))
      where
        shift : (w - s) % w ≡ w - s
        shift = mod-eq_of_lt (omega arith)

        low :
            (b : ℕ)
            → b < s
            → bit b (window w lo hi cr s) ≡ (bit (w - s + b) cr && y (s + (w - s + b)))
        low b p = ground (
          arith,
          bit-window b,
          bit-mod w b (cr * 2 ^ s) (omega arith),
          bit-mul_pow_low s b cr p,
          ap (λ (t : ℕ). bit b (shr cr t)) shift,
          bit-shr (w - s) b (w - s + b) cr refl,
          upper b (omega arith),
          ap y (let f : w + b ≡ s + (w - s + b) = omega arith in f),
        )

        high : (b : ℕ) → b < w - s → bit (s + b) (window w lo hi cr s) ≡ (bit b cr && y (s + b))
        high b p = ground (
          arith,
          bit-window (s + b),
          bit-mod w (s + b) (cr * 2 ^ s) (omega arith),
          bit-mul_pow s b (s + b) cr refl,
          ap (λ (t : ℕ). bit (s + b) (shr cr t)) shift,
          bit-shr (w - s) (s + b) (w + b) cr (omega arith),
          bit_past w (w + b) cr word (omega arith),
          holds (s + b) (omega arith),
        )
