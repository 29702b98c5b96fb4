-- ===== src/Interleaved/Words.antt =====
-- The width of the stored words, and segments known by their digits.
use native.Mathlib.Nat.{pow-suc, one-le-pow, mod-lt, div-add-mod', div-lt_iff_lt-mul}
use pleat.Common.{
  ℕ, zero, suc, ◌+◌, ◌*◌, ◌/◌, ◌%◌, ◌^◌, ◌<◌, ◌≡◌, sym, ◌∙◌, arith, Bool, List, [], ◌∷◌, length,
  get_or, get_or_ext, replicate, All, All-get_or, All-replicate, All-copy_from_slice, bit_and,
}
use pleat.Word.{shl, shr, count_ones}
use pleat.Word.Bits.{bit_ext, bit_or-lt, bit_xor-lt, bit_and-one}
use pleat.Interleaved.{column_step, row_step, rows_loop, blocks_loop}
use pleat.Interleaved.Stores.{Stores}

abbrev pub IsWord : ℕ → ℕ → Type 0
IsWord w s = s < 2 ^ w

one-lt-pow : (w : ℕ) → 0 < w → 1 < 2 ^ w
one-lt-pow zero p = absurd (omega arith)
one-lt-pow (suc w) p = omega (arith, pow-suc 2 w, one-le-pow w 2 (omega arith))

module _ (w : ℕ) (cr_at rr_at : ℕ → ℕ) (pos : 0 < w) where
  parity-lt : (x : ℕ) → bit_and x 1 < 2 ^ w
  parity-lt x = omega (arith, bit_and-one x, one-lt-pow w pos)

  column_step-IsWord : (cr rr j s : ℕ) → IsWord w (column_step w cr_at rr_at cr rr j s)
  unfolding column_step
  column_step-IsWord cr rr j s =
      bit_or-lt w (shl w s 1) _ (mod-lt (s * 2 ^ 1) (omega (arith, one-lt-pow w pos))) (
        bit_xor-lt w _ _ (parity-lt (count_ones w (bit_and (shl w s 1) cr))) (parity-lt (shr rr j)))

  row_step-IsWord :
      (cr rr j : ℕ) (state : List ℕ) → All (IsWord w) (row_step w cr_at rr_at cr rr j state)
  unfolding row_step
  row_step-IsWord cr rr j [] = tt
  row_step-IsWord cr rr j (s ∷ state) =
      (column_step-IsWord cr rr j s, row_step-IsWord cr rr (suc j) state)

  rows_loop-IsWord :
      (start_slot m : ℕ) (state : List ℕ)
      → All (IsWord w) state
      → All (IsWord w) (rows_loop w cr_at rr_at start_slot m state)
  unfolding rows_loop
  rows_loop-IsWord start_slot zero state h = h
  rows_loop-IsWord start_slot (suc m) state h =
      rows_loop-IsWord start_slot m _ (row_step-IsWord _ _ 0 state)

  pub blocks_loop-IsWord :
      (r m : ℕ) (state out : List ℕ)
      → All (IsWord w) state
      → All (IsWord w) out
      → All (IsWord w) (blocks_loop w cr_at rr_at r m state out)
  unfolding blocks_loop
  blocks_loop-IsWord r zero state out h k = k
  blocks_loop-IsWord r (suc m) state out h k =
      let h' = rows_loop-IsWord (m * w) w state h in
      blocks_loop-IsWord r m _ _ h' (All-copy_from_slice (IsWord w) out (m * r) _ k h')

  pub zeros-IsWord : (n : ℕ) → All (IsWord w) (replicate n 0)
  zeros-IsWord n = All-replicate (IsWord w) n 0 (omega (arith, one-lt-pow w pos))

div-lt_blocks : (p r blocks : ℕ) → p < blocks * r → p / r < blocks
div-lt_blocks p zero blocks h = absurd (omega arith)
div-lt_blocks p (suc r) blocks h = (div-lt_iff_lt-mul (omega arith)).1 h

mod-lt_columns : (p r blocks : ℕ) → p < blocks * r → p % r < r
mod-lt_columns p zero blocks h = absurd (omega arith)
mod-lt_columns p (suc r) blocks h = mod-lt p (omega arith)

-- Segments that store the same values are equal.
pub Stores-unique :
    (w r blocks : ℕ) (segments segments' : List ℕ) (x x' : ℕ → ℕ → Bool)
    → 0 < w
    → length segments ≡ blocks * r
    → length segments' ≡ blocks * r
    → All (IsWord w) segments
    → All (IsWord w) segments'
    → Stores w r blocks segments x
    → Stores w r blocks segments' x'
    → ((j i : ℕ) → x j i ≡ x' j i)
    → segments ≡ segments'
Stores-unique w r blocks segments segments' x x' pos e e' h h' s s' same =
    get_or_ext 0 segments segments' (e ∙ sym e') λ p lt.
      let inside : p < blocks * r = omega arith in
      bit_ext w (get_or segments p 0) (get_or segments' p 0)
        (All-get_or (IsWord w) segments p 0 h (omega (arith, one-lt-pow w pos)))
        (All-get_or (IsWord w) segments' p 0 h' (omega (arith, one-lt-pow w pos)))
        λ b bw.
          let q = div-lt_blocks p r blocks inside in
          let m = mod-lt_columns p r blocks inside in
          rw (div-add-mod' p r) at (
            s (p / r) (p % r) b (omega arith) q m bw
            ∙ same (p % r) (p / r * w + b)
            ∙ sym (s' (p / r) (p % r) b (omega arith) q m bw))
