-- ===== src/Banding/Filled.antt =====
-- What `Banding::back_substitute` of src/banding.rs stores at the empty slots, and hence at all.
use native.Mathlib.Decide.{dec_lt}
use pleat.Common.{
  ℕ, ◌+◌, ◌*◌, ◌/◌, ◌%◌, ◌^◌, ◌≤◌, ◌<◌, ◌≡◌, sym, ap, ◌∙◌, arith, Bool, false, length, get_or,
}
use pleat.Word.Bits.{bit}
use pleat.Word.Shift.{bit-mod}
use pleat.System.Fill.{solution_empty, solution_past}
use pleat.System.Unique.{given, given_empty, solutions_agree}
use pleat.Banding.{Banding, w, load_row, solve}
use pleat.Banding.Add.{coef, zeros}
use pleat.Banding.Build.{IsBand, BandSolves}
use pleat.Banding.Back.{free, column, column-BandSolves, back_substitute-Stores}

-- The bit that is put into an empty slot.
free_bit : (j i : ℕ) → j < 32 → free j i ≡ bit j (i * 0x9e3779b185ebca87)
unfolding free load_row
free_bit j i p =
    let low : load_row i 0 ≡ i * 0x9e3779b185ebca87 % 2 ^ 32 = omega arith in
    ap (bit j) low ∙ bit-mod 32 j (i * 0x9e3779b185ebca87) p

-- For at most 32 columns, solving a well-formed homogeneous matrix of whole blocks stores, for a
-- column j, the one choice of values that solves every row, is zero beyond the slots and has at
-- each empty slot i bit j of i * 0x9E3779B185EBCA87: whatever choice has these three properties
-- is what the segments hold at every slot.
pub solve-only :
    (r blocks : ℕ) (b : Banding) (j : ℕ) (x : ℕ → Bool)
    → r ≤ 32
    → j < r
    → IsBand b
    → blocks * 64 ≡ length b.coeff_rows
    → BandSolves b x
    → ((i : ℕ)
        → i < length b.coeff_rows
        → get_or b.coeff_rows i 0 ≡ 0
        → x i ≡ bit j (i * 0x9e3779b185ebca87))
    → ((i : ℕ) → length b.coeff_rows ≤ i → x i ≡ false)
    → (i : ℕ) → i < length b.coeff_rows
    → bit (i % 64) (get_or (solve r b).segments (i / 64 * r + j) 0) ≡ x i
unfolding solve column
solve-only r blocks b j x width col v whole solves empty past i p =
    let n : ℕ = length b.coeff_rows in
    let stored : bit (i % 64) (get_or (solve r b).segments (i / 64 * r + j) 0)
        ≡ column b.coeff_rows j (i / 64 * 64 + i % 64) =
      back_substitute-Stores r blocks b whole (i / 64) j (i % 64) (omega arith) (omega arith) col
        (omega arith) in
    let here : i / 64 * 64 + i % 64 ≡ i = omega arith in
    stored
    ∙ ap (column b.coeff_rows j) here
    ∙ solutions_agree w n (coef b.coeff_rows) (omega arith) v.echelon zeros (column b.coeff_rows j)
        x (column-BandSolves b j v) solves agree n i (omega arith)
  where
    agree : (k : ℕ) → coef b.coeff_rows k ≡ 0 → column b.coeff_rows j k ≡ x k
    agree k e = elim (dec_lt k (length b.coeff_rows)) [
      | yes q ↦
          solution_empty w (length b.coeff_rows) (coef b.coeff_rows)
            (given (coef b.coeff_rows) zeros (free j)) k q e
          ∙ given_empty (coef b.coeff_rows) zeros (free j) k e
          ∙ free_bit j k (omega arith)
          ∙ sym (empty k q e)
      | no q ↦
          solution_past w (length b.coeff_rows) (coef b.coeff_rows)
            (given (coef b.coeff_rows) zeros (free j)) k (omega arith)
          ∙ sym (past k (omega arith))
    ]
