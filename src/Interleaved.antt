-- ===== src/Interleaved.antt =====
-- Interleaved back-substitution, which src/banding.rs and src/banding128.rs write out for rows of
-- 64 and of 128 bits: from the last slot down, each slot pushes one value on the word of each
-- column, and the words are stored at the first slot of a block.
pub mod Stores
pub mod Agree
pub mod Words
use pleat.Common.{ℕ, zero, suc, ◌+◌, ◌*◌, List, [], ◌∷◌, bit_and, bit_or, bit_xor, copy_from_slice}
use pleat.Word.{shl, shr, count_ones}

-- `w` is the width of a row; slot `i` has the coefficients `cr_at i` and the result row `rr_at i`.
module _ (w : ℕ) (cr_at rr_at : ℕ → ℕ) where
  unfoldable pub column_step : ℕ → ℕ → ℕ → ℕ → ℕ
  column_step cr rr j sj =
      let tmp = shl w sj 1 in
      let bit = bit_xor (bit_and (count_ones w (bit_and tmp cr)) 1) (bit_and (shr rr j) 1) in
      bit_or tmp bit

  -- `for (j, sj) in state.iter_mut().enumerate()`, from column `j` on.
  unfoldable pub row_step : ℕ → ℕ → ℕ → List ℕ → List ℕ
  row_step cr rr j [] = []
  row_step cr rr j (sj ∷ state) = column_step cr rr j sj ∷ row_step cr rr (suc j) state

  -- `for i in (start_slot..start_slot + n).rev()`.
  unfoldable pub rows_loop : ℕ → ℕ → List ℕ → List ℕ
  rows_loop start_slot zero state = state
  rows_loop start_slot (suc n) state =
      let i = start_slot + n in rows_loop start_slot n (row_step (cr_at i) (rr_at i) 0 state)

  -- `for block in (0..n).rev()`, with `r` columns.
  unfoldable pub blocks_loop : ℕ → ℕ → List ℕ → List ℕ → List ℕ
  blocks_loop r zero state out = out
  blocks_loop r (suc block) state out =
      let state' = rows_loop (block * w) w state in
      blocks_loop r block state' (copy_from_slice out (block * r) state')
