-- ===== src/Banding/Back.antt =====
-- The columns that `back_substitute` of src/banding.rs stores, against the rows of the matrix.
use pleat.Common.{
  ℕ, ◌*◌, ◌/◌, ◌≡◌, refl, ◌∙◌, arith, Bool, List, length, replicate, length-replicate, fun_ext, All,
}
use pleat.Word.Bits.{bit, bit-zero}
use pleat.System.Fill.{solution}
use pleat.System.Unique.{given, solution-Solves}
use pleat.Interleaved.Stores.{Stores, blocks_loop-Stores, length-blocks_loop}
use pleat.Interleaved.Words.{IsWord, blocks_loop-IsWord, zeros-IsWord}
use pleat.Banding.{Banding, w, load_row, back_substitute}
use pleat.Banding.Add.{coef, zeros}
use pleat.Banding.Build.{IsBand, BandSolves}

-- What is put into the empty slots of column `j`.
unfoldable pub free : ℕ → ℕ → Bool
free j i = bit j (load_row i 0)

-- The values of column `j` at the slots of a matrix.
unfoldable pub column : List ℕ → ℕ → ℕ → Bool
column rows j = solution w (length rows) (coef rows) (given (coef rows) zeros (free j))

load_row-given :
    (rows : List ℕ) (j : ℕ)
    → (λ i. bit j (load_row i (coef rows i))) ≡ given (coef rows) zeros (free j)
unfolding load_row given free
load_row-given rows j = fun_ext (λ i. ground (arith, bit-zero j))

module _ (r blocks : ℕ) (b : Banding) (whole : blocks * 64 ≡ length b.coeff_rows) where
  -- Back-substitution stores the columns of the matrix, block by block.
  pub back_substitute-Stores : Stores w r blocks (back_substitute r b) (column b.coeff_rows)
  unfolding back_substitute column
  back_substitute-Stores blk j k lo q jr kw =
      let rows = b.coeff_rows in
      let e : length rows / w ≡ blocks = omega arith in
      rw (e, ← load_row-given rows j)
        (blocks_loop-Stores w (coef rows) (λ i. load_row i (coef rows i)) (length rows) r blocks
          whole blk j k lo q jr kw)

  pub length-back_substitute : length (back_substitute r b) ≡ blocks * r
  unfolding back_substitute
  length-back_substitute =
      let e : length b.coeff_rows / w ≡ blocks = omega arith in
      rw e (
        length-blocks_loop w (coef b.coeff_rows) (λ i. load_row i (coef b.coeff_rows i)) r blocks
          (replicate r 0) (replicate (blocks * r) 0)
        ∙ length-replicate (blocks * r) 0)

-- Each column solves the matrix.
pub column-BandSolves : (b : Banding) (j : ℕ) → IsBand b → BandSolves b (column b.coeff_rows j)
unfolding column
column-BandSolves b j v =
    solution-Solves w (length b.coeff_rows) (coef b.coeff_rows) (omega arith) v.echelon zeros
      (free j) (λ i e. refl)

pub back_substitute-IsWord : (r : ℕ) (b : Banding) → All (IsWord w) (back_substitute r b)
unfolding back_substitute
back_substitute-IsWord r b =
    blocks_loop-IsWord w (coef b.coeff_rows) (λ i. load_row i (coef b.coeff_rows i)) (omega arith) r
      (length b.coeff_rows / w) (replicate r 0) _
      (zeros-IsWord w (coef b.coeff_rows) (λ i. 0) (omega arith) r)
      (zeros-IsWord w (coef b.coeff_rows) (λ i. 0) (omega arith) _)
