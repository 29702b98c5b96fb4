-- ===== src/Banding128/Back.antt =====
-- The columns that `back_substitute` of src/banding128.rs stores, against the rows of the matrix.
use pleat.Common.{
  ℕ, ◌+◌, ◌*◌, ◌/◌, ◌≡◌, sym, ap, ◌∙◌, arith, Bool, false, List, length, get_or, replicate,
  length-replicate, fun_ext, All,
}
use pleat.Word.Bits.{bit, bit-zero}
use pleat.System.Fill.{solution}
use pleat.System.Unique.{given, solution-Solves, solution_unique}
use pleat.Interleaved.Stores.{Stores, blocks_loop-Stores, length-blocks_loop}
use pleat.Interleaved.Words.{IsWord, blocks_loop-IsWord, zeros-IsWord, Stores-unique}
use pleat.Hash.{ordinal_to_raw_seed}
use pleat.Banding128.{Banding128, w128, back_substitute, into_solution}
use pleat.Banding128.Add.{coef, rhs, IsMatrix}
use pleat.Banding128.Build.{BandSolves}
use pleat.Banding128.Seed.{Solved}

-- The values of column `j` at the slots of a matrix: zero at the empty slots.
unfoldable pub column : List ℕ → List ℕ → ℕ → ℕ → Bool
column rows results j =
    solution w128 (length rows) (coef rows) (given (coef rows) (rhs results j) (λ i. false))

rhs_empty :
    (rows results : List ℕ) (j i : ℕ)
    → IsMatrix rows results
    → coef rows i ≡ 0
    → rhs results j i ≡ false
rhs_empty rows results j i m e = ap (bit j) (m.empty i e) ∙ bit-zero j

rhs-given :
    (rows results : List ℕ) (j : ℕ)
    → IsMatrix rows results
    → rhs results j ≡ given (coef rows) (rhs results j) (λ i. false)
unfolding given
rhs-given rows results j m = fun_ext (λ i. ground (arith, rhs_empty rows results j i m))

module _ (r blocks : ℕ) (b : Banding128) (whole : blocks * 128 ≡ length b.coeff_rows) where
  -- Back-substitution stores the columns of the matrix, block by block.
  pub back_substitute-Stores :
      IsMatrix b.coeff_rows b.result_rows
      → Stores w128 r blocks (back_substitute r b) (column b.coeff_rows b.result_rows)
  unfolding back_substitute column
  back_substitute-Stores m blk j k lo q jr kw =
      let rows = b.coeff_rows in
      let e : length rows / w128 ≡ blocks = omega arith in
      rw (e, ← rhs-given rows b.result_rows j m)
        (blocks_loop-Stores w128 (coef rows) (λ i. get_or b.result_rows i 0) (length rows) r blocks
          whole blk j k lo q jr kw)

  pub length-back_substitute : length (back_substitute r b) ≡ blocks * r
  unfolding back_substitute
  length-back_substitute =
      let e : length b.coeff_rows / w128 ≡ blocks = omega arith in
      rw e (
        length-blocks_loop w128 (coef b.coeff_rows) (λ i. get_or b.result_rows i 0) r blocks
          (replicate r 0) (replicate (blocks * r) 0)
        ∙ length-replicate (blocks * r) 0)

-- Each column solves the matrix.
pub column-BandSolves :
    (b : Banding128) (j : ℕ)
    → IsMatrix b.coeff_rows b.result_rows
    → BandSolves b j (column b.coeff_rows b.result_rows j)
unfolding column
column-BandSolves b j m =
    solution-Solves w128 (length b.coeff_rows) (coef b.coeff_rows) (omega arith) m.echelon
      (rhs b.result_rows j) (λ i. false) (λ i e. rhs_empty b.coeff_rows b.result_rows j i m e)

pub back_substitute-IsWord : (r : ℕ) (b : Banding128) → All (IsWord w128) (back_substitute r b)
unfolding back_substitute
back_substitute-IsWord r b =
    blocks_loop-IsWord w128 (coef b.coeff_rows) (λ i. get_or b.result_rows i 0) (omega arith) r
      (length b.coeff_rows / w128) (replicate r 0) _
      (zeros-IsWord w128 (coef b.coeff_rows) (λ i. 0) (omega arith) r)
      (zeros-IsWord w128 (coef b.coeff_rows) (λ i. 0) (omega arith) _)

-- Two solved matrices of one ordinal for the same keys have the same solution.
pub Solved-unique :
    (r blocks num_starts : ℕ) (keys : List ℕ) (b b' : Banding128)
    → blocks * 128 ≡ num_starts + 127
    → Solved num_starts keys b
    → Solved num_starts keys b'
    → b.ordinal_seed ≡ b'.ordinal_seed
    → into_solution r b ≡ into_solution r b'
unfolding into_solution
Solved-unique r blocks num_starts keys b b' whole s s' o = λ i. record {
  segments = same i;
  num_starts = (s.same_starts ∙ sym s'.same_starts) i;
  raw_seed = (s.seed ∙ ap ordinal_to_raw_seed o ∙ sym s'.seed) i;
  ordinal_seed = o i;
}
  where
    n : length b.coeff_rows ≡ length b'.coeff_rows
    n = s.shape.rows ∙ sym s'.shape.rows

    e : blocks * 128 ≡ length b.coeff_rows
    e = whole ∙ sym s.shape.rows

    e' : blocks * 128 ≡ length b'.coeff_rows
    e' = whole ∙ sym s'.shape.rows

    columns :
        (j i : ℕ) → column b.coeff_rows b.result_rows j i ≡ column b'.coeff_rows b'.result_rows j i
    columns j i =
        unfold column in
        (rw n (
          solution_unique w128 (length b'.coeff_rows) (omega arith) (coef b.coeff_rows)
            (coef b'.coeff_rows) (rhs b.result_rows j) (rhs b'.result_rows j)
            (rw n at s.matrix.echelon) s'.matrix.echelon
            (λ k f. rhs_empty b.coeff_rows b.result_rows j k s.matrix f)
            (λ k f. rhs_empty b'.coeff_rows b'.result_rows j k s'.matrix f)
            (λ x q. s'.only j x (rw o at (s.accepts j x q)))
            (λ x q. s.only j x (rw o (s'.accepts j x q))) (λ i. false) i))

    same : back_substitute r b ≡ back_substitute r b'
    same =
        Stores-unique w128 r blocks _ _ (column b.coeff_rows b.result_rows)
          (column b'.coeff_rows b'.result_rows) (omega arith) (length-back_substitute r blocks b e)
          (length-back_substitute r blocks b' e') (back_substitute-IsWord r b)
          (back_substitute-IsWord r b') (back_substitute-Stores r blocks b e s.matrix)
          (back_substitute-Stores r blocks b' e' s'.matrix) columns
