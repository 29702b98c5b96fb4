-- ===== src/Interleaved/Stores.antt =====
-- The words that back-substitution stores, against the values that `fill` computes slot by slot.
use pleat.Common.{
  ℕ, zero, suc, ◌+◌, ◌-◌, ◌*◌, ◌≤◌, ◌<◌, ◌≡◌, refl, ap, ◌∙◌, arith, Bool, inr, get_or-replicate,
  List, [], ◌∷◌, length, get_or, replicate, length-replicate, copy_from_slice,
  length-copy_from_slice, copy_from_slice_inside, copy_from_slice_outside,
}
use native.Mathlib.Decide.{ℕ_discrete}
use pleat.Word.Bits.{bit, bit-zero}
use pleat.Word.Column.{Holds, column_word-Holds}
use pleat.System.Fill.{fill, solution, fill-solution}
use pleat.Interleaved.{column_step, row_step, rows_loop, blocks_loop}

-- The words of the columns `0 .. r` hold the values `f j`.
abbrev pub Columns : ℕ → ℕ → List ℕ → (ℕ → ℕ → Bool) → Type 0
Columns w r state f = (length state ≡ r) × ((j : ℕ) → j < r → Holds w (get_or state j 0) (f j))

-- From block `lo` up to `blocks`, word `blk * r + j` holds the values of column `j` at the slots of
-- block `blk`.
abbrev pub StoresFrom : ℕ → ℕ → ℕ → ℕ → List ℕ → (ℕ → ℕ → Bool) → Type 0
StoresFrom w r lo blocks segments x =
    (blk j b : ℕ)
    → lo ≤ blk
    → blk < blocks
    → j < r
    → b < w
    → bit b (get_or segments (blk * r + j) 0) ≡ x j (blk * w + b)

abbrev pub Stores : ℕ → ℕ → ℕ → List ℕ → (ℕ → ℕ → Bool) → Type 0
Stores w r blocks segments x = StoresFrom w r 0 blocks segments x

-- The place of a word in the interleaved layout.
pub index-lt : (blk blocks r j : ℕ) → blk < blocks → j < r → blk * r + j < blocks * r
index-lt blk blocks r j p q = grind arith

pub block-le : (blk blocks r : ℕ) → blk < blocks → blk * r + r ≤ blocks * r
block-le blk blocks r p = grind arith

index_apart : (blk block r j : ℕ) → block < blk → block * r + r ≤ blk * r + j
index_apart blk block r j p = grind arith

module _ (w : ℕ) (cr_at rr_at : ℕ → ℕ) where
  length-row_step :
      (cr rr j : ℕ) (state : List ℕ) → length (row_step w cr_at rr_at cr rr j state) ≡ length state
  unfolding row_step
  length-row_step cr rr j [] = refl
  length-row_step cr rr j (s ∷ state) = ap suc (length-row_step cr rr (suc j) state)

  get_or-row_step :
      (cr rr j k i : ℕ) (state : List ℕ)
      → i < length state
      → j + i ≡ k
      → get_or (row_step w cr_at rr_at cr rr j state) i 0
        ≡ column_step w cr_at rr_at cr rr k (get_or state i 0)
  unfolding row_step
  get_or-row_step cr rr j k i [] p e = absurd (omega arith)
  get_or-row_step cr rr j k zero (s ∷ state) p e =
      ap (λ (m : ℕ). column_step w cr_at rr_at cr rr m s) (omega arith)
  get_or-row_step cr rr j k (suc i) (s ∷ state) p e =
      get_or-row_step cr rr (suc j) k i state (omega arith) (omega arith)

  module _ (n r : ℕ) where
    -- The value given to slot `i` in column `j`, and the values from slot `n - k` up.
    abbrev pub val : ℕ → ℕ → Bool
    val j i = bit j (rr_at i)

    abbrev values : ℕ → ℕ → ℕ → Bool
    values k j = fill w n cr_at (val j) k

    row_step-Columns :
        (i k : ℕ) (state : List ℕ)
        → i + suc k ≡ n
        → Columns w r state (values k)
        → Columns w r (row_step w cr_at rr_at (cr_at i) (rr_at i) 0 state) (values (suc k))
    unfolding column_step fill
    row_step-Columns i k state e (len, h) = (
      length-row_step (cr_at i) (rr_at i) 0 state ∙ len,
      λ j p b q.
          let f : n - suc k ≡ i = omega arith in
          rw (get_or-row_step (cr_at i) (rr_at i) 0 j j state (omega arith) (omega arith), f)
            (column_word-Holds w (cr_at i) (rr_at i) j (get_or state j 0) (values k j) (h j p) b q),
    )

    rows_loop-Columns :
        (start_slot m k k' : ℕ) (state : List ℕ)
        → start_slot + m + k ≡ n
        → start_slot + k' ≡ n
        → Columns w r state (values k)
        → Columns w r (rows_loop w cr_at rr_at start_slot m state) (values k')
    unfolding rows_loop
    rows_loop-Columns start_slot zero k k' state e e' c = let f : k' ≡ k = omega arith in rw f c
    rows_loop-Columns start_slot (suc m) k k' state e e' c =
        rows_loop-Columns start_slot m (suc k) k' _ (omega arith) e'
          (row_step-Columns (start_slot + m) k state (omega arith) c)

    -- The values of column `j`, slot by slot.
    abbrev pub column : ℕ → ℕ → Bool
    column j = solution w n cr_at (val j)

    blocks_loop-StoresFrom :
        (blocks m k : ℕ) (state out : List ℕ)
        → m * w + k ≡ n
        → m ≤ blocks
        → length out ≡ blocks * r
        → Columns w r state (values k)
        → StoresFrom w r m blocks out column
        → Stores w r blocks (blocks_loop w cr_at rr_at r m state out) column
    unfolding blocks_loop
    blocks_loop-StoresFrom blocks zero k state out e le len c s = s
    blocks_loop-StoresFrom blocks (suc m) k state out e le len c s =
        blocks_loop-StoresFrom blocks m (w + k) state' (copy_from_slice out (m * r) state')
          (omega arith) (omega arith) (length-copy_from_slice out (m * r) state' ∙ len) c' stored
      where
        state' : List ℕ
        state' = rows_loop w cr_at rr_at (m * w) w state

        c' : Columns w r state' (values (w + k))
        c' = rows_loop-Columns (m * w) w k (w + k) state (omega arith) (omega arith) c

        stored : StoresFrom w r m blocks (copy_from_slice out (m * r) state') column
        stored blk j b p q jr bw = elim (ℕ_discrete m blk) [
          | yes f ↦
              let here : get_or (copy_from_slice out (m * r) state') (blk * r + j) 0
                  ≡ get_or state' j 0 =
                copy_from_slice_inside out (m * r) state' j (blk * r + j) 0
                  (ap (λ (i : ℕ). i * r + j) f) (omega (arith, c'.0))
                  (omega (arith, index-lt blk blocks r j q jr)) in
              rw here (
                c'.1 j jr b bw
                ∙ fill-solution w n cr_at (val j) (m * w) (w + k) b (omega arith)
                ∙ ap (λ (i : ℕ). column j (i * w + b)) f)
          | no ne ↦
              rw
                (copy_from_slice_outside out (m * r) state' (blk * r + j) 0
                  (inr (omega (arith, c'.0, index_apart blk m r j (omega arith)))))
                (s blk j b (omega arith) q jr bw)
        ]

    -- From zeroed columns, over a whole number of blocks.
    pub blocks_loop-Stores :
        (blocks : ℕ)
        → blocks * w ≡ n
        → Stores w r blocks
            (blocks_loop w cr_at rr_at r blocks (replicate r 0) (replicate (blocks * r) 0))
            column
    blocks_loop-Stores blocks e =
        blocks_loop-StoresFrom blocks blocks 0 (replicate r 0) (replicate (blocks * r) 0)
          (omega arith) (omega arith) (length-replicate (blocks * r) 0)
          (
            length-replicate r 0,
            λ j p b q. unfold fill in rw (get_or-replicate {A = ℕ} r j 0) (bit-zero b),
          )
          (λ blk j b lo q. absurd (omega arith))

  pub length-blocks_loop :
      (r m : ℕ) (state out : List ℕ) → length (blocks_loop w cr_at rr_at r m state out) ≡ length out
  unfolding blocks_loop
  length-blocks_loop r zero state out = refl
  length-blocks_loop r (suc m) state out =
      length-blocks_loop r m _ _ ∙ length-copy_from_slice out (m * r) _
