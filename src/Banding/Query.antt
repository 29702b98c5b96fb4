-- ===== src/Banding/Query.antt =====
-- `Solution::contains` of src/banding.rs, on stored columns.
use native.Mathlib.Decide.{ℕ_discrete}
use pleat.Common.{
  ℕ, zero, suc, ◌+◌, ◌*◌, ◌/◌, ◌%◌, ◌^◌, ◌≤◌, ◌<◌, ◌==◌, ◌≡◌, refl, ap, ◌∙◌, arith, Bool, not, ◌&&◌,
  ◌≢◌, if◌then◌else◌, List, length, get_or, get_elem?-eq-get_or, bit_and, bit_or, done,
}
use pleat.Word.{count_ones}
use pleat.Word.Bits.{bit, odd, bit_and-one}
use pleat.Word.Parity.{dot, from, parity_ext}
use pleat.Word.Column.{Holds}
use pleat.Word.Window.{window, window_aligned, window_split}
use pleat.Hash.{ribbon_hash, start, coeff_row}
use pleat.Hash.Bounds.{ribbon_hash-lt, start-lt, coeff_row-lt}
use pleat.Interleaved.Stores.{Stores, block-le}
use pleat.Interleaved.Agree.{none_from}
use pleat.Banding.{Solution, w, columns_loop, contains}

even-and_one : (c : ℕ) → (bit_and c 1 == 0) ≡ not (odd c)
even-and_one c = unfold odd in rw (bit_and-one c) (ground arith)

-- The loop over the columns, from what it reads in each.
pub columns_loop-none_from :
    (segments : List ℕ) (lo hi left right : ℕ) (odd_at : ℕ → Bool) (i n r : ℕ)
    → i + n ≡ r
    → lo + r ≤ length segments
    → hi + r ≤ length segments
    → ((j : ℕ)
        → j < r
        → odd (
            count_ones w (
              bit_or
                (bit_and (get_or segments (lo + j) 0) left)
                (bit_and (get_or segments (hi + j) 0) right)))
          ≡ odd_at j)
    → columns_loop segments lo hi left right i n ≡ done (none_from odd_at i n)
unfolding columns_loop none_from
columns_loop-none_from segments lo hi left right odd_at i zero r e p q h = refl
columns_loop-none_from segments lo hi left right odd_at i (suc n) r e p q h =
    rw
      (
        get_elem?-eq-get_or segments (lo + i) 0 (omega arith),
        get_elem?-eq-get_or segments (hi + i) 0 (omega arith),
      )
      (ground (
        arith,
        even-and_one (
            count_ones w (
              bit_or (bit_and (get_or segments (lo + i) 0) left)
                (bit_and (get_or segments (hi + i) 0) right))),
        h i (omega arith),
        columns_loop-none_from segments lo hi left right odd_at (suc i) n r (omega arith) p q h,
      ))

-- The segments of a solution for `r` columns, with the values `x j` in column `j`: a whole number of
-- blocks that covers each row which begins at a start.
pub record IsSolution (r : ℕ) (s : Solution) (x : ℕ → ℕ → Bool) : Type 0 where
  pub blocks : ℕ
  pub starts : 0 < s.num_starts
  pub starts_u64 : s.num_starts < 2 ^ 64
  pub slots : s.num_starts + 63 ≡ blocks * 64
  pub words : length s.segments ≡ blocks * r
  pub stores : Stores w r blocks s.segments x

-- Whether column `j` fails the equation of a key.
abbrev pub fails : Solution → (ℕ → ℕ → Bool) → ℕ → ℕ → Bool
fails s x key j =
    let h = ribbon_hash key s.raw_seed in dot w (coeff_row h) (from (start h s.num_starts) (x j))

module _ (r : ℕ) (s : Solution) (x : ℕ → ℕ → Bool) (v : IsSolution r s x) where
  -- The parity that a query finds in column `j`, for a row `cr` that begins at slot `st`.
  window-dot :
      (cr st j : ℕ)
      → cr < 2 ^ 64
      → st < s.num_starts
      → j < r
      → odd (
          count_ones w (
            window w
              (get_or s.segments (st / w * r + j) 0)
              (get_or s.segments (st / w * r + (if st % w == 0 then 0 else r) + j) 0)
              cr
              (st % w)))
        ≡ dot w cr (from st (x j))
  window-dot cr st j word lt jr = elim (ℕ_discrete (st % w) 0) [
    | yes e ↦
        window_aligned w (get_or s.segments (st / w * r + j) 0) _ cr (st % w) word y lower
          (omega arith) e (ap (λ (i : ℕ). get_or s.segments i 0) (ground arith))
        ∙ moved
    | no ne ↦
        window_split w (get_or s.segments (st / w * r + j) 0) _ cr (st % w) word y lower
          (omega arith) (omega arith) (upper ne)
        ∙ moved
  ]
    where
      y : ℕ → Bool
      y = from (st / w * w) (x j)

      lower : Holds w (get_or s.segments (st / w * r + j) 0) y
      lower b p = v.stores (st / w) j b (omega arith) (omega (arith, v.slots)) jr p

      upper :
          st % w ≢ 0
          → Holds w
              (get_or s.segments (st / w * r + (if st % w == 0 then 0 else r) + j) 0)
              (from w y)
      upper ne b p =
          ap (λ (i : ℕ). bit b (get_or s.segments i 0)) (ground arith)
          ∙ v.stores (st / w + 1) j b (omega arith) (omega (arith, v.slots)) jr p
          ∙ ap (x j) (omega arith)

      moved : dot w cr (from (st % w) y) ≡ dot w cr (from st (x j))
      moved = parity_ext w _ _ (λ b p. ap (λ t. bit b cr && t) (ap (x j) (omega arith)))

  -- The words that a query reads are there.
  low_words : (st : ℕ) → st < s.num_starts → st / w * r + r ≤ length s.segments
  low_words st lt = omega (arith, v.words, block-le (st / w) v.blocks r (omega (arith, v.slots)))

  high_words :
      (st : ℕ)
      → st < s.num_starts
      → st / w * r + (if st % w == 0 then 0 else r) + r ≤ length s.segments
  high_words st lt = elim (ℕ_discrete (st % w) 0) [
    | yes e ↦ ground (arith, low_words st lt)
    | no ne ↦ ground (arith, v.words, block-le (st / w + 1) v.blocks r (omega (arith, v.slots)))
  ]

  -- On a homogeneous solution that stores the values of its columns, a query does not panic, and
  -- it answers `true` exactly if the key's row, applied to the values of each column from the
  -- key's start on, is zero.
  pub contains-none_from : (key : ℕ) → contains r s key ≡ done (none_from (fails s x key) 0 r)
  unfolding contains
  contains-none_from key =
      let h = ribbon_hash key s.raw_seed in
      let st = start h s.num_starts in
      let lt : st < s.num_starts =
        start-lt h s.num_starts (ribbon_hash-lt key s.raw_seed) v.starts v.starts_u64 in
      columns_loop-none_from s.segments (st / w * r) (st / w * r + (if st % w == 0 then 0 else r)) _
        _ (fails s x key) 0 r r (omega arith) (low_words st lt) (high_words st lt)
        (λ j p. window-dot (coeff_row h) st j (coeff_row-lt h) lt p)
