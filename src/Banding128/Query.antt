-- ===== src/Banding128/Query.antt =====
-- `Solution128::contains` of src/banding128.rs, on stored columns.
use native.Mathlib.Decide.{ℕ_discrete}
use pleat.Common.{
  ℕ, zero, suc, ◌+◌, ◌*◌, ◌/◌, ◌%◌, ◌^◌, ◌≤◌, ◌<◌, ◌==◌, ◌≡◌, refl, sym, ap, ap₂, ◌∙◌, arith, Bool,
  not, ◌&&◌, ◌⊕◌, ◌≢◌, if◌then◌else◌, List, length, get_or, get_elem?-eq-get_or, slice-done,
  length-slice, get_or-slice, take, drop, bit_and, bit_or, bit_xor, done,
}
use pleat.Word.{shr, cast, count_ones}
use pleat.Word.Bits.{bit, odd, bit_and-one, bit-bit_xor}
use pleat.Word.Shift.{bit-shr, bit-mod}
use pleat.Word.Parity.{dot, from, parity_ext, parity-add, parity-xor, odd-count_ones}
use pleat.Word.Column.{Holds}
use pleat.Word.Window.{window, window_aligned, window_split}
use pleat.Hash.{ribbon_hash, start, coeff_row_128, result_row}
use pleat.Hash.Bounds.{ribbon_hash-lt, start-lt, coeff_row_128-lt}
use pleat.Interleaved.Stores.{Stores, block-le}
use pleat.Interleaved.Agree.{none_from}
use pleat.Banding128.{Solution128, w128, parity_128, columns_loop, contains}

-- The two halves of a word of 128 bits, folded, have the parity of the word.
fold_halves :
    (x : ℕ)
    → odd (count_ones 64 (bit_xor (cast 64 x) (cast 64 (shr x 64)))) ≡ odd (count_ones 128 x)
fold_halves x =
    odd-count_ones 64 (bit_xor (cast 64 x) (cast 64 (shr x 64)))
    ∙ parity_ext 64 _ _ (λ b p. bit-bit_xor b (cast 64 x) (cast 64 (shr x 64)))
    ∙ parity-xor 64 (λ b. bit b (cast 64 x)) (λ b. bit b (cast 64 (shr x 64)))
    ∙ ap₂ ◌⊕◌ (parity_ext 64 _ _ (λ b p. bit-mod 64 b x p))
        (parity_ext 64 _ _ (λ b p. bit-mod 64 b (shr x 64) p ∙ bit-shr 64 b (64 + b) x refl))
    ∙ sym (parity-add 64 64 128 (λ b. bit b x) (omega arith))
    ∙ sym (odd-count_ones 128 x)

odd-shr : (j x : ℕ) → odd (shr x j) ≡ bit j x
odd-shr j x = unfold bit in (bit-shr j 0 j x (omega arith))

low_bits_agree : (c d : ℕ) → (bit_and c 1 == bit_and d 1) ≡ not (odd c ⊕ odd d)
low_bits_agree c d = unfold odd in rw (bit_and-one c, bit_and-one d) (ground arith)

parity_128-bit :
    (x expected i : ℕ)
    → (parity_128 x == bit_and (shr expected i) 1) ≡ not (odd (count_ones 128 x) ⊕ bit i expected)
parity_128-bit x expected i =
    low_bits_agree (count_ones 64 (bit_xor (cast 64 x) (cast 64 (shr x 64)))) (shr expected i)
    ∙ ap₂ (λ s t. not (s ⊕ t)) (fold_halves x) (odd-shr i expected)

columns_loop-none_from :
    (lo hi : List ℕ) (left right expected : ℕ) (fails_at : ℕ → Bool) (i n r : ℕ)
    → i + n ≡ r
    → length lo ≡ r
    → length hi ≡ r
    → ((j : ℕ)
        → j < r
        → (odd (
              count_ones 128
                (bit_or (bit_and (get_or lo j 0) left) (bit_and (get_or hi j 0) right)))
            ⊕ bit j expected)
          ≡ fails_at j)
    → columns_loop lo hi left right expected i n ≡ done (none_from fails_at i n)
unfolding columns_loop none_from
columns_loop-none_from lo hi left right expected fails_at i zero r e p q h = refl
columns_loop-none_from lo hi left right expected fails_at i (suc n) r e p q h =
    let soln : ℕ = bit_or (bit_and (get_or lo i 0) left) (bit_and (get_or hi i 0) right) in
    rw (get_elem?-eq-get_or lo i 0 (omega arith), get_elem?-eq-get_or hi i 0 (omega arith))
      (rw
        (
          parity_128-bit soln expected i,
          h i (omega arith),
          columns_loop-none_from lo hi left right expected fails_at (suc i) n r (omega arith) p q h,
        )
        (ground arith))

-- The segments of a solution for `r` columns, with the values `x j` in column `j`: a whole number of
-- blocks that covers each row which begins at a start.
pub record IsSolution (r : ℕ) (s : Solution128) (x : ℕ → ℕ → Bool) : Type 0 where
  pub blocks : ℕ
  pub starts : 0 < s.num_starts
  pub starts_u64 : s.num_starts < 2 ^ 64
  pub slots : s.num_starts + 127 ≡ blocks * 128
  pub words : length s.segments ≡ blocks * r
  pub stores : Stores w128 r blocks s.segments x

-- Whether column `j` differs from bit `j` of the result row of a key.
abbrev pub fails : Solution128 → (ℕ → ℕ → Bool) → ℕ → ℕ → Bool
fails s x key j =
    let h = ribbon_hash key s.raw_seed in
    dot w128 (coeff_row_128 h) (from (start h s.num_starts) (x j)) ⊕ bit j (result_row h)

module _ (r : ℕ) (s : Solution128) (x : ℕ → ℕ → Bool) (v : IsSolution r s x) where
  -- The parity that a query finds in column `j`, for a row `cr` that begins at slot `st`.
  window-dot :
      (cr st j : ℕ)
      → cr < 2 ^ 128
      → st < s.num_starts
      → j < r
      → odd (
          count_ones w128 (
            window w128
              (get_or s.segments (st / w128 * r + j) 0)
              (get_or s.segments (st / w128 * r + (if st % w128 == 0 then 0 else r) + j) 0)
              cr
              (st % w128)))
        ≡ dot w128 cr (from st (x j))
  window-dot cr st j word lt jr = elim (ℕ_discrete (st % w128) 0) [
    | yes e ↦
        window_aligned w128 (get_or s.segments (st / w128 * r + j) 0) _ cr (st % w128) word y lower
          (omega arith) e (ap (λ (i : ℕ). get_or s.segments i 0) (ground arith))
        ∙ moved
    | no ne ↦
        window_split w128 (get_or s.segments (st / w128 * r + j) 0) _ cr (st % w128) word y lower
          (omega arith) (omega arith) (upper ne)
        ∙ moved
  ]
    where
      y : ℕ → Bool
      y = from (st / w128 * w128) (x j)

      lower : Holds w128 (get_or s.segments (st / w128 * r + j) 0) y
      lower b p = v.stores (st / w128) j b (omega arith) (omega (arith, v.slots)) jr p

      upper :
          st % w128 ≢ 0
          → Holds w128
              (get_or s.segments (st / w128 * r + (if st % w128 == 0 then 0 else r) + j) 0)
              (from w128 y)
      upper ne b p =
          ap (λ (i : ℕ). bit b (get_or s.segments i 0)) (ground arith)
          ∙ v.stores (st / w128 + 1) j b (omega arith) (omega (arith, v.slots)) jr p
          ∙ ap (x j) (omega arith)

      moved : dot w128 cr (from (st % w128) y) ≡ dot w128 cr (from st (x j))
      moved = parity_ext w128 _ _ (λ b p. ap (λ t. bit b cr && t) (ap (x j) (omega arith)))

  -- The words that a query reads are there.
  low_words : (st : ℕ) → st < s.num_starts → st / w128 * r + r ≤ length s.segments
  low_words st lt = omega (arith, v.words, block-le (st / w128) v.blocks r (omega (arith, v.slots)))

  high_words :
      (st : ℕ)
      → st < s.num_starts
      → st / w128 * r + (if st % w128 == 0 then 0 else r) + r ≤ length s.segments
  high_words st lt = elim (ℕ_discrete (st % w128) 0) [
    | yes e ↦ ground (arith, low_words st lt)
    | no ne ↦ ground (arith, v.words, block-le (st / w128 + 1) v.blocks r (omega (arith, v.slots)))
  ]

  -- On a standard solution that stores the values of its columns, a query does not panic, and it
  -- answers `true` exactly if the key's row, applied to the values of each column from the key's
  -- start on, is that column's bit of the key's result row.
  pub contains-none_from_128 : (key : ℕ) → contains r s key ≡ done (none_from (fails s x key) 0 r)
  unfolding contains
  contains-none_from_128 key =
      let h : ℕ = ribbon_hash key s.raw_seed in
      let st : ℕ = start h s.num_starts in
      let lo : ℕ = st / w128 * r in
      let hi : ℕ = st / w128 * r + (if st % w128 == 0 then 0 else r) in
      let lt : st < s.num_starts =
        start-lt h s.num_starts (ribbon_hash-lt key s.raw_seed) v.starts v.starts_u64 in
      let low : lo + r ≤ length s.segments = low_words st lt in
      let high : hi + r ≤ length s.segments = high_words st lt in
      rw (slice-done s.segments lo r low, slice-done s.segments hi r high)
        (columns_loop-none_from (take r (drop lo s.segments)) (take r (drop hi s.segments)) _ _
          (result_row h) (fails s x key) 0 r r (omega arith) (length-slice s.segments lo r low)
          (length-slice s.segments hi r high)
          (λ j p.
            rw (get_or-slice s.segments lo r j 0 p, get_or-slice s.segments hi r j 0 p)
              (ap (λ t. t ⊕ bit j (result_row h))
                (window-dot (coeff_row_128 h) st j (coeff_row_128-lt h) lt p))))
