-- ===== src/Filter/Parallel/StdRibbon/Land.antt =====
-- The inner loop of `band_range_128` of src/banding128.rs on the slices of a thread, against the
-- whole matrix.
use native.Mathlib.Decide.{ℕ_discrete, dec_lt}
use pleat.Common.{
  ℕ, zero, suc, ◌+◌, ◌^◌, ◌<◌, ◌≡◌, refl, sym, ap, subst, ◌∙◌, arith, leb, List, true, false,
  length, length-set, get_elem?, get_or, get_elem?-eq-get_or, set, bit_xor, some, done,
}
use pleat.Word.{shr, trailing_zeros}
use pleat.Word.Bits.{bit_xor-lt}
use pleat.System.{IsRow}
use pleat.System.Reduce.{reduce_later, reduce-IsRow}
use pleat.Banding128.{w128}
use pleat.Banding128.Add.{
  coef, IsMatrix, Adds, Clash, set-Adds, same-Adds, same-Clash, result-lt, reduced-Adds,
  reduced-Clash, coef-IsRow,
}
use pleat.Filter.Parallel.Whole.{whole, get_or-whole, set-whole}
use pleat.Filter.Parallel.StdRibbon.{Landing, banded, spilled, inconsistent, range_loop}

-- The rows and the result rows beside the slices.
module _ (pre post left right : List ℕ) (lined : length left ≡ length pre) where
  -- Where the inner loop ends in rows, they are the slices', and the row is added to the matrix;
  -- an inconsistent row clashes with the matrix.
  unfoldable pub Lands : List ℕ → List ℕ → ℕ → ℕ → ℕ → Landing → Type 0
  Lands rows results i c r (banded rows' results') =
      Adds (whole pre post rows) (whole left right results) i c r (whole pre post rows')
        (whole left right results')
      × (length rows' ≡ length rows)
      × (length results' ≡ length results)
  Lands rows results i c r spilled = Unit
  Lands rows results i c r inconsistent =
      Clash (whole pre post rows) (whole left right results) i c r

  module _ (rows results : List ℕ) (same : length results ≡ length rows)
      (m : IsMatrix (whole pre post rows) (whole left right results)) where
    abbrev coefs : List ℕ
    coefs = whole pre post rows

    abbrev rights : List ℕ
    rights = whole left right results

    reduced-Lands :
        (i c r : ℕ) (out : Landing)
        → IsRow w128 (length coefs) i c
        → IsRow w128 (length coefs) i (coef coefs i)
        → let sum = bit_xor c (coef coefs i) in
          let t = trailing_zeros w128 sum in
          Lands rows results (i + t) (shr sum t) (bit_xor r (get_or rights i 0)) out
          → Lands rows results i c r out
    unfolding Lands
    reduced-Lands i c r (banded rows' results') row old l =
        (reduced-Adds coefs rights m i c r row old l.0, l.1, l.2)
    reduced-Lands i c r spilled row old l = tt
    reduced-Lands i c r inconsistent row old l = reduced-Clash coefs rights m i c r row old l

    -- The loop ends, without a panic, and lands.
    pub range_loop-Lands :
        (fuel i c r : ℕ)
        → IsRow w128 (length coefs) (length pre + i) c
        → r < 2 ^ 32
        → 0 < fuel
        → length rows < i + fuel
        → (out : Landing) × (range_loop fuel rows results i c r ≡ done out)
          × Lands rows results (length pre + i) c r out
    unfolding range_loop Lands
    range_loop-Lands zero i c r row word f p = absurd (omega arith)
    range_loop-Lands (suc fuel) i c r row word f p = elim (dec_lt i (length rows)) [
      | no past ↦ let out : leb (length rows) i ≡ true = ground arith in (spilled, rw out refl, tt)
      | yes q ↦
          let j : ℕ = length pre + i in
          let inside : leb (length rows) i ≡ false = ground arith in
          let found : get_elem? rows i ≡ some (coef coefs j) =
            get_elem?-eq-get_or rows i 0 q ∙ ap some (sym (get_or-whole pre post rows i q)) in
          let found_result : get_elem? results i ≡ some (get_or rights j 0) =
            get_elem?-eq-get_or results i 0 (omega (arith, same))
            ∙ ap some (sym (get_or-whole left right results i (omega (arith, same))))
            ∙ ap (λ (k : ℕ). some (get_or rights (k + i) 0)) lined in
          let placed : set rights j r ≡ whole left right (set results i r) =
            ap (λ (k : ℕ). set rights (k + i) r) (sym lined)
            ∙ set-whole left right results i r (omega (arith, same)) in
          elim (ℕ_discrete (coef coefs j) 0) [
            | yes e ↦ (
              banded (set rows i c) (set results i r),
              rw (inside, found, found_result) (ground arith),
              (
                subst (λ xs. Adds coefs rights j c r xs (whole left right (set results i r)))
                    (set-whole pre post rows i c q)
                    (subst (Adds coefs rights j c r (set coefs j c)) placed
                      (set-Adds coefs rights m j c r row word e)),
                length-set rows i c,
                length-set results i r,
              ),
            )
            | no ne ↦ elim (ℕ_discrete (bit_xor c (coef coefs j)) 0) [
              | yes e ↦ elim (ℕ_discrete (bit_xor r (get_or rights j 0)) 0) [
                | yes g ↦ (
                  banded rows results,
                  rw (inside, found, found_result) (ground arith),
                  (same-Adds coefs rights m j c r e g, refl, refl),
                )
                | no ng ↦ (
                  inconsistent,
                  rw (inside, found, found_result) (ground arith),
                  same-Clash coefs rights m j c r word e ng,
                )
              ]
              | no nz ↦
                  let old : IsRow w128 (length coefs) j (coef coefs j) =
                    coef-IsRow coefs rights m j ne in
                  let sum : ℕ = bit_xor c (coef coefs j) in
                  let t : ℕ = trailing_zeros w128 sum in
                  let r' : ℕ = bit_xor r (get_or rights j 0) in
                  let next : j + t ≡ length pre + (i + t) = omega arith in
                  let row' : IsRow w128 (length coefs) (length pre + (i + t)) (shr sum t) =
                    subst (λ (k : ℕ). IsRow w128 (length coefs) k (shr sum t)) next
                      (reduce-IsRow row old nz) in
                  let (out, run, l) =
                    range_loop-Lands fuel (i + t) (shr sum t) r' row'
                      (bit_xor-lt 32 r (get_or rights j 0) word (result-lt coefs rights m j))
                      (omega arith) (omega (arith, reduce_later row old nz)) in
                  (
                    out,
                    rw (inside, found, found_result) (ground (arith, run)),
                    reduced-Lands j c r out row old
                        (subst (λ (k : ℕ). Lands rows results k (shr sum t) r' out) (sym next) l),
                  )
            ]
          ]
    ]
