-- ===== src/Filter/Parallel/Slices.antt =====
-- `band_slice` of src/filter/parallel.rs, against the whole matrix.
use native.Mathlib.Decide.{ℕ_discrete, dec_lt}
use mathlib.Core.List.{Perm, perm_middle}
use mathlib.Core.List.Perm
use pleat.Common.{
  ℕ, zero, suc, ◌+◌, ◌-◌, ◌≤◌, ◌<◌, ◌≡◌, refl, sym, ap, subst, ◌∙◌, arith, leb, List, [], ◌∷◌, ◌++◌,
  true, false, length, length-set, get_elem?, get_or, get_elem?-eq-get_or, set, All, bit_xor,
  Option, some, none, done,
}
use pleat.Word.{shr, trailing_zeros}
use pleat.Hash.{ribbon_hash, start, coeff_row}
use pleat.Hash.Bounds.{ribbon_hash-lt}
use pleat.System.{IsRow, IsEchelon}
use pleat.System.Reduce.{reduce_later, reduce-IsRow}
use pleat.Filter.Parallel.Whole.{whole, get_or-whole, set-whole}
use pleat.Banding.{Banding, w}
use pleat.Banding.Add.{coef, Adds, set-Adds, same-Adds, reduced-Adds, coef-IsRow}
use pleat.Banding.Build.{IsBand, Extends, Extends-refl, Extends-trans, Adds-Extends, key-IsRow}
use pleat.Filter.Parallel.Ribbon.{slice_loop, settle, band_slice}

module _ (pre post : List ℕ) where
  -- Where the inner loop ends in rows, they are the slice's, and the row is added to the matrix.
  Lands : List ℕ → ℕ → ℕ → Option (List ℕ) → Type 0
  Lands rows i c none = Unit
  Lands rows i c (some rows') =
      Adds (whole pre post rows) i c (whole pre post rows') × (length rows' ≡ length rows)

  module _ (rows : List ℕ)
      (ech : IsEchelon w (length (whole pre post rows)) (coef (whole pre post rows))) where
    reduced-Lands :
        (i c : ℕ) (out : Option (List ℕ))
        → IsRow w (length (whole pre post rows)) i c
        → IsRow w (length (whole pre post rows)) i (coef (whole pre post rows) i)
        → let t = trailing_zeros w (bit_xor c (coef (whole pre post rows) i)) in
          Lands rows (i + t) (shr (bit_xor c (coef (whole pre post rows) i)) t) out
          → Lands rows i c out
    unfolding Lands
    reduced-Lands i c none r d l = tt
    reduced-Lands i c (some rows') r d l = (reduced-Adds (whole pre post rows) ech i c r d l.0, l.1)

    -- The loop ends, without a panic, and lands.
    slice_loop-Lands :
        (fuel i c : ℕ)
        → IsRow w (length (whole pre post rows)) (length pre + i) c
        → 0 < fuel
        → length rows < i + fuel
        → (out : Option (List ℕ)) × (slice_loop fuel rows i c ≡ done out)
          × Lands rows (length pre + i) c out
    unfolding slice_loop Lands
    slice_loop-Lands zero i c r f p = absurd (omega arith)
    slice_loop-Lands (suc fuel) i c r f p = elim (dec_lt i (length rows)) [
      | no past ↦ let out : leb (length rows) i ≡ true = ground arith in (none, rw out refl, tt)
      | yes q ↦
          let inside : leb (length rows) i ≡ false = ground arith in
          let here : coef (whole pre post rows) (length pre + i) ≡ get_or rows i 0 =
            get_or-whole pre post rows i q in
          let found : get_elem? rows i ≡ some (coef (whole pre post rows) (length pre + i)) =
            get_elem?-eq-get_or rows i 0 q ∙ ap some (sym here) in
          elim (ℕ_discrete (coef (whole pre post rows) (length pre + i)) 0) [
            | yes e ↦ (
              some (set rows i c),
              rw (inside, found) (ground arith),
              (
                subst (Adds (whole pre post rows) (length pre + i) c)
                    (set-whole pre post rows i c q)
                    (set-Adds (whole pre post rows) ech (length pre + i) c r e),
                length-set rows i c,
              ),
            )
            | no ne ↦
                elim (ℕ_discrete (bit_xor c (coef (whole pre post rows) (length pre + i))) 0) [
                  | yes e ↦ (
                    some rows,
                    rw (inside, found) (ground arith),
                    (same-Adds (whole pre post rows) ech (length pre + i) c r e, refl),
                  )
                  | no nz ↦
                      let d : IsRow w (length (whole pre post rows)) (length pre + i)
                          (coef (whole pre post rows) (length pre + i)) =
                        coef-IsRow (whole pre post rows) ech (length pre + i) ne in
                      let sum : ℕ = bit_xor c (coef (whole pre post rows) (length pre + i)) in
                      let t : ℕ = trailing_zeros w sum in
                      let next : length pre + i + t ≡ length pre + (i + t) = omega arith in
                      let row : IsRow w (length (whole pre post rows)) (length pre + (i + t))
                          (shr sum t) =
                        subst (λ (k : ℕ). IsRow w (length (whole pre post rows)) k (shr sum t)) next
                          (reduce-IsRow r d nz) in
                      let (out, run, l) =
                        slice_loop-Lands fuel (i + t) (shr sum t) row (omega arith)
                          (omega (arith, reduce_later r d nz)) in
                      (
                        out,
                        rw (inside, found) (ground (arith, run)),
                        reduced-Lands (length pre + i) c out r d
                            (subst (λ (k : ℕ). Lands rows k (shr sum t) out) (sym next) l),
                      )
                ]
          ]
    ]

-- A matrix with the rows of the slice in place.
abbrev pub with_rows : Banding → List ℕ → List ℕ → List ℕ → Banding
with_rows b pre rows post = record b { coeff_rows = pre ++ (rows ++ post) }

-- What a thread ends in: rows of the same length, with which the keys it kept are added to the whole
-- matrix, and the spilled keys, which with the kept ones are its keys.
pub record Sliced (b : Banding) (pre rows post keys : List ℕ) (out : List ℕ × List ℕ) : Type 0 where
  pub kept_keys : List ℕ
  pub added : Extends (with_rows b pre rows post) kept_keys (with_rows b pre out.0 post)
  pub same_length : length out.0 ≡ length rows
  pub all_keys : Perm (kept_keys ++ out.1) keys

Sliced-cons :
    (b : Banding) (pre rows post keys : List ℕ) (k : ℕ) (found : Option (List ℕ))
    (out : List ℕ × List ℕ)
    → IsBand (with_rows b pre rows post)
    → (let h = ribbon_hash k b.raw_seed in
        Lands pre post rows (start h b.num_starts) (coeff_row h) found)
    → (let settled = settle k rows found in
        Sliced b pre settled.0 post keys out
        → Sliced b pre rows post (k ∷ keys) (out.0, settled.1 ++ out.1))
unfolding Lands settle
Sliced-cons b pre rows post keys k none out v l s = record {
  kept_keys = s.kept_keys;
  added = s.added;
  same_length = s.same_length;
  all_keys = Perm.trans (perm_middle s.kept_keys out.1) (Perm.cons k s.all_keys);
}
Sliced-cons b pre rows post keys k (some rows') out v (a, len) s = record {
  kept_keys = k ∷ s.kept_keys;
  added =
      Extends-trans (with_rows b pre rows post) (with_rows b pre rows' post)
        (with_rows b pre out.0 post) (k ∷ []) s.kept_keys
        (Adds-Extends (with_rows b pre rows post) k (pre ++ (rows' ++ post)) v a) s.added;
  same_length = s.same_length ∙ len;
  all_keys = Perm.cons k s.all_keys;
}

settled-IsBand :
    (b : Banding) (pre rows post : List ℕ) (k : ℕ) (found : Option (List ℕ))
    → IsBand (with_rows b pre rows post)
    → (let h = ribbon_hash k b.raw_seed in
        Lands pre post rows (start h b.num_starts) (coeff_row h) found)
    → IsBand (with_rows b pre (settle k rows found).0 post)
unfolding Lands settle
settled-IsBand b pre rows post k none v l = v
settled-IsBand b pre rows post k (some rows') v (a, len) =
    let e : Extends (with_rows b pre rows post) (k ∷ []) (with_rows b pre rows' post) =
      Adds-Extends (with_rows b pre rows post) k (pre ++ (rows' ++ post)) v a in
    e.band

-- On a slice of a well-formed homogeneous matrix, for keys whose starts are not below the slice,
-- `band_slice` returns without a panic and within the fuel. The slice keeps its length, the
-- spilled keys and the others together are a permutation of the keys, and with the new slice in
-- place the whole matrix is well formed and is solved by exactly those solutions of the old one
-- that solve the equations of the keys that were not spilled.
pub band_slice-Sliced :
    (b : Banding) (pre rows post keys : List ℕ)
    → IsBand (with_rows b pre rows post)
    → All (λ k. length pre ≤ start (ribbon_hash k b.raw_seed) b.num_starts) keys
    → (out : List ℕ × List ℕ) × (band_slice rows (length pre) b.num_starts b.raw_seed keys
        ≡ done out)
      × Sliced b pre rows post keys out
unfolding band_slice
band_slice-Sliced b pre rows post [] v above = (
  (rows, []),
  refl,
  record {
    kept_keys = [];
    added = Extends-refl (with_rows b pre rows post) v;
    same_length = refl;
    all_keys = Perm.refl [];
  },
)
band_slice-Sliced b pre rows post (k ∷ keys) v above =
    let h : ℕ = ribbon_hash k b.raw_seed in
    let st : ℕ = start h b.num_starts in
    let over : leb (length pre) st ≡ true = ground (arith, above.0) in
    let place : st ≡ length pre + (st - length pre) = omega (arith, above.0) in
    let row : IsRow w (length (pre ++ (rows ++ post))) st (coeff_row h) =
      key-IsRow h b.num_starts (length (pre ++ (rows ++ post))) (ribbon_hash-lt k b.raw_seed)
        v.starts v.starts_u64 v.slots in
    let (found, run, l) =
      slice_loop-Lands pre post rows v.echelon (suc (length rows)) (st - length pre) (coeff_row h)
        (subst (λ (i : ℕ). IsRow w (length (pre ++ (rows ++ post))) i (coeff_row h)) place row)
        (omega arith) (omega arith) in
    let landed : Lands pre post rows st (coeff_row h) found =
      subst (λ (i : ℕ). Lands pre post rows i (coeff_row h) found) (sym place) l in
    let (out, run', s) =
      band_slice-Sliced b pre (settle k rows found).0 post keys
        (settled-IsBand b pre rows post k found v landed) above.1 in
    (
      (out.0, (settle k rows found).1 ++ out.1),
      rw (over, run, run'),
      Sliced-cons b pre rows post keys k found out v landed s,
    )
