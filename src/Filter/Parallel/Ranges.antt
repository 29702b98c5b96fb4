-- ===== src/Filter/Parallel/Ranges.antt =====
-- The threads of src/filter/parallel.rs, each on its slice of the matrix: `split_at_mut` at the
-- bounds and `band_slice` on each slice.
use mathlib.Core.List.Perm
use pleat.Common.{
  ℕ, ◌+◌, ◌-◌, ◌≤◌, ◌≡◌, ◌↔◌, refl, sym, subst, ◌∙◌, arith, leb, List, [], ◌∷◌, ◌++◌, true, length,
  take, drop, length-take, length-append, take-append-drop, length-drop, append_assoc, All,
  All-append, append-All, All-perm, done,
}
use pleat.Banding.{Banding}
use pleat.Banding.Build.{IsBand, Extends, Extends-refl, Extends-trans}
use pleat.Filter.Parallel.{split_loop}
use pleat.Filter.Parallel.Bounds.{Rising, Rising-le}
use pleat.Filter.Parallel.Assign.{place, Placed}
use pleat.Filter.Parallel.Ribbon.{band_slice, band_slices}
use pleat.Filter.Parallel.Slices.{with_rows, Sliced, band_slice-Sliced}

module _ (b : Banding) where
  -- The matrix with these rows.
  abbrev pub of_rows : List ℕ → Banding
  of_rows rows = record b { coeff_rows = rows }

  -- What the threads with the ranges from the end of `pre` on end in: the rows of the slices and
  -- what is left, with which the keys that were kept are added to the matrix.
  pub record Banded (pre rest : List ℕ) (buckets : List (List ℕ))
      (slices : List (ℕ × List ℕ) × List ℕ) (out : List ℕ × List (List ℕ)) : Type 1 where
    pub kept_keys : List ℕ
    pub added : Extends (of_rows (pre ++ rest)) kept_keys (of_rows (pre ++ (out.0 ++ slices.1)))
    pub same_keys :
        (P : ℕ → Type 0)
        → ((k : ℕ) → IsProp (P k))
        → (All P kept_keys × All (All P) out.1) ↔ All (All P) buckets

  Banded-cons :
      (pre rows post keys : List ℕ) (buckets : List (List ℕ)) (x : ℕ)
      (slices : List (ℕ × List ℕ) × List ℕ) (here : List ℕ × List ℕ) (out : List ℕ × List (List ℕ))
      → Sliced b pre rows post keys here
      → Banded (pre ++ here.0) post buckets slices out
      → Banded pre
          (rows ++ post)
          (keys ∷ buckets)
          ((x, rows) ∷ slices.0, slices.1)
          (here.0 ++ out.0, here.1 ∷ out.1)
  Banded-cons pre rows post keys buckets x slices here out s t = record {
    kept_keys = s.kept_keys ++ t.kept_keys;
    added =
        Extends-trans (of_rows (pre ++ (rows ++ post))) (of_rows (pre ++ (here.0 ++ post)))
          (of_rows (pre ++ (here.0 ++ out.0 ++ slices.1))) s.kept_keys t.kept_keys s.added later;
    same_keys = λ P prop. (
      λ h.
          let (a, c) = append-All P s.kept_keys t.kept_keys h.0 in
          (
            All-perm P prop s.all_keys (All-append P s.kept_keys here.1 a h.1.0),
            (t.same_keys P prop).0 (c, h.1.1),
          ),
      λ h.
          let (a, c) =
            append-All P s.kept_keys here.1 (All-perm P prop (Perm.symm s.all_keys) h.0) in
          let (d, e) = (t.same_keys P prop).1 h.1 in
          (All-append P s.kept_keys t.kept_keys a d, (c, e)),
    );
  }
    where
      later :
          Extends
            (of_rows (pre ++ (here.0 ++ post)))
            t.kept_keys
            (of_rows (pre ++ (here.0 ++ out.0 ++ slices.1)))
      later =
          rw
            (
              append_assoc pre here.0 post,
              append_assoc pre here.0 (out.0 ++ slices.1),
              sym (append_assoc here.0 out.0 slices.1),
            )
            at t.added

  pub bands :
      (x : ℕ) (ys : List ℕ) (consumed : ℕ) (pre rest : List ℕ) (buckets : List (List ℕ))
      → IsBand (of_rows (pre ++ rest))
      → length pre ≡ x
      → length pre ≡ consumed
      → Rising x ys (length pre + length rest)
      → Placed b.num_starts b.raw_seed x ys buckets
      → (slices : List (ℕ × List ℕ) × List ℕ) × (split_loop x ys consumed rest ≡ done slices)
        × (out : List ℕ × List (List ℕ)) × (band_slices b.num_starts b.raw_seed slices.0 buckets
            ≡ done out)
        × Banded pre rest buckets slices out
  unfolding Rising Placed split_loop band_slices
  bands x [] consumed pre rest [] v e f up placed = (
    ([], rest),
    refl,
    ([], []),
    refl,
    record {
      kept_keys = [];
      added = Extends-refl (of_rows (pre ++ rest)) v;
      same_keys = λ P prop. (λ h. tt, λ h. (tt, tt));
    },
  )
  bands x [] consumed pre rest (bucket ∷ buckets) v e f up placed = absurd placed
  bands x (y ∷ ys) consumed pre rest [] v e f up placed = absurd placed
  bands x (y ∷ ys) consumed pre rest (bucket ∷ buckets) v e f up placed =
      let len : ℕ = y - x in
      let fits : y ≤ length pre + length rest = Rising-le y ys _ up.1 in
      let whole : take len rest ++ drop len rest ≡ rest = take-append-drop len rest in
      let rising : leb x y ≡ true = ground (arith, up.0) in
      let enough : leb len (length rest) ≡ true = ground arith in
      let v' : IsBand (with_rows b pre (take len rest) (drop len rest)) =
        subst (λ rows. IsBand (of_rows (pre ++ rows))) (sym whole) v in
      let (here, run, s) = band_slice-Sliced b pre (take len rest) (drop len rest) bucket v' (
        subst (λ (n : ℕ). All (λ k. n ≤ place b.num_starts b.raw_seed k) bucket) (sym e)
          placed.0) in
      let run' : band_slice (take len rest) consumed b.num_starts b.raw_seed bucket ≡ done here =
        subst (λ (n : ℕ). band_slice (take len rest) n b.num_starts b.raw_seed bucket ≡ done here) f
          run in
      let size : length here.0 ≡ len = s.same_length ∙ length-take len rest (omega arith) in
      let sizes : length (pre ++ here.0) ≡ length pre + length here.0 = length-append pre here.0 in
      let left : length (drop len rest) ≡ length rest - len = length-drop len rest in
      let (slices, cut, out, more, t) =
        bands y ys (consumed + len) (pre ++ here.0) (drop len rest) buckets
          (subst (λ rows. IsBand (of_rows rows)) (sym (append_assoc pre here.0 (drop len rest)))
            s.added.band)
          (omega arith) (omega arith) (subst (Rising y ys) (omega arith) up.1) placed.1 in
      (
        ((consumed, take len rest) ∷ slices.0, slices.1),
        rw (rising, enough, cut) refl,
        (here.0 ++ out.0, here.1 ∷ out.1),
        rw (run', more) refl,
        subst
            (λ rows.
              Banded pre rows (bucket ∷ buckets) ((consumed, take len rest) ∷ slices.0, slices.1)
                (here.0 ++ out.0, here.1 ∷ out.1))
            whole
            (Banded-cons pre (take len rest) (drop len rest) bucket buckets consumed slices here out
              s t),
      )
