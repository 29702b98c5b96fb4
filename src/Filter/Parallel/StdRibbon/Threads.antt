-- ===== src/Filter/Parallel/StdRibbon/Threads.antt =====
-- The threads of `build_std128_parallel` of src/banding128.rs, each on its slices of both vectors.
use pleat.Common.{
  ℕ, ◌+◌, ◌-◌, ◌≤◌, ◌≡◌, refl, sym, subst, ◌∙◌, arith, leb, List, [], ◌∷◌, ◌++◌, true, not, ◌&&◌,
  inl, length, take, drop, length-take, length-append, length-drop, take-append-drop, append_assoc,
  All, Option, some, none, done,
}
use pleat.Banding128.{Banding128}
use pleat.Banding128.Add.{IsMatrix}
use pleat.Banding128.Build.{HasShape}
use pleat.Banding128.While.{Extends-refl}
use pleat.Filter.Parallel.{split_loop}
use pleat.Filter.Parallel.Bounds.{Rising, Rising-le}
use pleat.Filter.Parallel.Assign.{place, Placed}
use pleat.Filter.Parallel.StdRibbon.{Ranged, band_range_128, band_ranges, any_none}
use pleat.Filter.Parallel.StdRibbon.Trial.{Keys, Trial, Trial-after, Trial-trans}
use pleat.Filter.Parallel.StdRibbon.Thread.{
  spill_of, is_some, with_rows, Ended, band_range_128-Ended,
}

-- The keys that the threads return.
unfoldable pub spills_of : List (Option (List ℕ)) → Keys
spills_of [] P = Unit
spills_of (o ∷ outs) P = spill_of o P × spills_of outs P

none_of-cons :
    (o : Option (List ℕ)) (outs : List (Option (List ℕ)))
    → (is_some o && not (any_none outs)) ≡ not (any_none (o ∷ outs))
unfolding is_some any_none
none_of-cons none outs = refl
none_of-cons (some keys) outs = refl

split_loop-cons :
    (x y : ℕ) (ys : List ℕ) (consumed : ℕ) (rest : List ℕ) (more : List (ℕ × List ℕ) × List ℕ)
    → x ≤ y
    → y - x ≤ length rest
    → split_loop y ys (consumed + (y - x)) (drop (y - x) rest) ≡ done more
    → split_loop x (y ∷ ys) consumed rest ≡ done ((consumed, take (y - x) rest) ∷ more.0, more.1)
unfolding split_loop
split_loop-cons x y ys consumed rest more p q run =
    let rising : leb x y ≡ true = ground arith in
    let enough : leb (y - x) (length rest) ≡ true = ground arith in rw (rising, enough, run) refl

band_ranges-cons :
    (num_starts raw base : ℕ) (coeff result : List ℕ) (coeffs results : List (ℕ × List ℕ))
    (bucket : List ℕ) (buckets : List (List ℕ)) (here : Ranged)
    (out : List ℕ × List ℕ × List (Option (List ℕ)))
    → band_range_128 coeff result base num_starts raw bucket ≡ done here
    → band_ranges num_starts raw coeffs results buckets ≡ done out
    → band_ranges num_starts raw
        ((base, coeff) ∷ coeffs)
        ((base, result) ∷ results)
        (bucket ∷ buckets)
      ≡ done (here.0 ++ out.0, here.1 ++ out.1, here.2 ∷ out.2)
unfolding band_ranges
band_ranges-cons num_starts raw base coeff result coeffs results bucket buckets here out run more =
    rw (run, more) refl

module _ (n : ℕ) (b : Banding128) where
  -- The matrix with these vectors.
  abbrev pub of_rows : List ℕ → List ℕ → Banding128
  of_rows rows results = record b { coeff_rows = rows; result_rows = results }

  Trial-cons :
      (pre rest left others : List ℕ) (rows post results right keys : List ℕ)
      (buckets : List (List ℕ)) (lined : length left ≡ length pre) (here : Ranged)
      (out : List ℕ × List ℕ × List (Option (List ℕ))) (last last_results : List ℕ)
      → rows ++ post ≡ rest
      → results ++ right ≡ others
      → Ended n b pre post left right lined rows results keys here
      → Trial n
          (of_rows (pre ++ here.0 ++ post) (left ++ here.1 ++ right))
          (λ P. All (All P) buckets)
          (spills_of out.2)
          (of_rows (pre ++ here.0 ++ (out.0 ++ last)) (left ++ here.1 ++ (out.1 ++ last_results)))
          (not (any_none out.2))
      → Trial n
          (of_rows (pre ++ rest) (left ++ others))
          (λ P. All (All P) (keys ∷ buckets))
          (spills_of (here.2 ∷ out.2))
          (of_rows (pre ++ (here.0 ++ out.0 ++ last)) (left ++ (here.1 ++ out.1 ++ last_results)))
          (not (any_none (here.2 ∷ out.2)))
  unfolding spills_of
  Trial-cons pre rest left others rows post results right keys buckets lined here out last
        last_results e f ended t =
      subst
        (λ ok.
          Trial n (of_rows (pre ++ rest) (left ++ others)) (λ P. All P keys × All (All P) buckets)
            (λ P. spill_of here.2 P × spills_of out.2 P)
            (of_rows (pre ++ (here.0 ++ out.0 ++ last)) (left ++ (here.1 ++ out.1 ++ last_results)))
            ok)
        (none_of-cons here.2 out.2)
        (Trial-trans n _ (of_rows (pre ++ (here.0 ++ post)) (left ++ (here.1 ++ right))) _
          (λ P. All P keys) (spill_of here.2) (λ P. All (All P) buckets) (spills_of out.2)
          (is_some here.2) (not (any_none out.2)) (rw (sym e, sym f) ended.trial)
          (rw
            (
              append_assoc pre here.0 post,
              append_assoc left here.1 right,
              append_assoc pre here.0 (out.0 ++ last),
              append_assoc left here.1 (out.1 ++ last_results),
              sym (append_assoc here.0 out.0 last),
              sym (append_assoc here.1 out.1 last_results),
            )
            at t))

  pub bands :
      (x : ℕ) (ys : List ℕ) (consumed : ℕ) (pre rest left others : List ℕ) (buckets : List (List ℕ))
      → HasShape n (of_rows (pre ++ rest) (left ++ others))
      → IsMatrix (pre ++ rest) (left ++ others)
      → length pre ≡ x
      → length pre ≡ consumed
      → length left ≡ length pre
      → length others ≡ length rest
      → Rising x ys (length pre + length rest)
      → Placed b.num_starts b.raw_seed x ys buckets
      → (coeffs : List (ℕ × List ℕ) × List ℕ) × (split_loop x ys consumed rest ≡ done coeffs)
        × (results : List (ℕ × List ℕ) × List ℕ) × (split_loop x ys consumed others ≡ done results)
        × (out : List ℕ × List ℕ × List (Option (List ℕ))) × (band_ranges b.num_starts b.raw_seed
              coeffs.0 results.0 buckets
            ≡ done out)
        × Trial n
            (of_rows (pre ++ rest) (left ++ others))
            (λ P. All (All P) buckets)
            (spills_of out.2)
            (of_rows (pre ++ (out.0 ++ coeffs.1)) (left ++ (out.1 ++ results.1)))
            (not (any_none out.2))
  unfolding Rising Placed split_loop band_ranges
  bands x [] consumed pre rest left others [] v m e f g h up placed = (
    ([], rest),
    refl,
    ([], others),
    refl,
    ([], [], []),
    refl,
    inl (
      unfold any_none in refl,
      record {
        kept_keys = [];
        added = Extends-refl n (of_rows (pre ++ rest) (left ++ others)) v m;
        same_keys = λ P prop. (λ h. tt, λ h. (tt, unfold spills_of in tt));
      },
    ),
  )
  bands x [] consumed pre rest left others (bucket ∷ buckets) v m e f g h up placed = absurd placed
  bands x (y ∷ ys) consumed pre rest left others [] v m e f g h up placed = absurd placed
  bands x (y ∷ ys) consumed pre rest left others (bucket ∷ buckets) v m e f g h up placed =
      let len : ℕ = y - x in
      let fits : y ≤ length pre + length rest = Rising-le y ys _ up.1 in
      let whole : take len rest ++ drop len rest ≡ rest = take-append-drop len rest in
      let whole_results : take len others ++ drop len others ≡ others =
        take-append-drop len others in
      let rows_len : length (take len rest) ≡ len = length-take len rest (omega arith) in
      let results_len : length (take len others) ≡ len = length-take len others (omega arith) in
      let (here, run, t) =
        band_range_128-Ended n b pre (drop len rest) left (drop len others) g bucket (take len rest)
          (take len others) (results_len ∙ sym rows_len) (rw (whole, whole_results) v)
          (rw (whole, whole_results) m)
          (subst (λ (n : ℕ). All (λ k. n ≤ place b.num_starts b.raw_seed k) bucket) (sym e)
            placed.0) in
      let run' : band_range_128 (take len rest) (take len others) consumed b.num_starts b.raw_seed
            bucket
          ≡ done here =
        subst
          (λ (n : ℕ).
            band_range_128 (take len rest) (take len others) n b.num_starts b.raw_seed bucket
            ≡ done here)
          f run in
      let size : length here.0 ≡ len = t.same_rows ∙ rows_len in
      let size_results : length here.1 ≡ len = t.same_results ∙ results_len in
      let sizes : length (pre ++ here.0) ≡ length pre + length here.0 = length-append pre here.0 in
      let sizes_results : length (left ++ here.1) ≡ length left + length here.1 =
        length-append left here.1 in
      let left_rows : length (drop len rest) ≡ length rest - len = length-drop len rest in
      let left_results : length (drop len others) ≡ length others - len = length-drop len others in
      let (v', m') =
        Trial-after n _ (with_rows n b pre (drop len rest) left (drop len others) g here.0 here.1) _
          _ _ t.trial in
      let assoc : pre ++ here.0 ++ drop len rest ≡ pre ++ (here.0 ++ drop len rest) =
        append_assoc pre here.0 (drop len rest) in
      let assoc_results : left ++ here.1 ++ drop len others ≡ left ++ (here.1 ++ drop len others) =
        append_assoc left here.1 (drop len others) in
      let (coeffs, cut, results, cut_results, out, more, u) =
        bands y ys (consumed + len) (pre ++ here.0) (drop len rest) (left ++ here.1)
          (drop len others) buckets (rw (assoc, assoc_results) v') (rw (assoc, assoc_results) m')
          (omega arith) (omega arith) (omega arith) (omega arith)
          (subst (Rising y ys) (omega arith) up.1) placed.1 in
      (
        ((consumed, take len rest) ∷ coeffs.0, coeffs.1),
        split_loop-cons x y ys consumed rest coeffs up.0 (omega arith) cut,
        ((consumed, take len others) ∷ results.0, results.1),
        split_loop-cons x y ys consumed others results up.0 (omega arith) cut_results,
        (here.0 ++ out.0, here.1 ++ out.1, here.2 ∷ out.2),
        band_ranges-cons b.num_starts b.raw_seed consumed (take len rest) (take len others) coeffs.0
            results.0 bucket buckets here out run' more,
        Trial-cons pre rest left others (take len rest) (drop len rest) (take len others)
            (drop len others) bucket buckets g here out coeffs.1 results.1 whole whole_results t u,
      )
