-- ===== src/Filter/Parallel/StdRibbon/Thread.antt =====
-- `band_range_128` of src/banding128.rs: one thread on its slices.
use mathlib.Core.Option
use pleat.Common.{
  ℕ, suc, ◌+◌, ◌-◌, ◌≤◌, ◌≡◌, ◌↔◌, refl, sym, subst, ◌∙◌, arith, leb, inl, inr, Bool, true, false,
  List, [], ◌∷◌, length, All, Option, some, none, Run, done,
}
use pleat.Hash.{ribbon_hash, start, coeff_row_128, result_row}
use pleat.Hash.Bounds.{ribbon_hash-lt, result_row-lt}
use pleat.System.{IsRow}
use pleat.Banding128.{Banding128, w128}
use pleat.Banding128.Add.{IsMatrix}
use pleat.Banding128.Build.{HasShape, key-IsRow, Adds-Extends}
use pleat.Banding128.While.{Extends-refl}
use pleat.Filter.Parallel.Whole.{whole}
use pleat.Filter.Parallel.StdRibbon.{
  Ranged, Landing, banded, spilled, inconsistent, spill_key, land, band_range_128,
}
use pleat.Filter.Parallel.StdRibbon.Land.{Lands, range_loop-Lands}
use pleat.Filter.Parallel.StdRibbon.Trial.{Keys, Trial, Trial-trans, Trial-cong}

-- The keys that a thread returns, if it does not fail.
unfoldable pub spill_of : Option (List ℕ) → Keys
spill_of none P = Unit
spill_of (some keys) P = All P keys

unfoldable pub is_some : Option (List ℕ) → Bool
is_some none = false
is_some (some keys) = true

is_some-map : (k : ℕ) (o : Option (List ℕ)) → is_some (Option.map (λ keys. k ∷ keys) o) ≡ is_some o
unfolding is_some
is_some-map k none = refl
is_some-map k (some keys) = refl

spill_of-map :
    (k : ℕ) (o : Option (List ℕ))
    → is_some o ≡ true
    → (P : ℕ → Type 0)
    → (All P (k ∷ []) × spill_of o P) ↔ spill_of (Option.map (λ keys. k ∷ keys) o) P
unfolding is_some spill_of
spill_of-map k none e P = absurd (ground arith)
spill_of-map k (some keys) e P = (λ h. (h.0.0, h.1), λ h. ((h.0, tt), h.1))

module _ (n : ℕ) (b : Banding128) (pre post left right : List ℕ)
    (lined : length left ≡ length pre) where
  -- The matrix with these rows in the slices of the thread.
  abbrev pub with_rows : List ℕ → List ℕ → Banding128
  with_rows rows results = record b {
    coeff_rows = whole pre post rows;
    result_rows = whole left right results;
  }

  -- What the run of the thread on these keys ends in.
  pub record Ended (rows results keys : List ℕ) (out : Ranged) : Type 1 where
    pub trial :
        Trial n
          (with_rows rows results)
          (λ P. All P keys)
          (spill_of out.2)
          (with_rows out.0 out.1)
          (is_some out.2)
    pub same_rows : length out.0 ≡ length rows
    pub same_results : length out.1 ≡ length results

  abbrev Ends : List ℕ → List ℕ → List ℕ → Run Ranged → Type 1
  Ends rows results keys run = (out : Ranged) × (run ≡ done out) × Ended rows results keys out

  module _ (k : ℕ) (keys rows results : List ℕ) (v : HasShape n (with_rows rows results))
      (m : IsMatrix (whole pre post rows) (whole left right results)) where
    abbrev Landed : Landing → Type 0
    Landed l =
        let h = ribbon_hash k b.raw_seed in
        Lands pre post left right lined rows results (start h b.num_starts) (coeff_row_128 h)
          (result_row h) l

    -- The key is kept, spilled or inconsistent, and the run goes on, or not.
    land-Ends :
        (l : Landing) (next : List ℕ → List ℕ → Run Ranged)
        → Landed l
        → ((rows' results' : List ℕ)
            → length results' ≡ length rows'
            → HasShape n (with_rows rows' results')
            → IsMatrix (whole pre post rows') (whole left right results')
            → Ends rows' results' keys (next rows' results'))
        → length results ≡ length rows
        → Ends rows results (k ∷ keys) (land k rows results l next)
    unfolding Lands land spill_key
    land-Ends (banded rows' results') next landed ends same =
        let e =
          Adds-Extends n (with_rows rows results) k (whole pre post rows')
            (whole left right results') v landed.0 in
        let (out, run, t) = ends rows' results' (landed.2 ∙ same ∙ sym landed.1) e.shape e.matrix in
        (
          out,
          run,
          record {
            trial =
                Trial-cong n (with_rows rows results) (with_rows out.0 out.1) _ _
                  (λ P. All P (k ∷ keys)) (spill_of out.2) (is_some out.2)
                  (λ P. (λ h. (h.0.0, h.1), λ h. ((h.0, tt), h.1)))
                  (λ ok P. (λ h. h.1, λ h. (tt, h)))
                  (Trial-trans n (with_rows rows results) (with_rows rows' results')
                    (with_rows out.0 out.1) (λ P. All P (k ∷ [])) (λ P. Unit) (λ P. All P keys)
                    (spill_of out.2) true (is_some out.2)
                    (inl (
                      refl,
                      record {
                        kept_keys = k ∷ [];
                        added = e;
                        same_keys = λ P prop. (λ h. h.0, λ h. (h, tt));
                      },
                    ))
                    t.trial);
            same_rows = t.same_rows ∙ landed.1;
            same_results = t.same_results ∙ landed.2;
          },
        )
    land-Ends spilled next landed ends same =
        let (out, run, t) = ends rows results same v m in
        (
          spill_key k out,
          rw run refl,
          record {
            trial =
                subst
                  (λ ok.
                    Trial n (with_rows rows results) (λ P. All P (k ∷ keys))
                      (spill_of (spill_key k out).2) (with_rows out.0 out.1) ok)
                  (sym (is_some-map k out.2))
                  (Trial-cong n (with_rows rows results) (with_rows out.0 out.1) _ _
                    (λ P. All P (k ∷ keys)) (spill_of (spill_key k out).2) (is_some out.2)
                    (λ P. (λ h. (h.0.0, h.1), λ h. ((h.0, tt), h.1))) (spill_of-map k out.2)
                    (Trial-trans n (with_rows rows results) (with_rows rows results)
                      (with_rows out.0 out.1) (λ P. All P (k ∷ [])) (λ P. All P (k ∷ []))
                      (λ P. All P keys) (spill_of out.2) true (is_some out.2)
                      (inl (
                        refl,
                        record {
                          kept_keys = [];
                          added = Extends-refl n (with_rows rows results) v m;
                          same_keys = λ P prop. (λ h. h.1, λ h. (tt, h));
                        },
                      ))
                      t.trial));
            same_rows = t.same_rows;
            same_results = t.same_results;
          },
        )
    land-Ends inconsistent next landed ends same = (
      (rows, results, none),
      refl,
      record {
        trial = inr (
          unfold is_some in refl,
          record {
            kept_keys = [];
            added = Extends-refl n (with_rows rows results) v m;
            part = λ P prop h. tt;
            clash = λ x q h. landed x q (λ j p. (h j p).0);
          },
        );
        same_rows = refl;
        same_results = refl;
      },
    )

  -- The run of a thread ends, without a panic, for keys that do not start below its slices.
  pub band_range_128-Ended :
      (keys rows results : List ℕ)
      → length results ≡ length rows
      → HasShape n (with_rows rows results)
      → IsMatrix (whole pre post rows) (whole left right results)
      → All (λ k. length pre ≤ start (ribbon_hash k b.raw_seed) b.num_starts) keys
      → (out : Ranged) × (band_range_128 rows results (length pre) b.num_starts b.raw_seed keys
          ≡ done out)
        × Ended rows results keys out
  unfolding band_range_128
  band_range_128-Ended [] rows results same v m above = (
    (rows, results, some []),
    refl,
    record {
      trial = inl (
        unfold is_some in refl,
        record {
          kept_keys = [];
          added = Extends-refl n (with_rows rows results) v m;
          same_keys = λ P prop. (λ h. tt, λ h. (tt, unfold spill_of in tt));
        },
      );
      same_rows = refl;
      same_results = refl;
    },
  )
  band_range_128-Ended (k ∷ keys) rows results same v m above =
      let h : ℕ = ribbon_hash k b.raw_seed in
      let st : ℕ = start h b.num_starts in
      let over : leb (length pre) st ≡ true = ground (arith, above.0) in
      let place : st ≡ length pre + (st - length pre) = omega (arith, above.0) in
      let row : IsRow w128 (length (whole pre post rows)) st (coeff_row_128 h) =
        key-IsRow h b.num_starts (length (whole pre post rows)) (ribbon_hash-lt k b.raw_seed)
          v.starts v.starts_u64 (v.slots ∙ sym v.rows) in
      let (l, run, lands) =
        range_loop-Lands pre post left right lined rows results same m (suc (length rows))
          (st - length pre) (coeff_row_128 h) (result_row h)
          (subst (λ (i : ℕ). IsRow w128 (length (whole pre post rows)) i (coeff_row_128 h)) place
            row)
          (result_row-lt h) (omega arith) (omega arith) in
      let landed : Landed k keys rows results v m l =
        subst
          (λ (i : ℕ).
            Lands pre post left right lined rows results i (coeff_row_128 h) (result_row h) l)
          (sym place) lands in
      let (out, run', t) =
        land-Ends k keys rows results v m l
          (λ rows' results'.
            band_range_128 rows' results' (length pre) b.num_starts b.raw_seed keys)
          landed
          (λ rows' results' same' v' m'.
            band_range_128-Ended keys rows' results' same' v' m' above.1)
          same in
      (out, rw (over, run) run', t)
