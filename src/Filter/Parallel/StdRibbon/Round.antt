-- ===== src/Filter/Parallel/StdRibbon/Round.antt =====
-- One round of the seed loop of `build_std128_parallel` of src/banding128.rs, and the loop.
use pleat.Common.{
  ℕ, zero, suc, ◌+◌, ◌-◌, ◌^◌, ◌≤◌, ◌<◌, ◌≡◌, refl, sym, subst, ◌∙◌, arith, ltb, lt→ltb, Bool, true,
  false, not, inl, inr, List, [], ◌∷◌, ◌++◌, length, replicate, All, All-always, All-replicate,
  Option, some, none, done, ◌>>=◌, if◌then◌else◌,
}
use pleat.Hash.{ribbon_hash}
use pleat.Hash.Bounds.{ribbon_hash-lt, start-lt}
use pleat.Banding128.{Banding128, reset, add_while}
use pleat.Banding128.Build.{HasShape}
use pleat.Banding128.While.{IsFresh, reset-IsFresh}
use pleat.Banding128.Seed.{
  Search, Search-first, Search-later, Tried, Solved-same, Extends-Solved, Clashes-Unsolvable,
}
use pleat.Filter.Parallel.Bounds.{Rising, some_range, bounds-Rising}
use pleat.Filter.Parallel.Assign.{place, Placed-replicate, Assigned, assign_loop-Assigned}
use pleat.Filter.Parallel.StdRibbon.{any_none, tail_loop, try_seed, parallel_seed_loop}
use pleat.Filter.Parallel.StdRibbon.Trial.{Trial}
use pleat.Filter.Parallel.StdRibbon.Threads.{of_rows, bands, spills_of}
use pleat.Filter.Parallel.StdRibbon.Tail.{RanOn, absorb, tail-RanOn}

module _ (num_starts ordinal : ℕ) (keys : List ℕ) {b : Banding128}
    (f : IsFresh (num_starts + 127) num_starts ordinal b) where
  -- What a run over the keys on an empty matrix shows of the ordinal.
  RanOn-Tried :
      (out : Banding128 × Bool)
      → RanOn (num_starts + 127) b (λ P. All P keys) out
      → Tried num_starts ordinal keys out
  RanOn-Tried out (inl (ok, s)) = inl (
    ok,
    Solved-same num_starts s.kept_keys keys out.0
        (λ P prop. (λ h. (s.same_keys P prop).0 (h, tt), λ h. ((s.same_keys P prop).1 h).0))
        (Extends-Solved num_starts ordinal s.kept_keys f s.added),
    s.added.same_ordinal ∙ f.ordinal_is,
  )
  RanOn-Tried out (inr (ok, v, e, k)) =
      inr (ok, v, e ∙ f.same_starts, Clashes-Unsolvable num_starts ordinal keys f k)

  inside :
      (k : ℕ)
      → (0 ≤ place b.num_starts b.raw_seed k) × (place b.num_starts b.raw_seed k < num_starts + 127)
  inside k =
      let lt : place b.num_starts b.raw_seed k < b.num_starts =
        start-lt (ribbon_hash k b.raw_seed) b.num_starts (ribbon_hash-lt k b.raw_seed)
          f.shape.starts f.shape.starts_u64 in
      (omega arith, omega (arith, f.same_starts))

  -- After the threads: the seed has failed, or the tail decides.
  threads-Tried :
      (d : Banding128) (assigned : List (List ℕ) × List ℕ) (x : ℕ) (ys : List ℕ) (m : ℕ)
      → Assigned b.num_starts b.raw_seed x ys (replicate m [], []) keys assigned
      → (outs : List (Option (List ℕ)))
      → Trial
          (num_starts + 127)
          b
          (λ P. All (All P) assigned.0)
          (spills_of outs)
          d
          (not (any_none outs))
      → (out : Banding128 × Bool) × ((let tail =
              add_while d assigned.1 >>= λ r. if r.1 then tail_loop r.0 outs else done r in
            if any_none outs then done (d, false) else tail)
          ≡ done out)
        × Tried num_starts ordinal keys out
  threads-Tried d assigned x ys m t outs (inr (e, s)) =
      let failed : any_none outs ≡ true = ground arith in
      (
        (d, false),
        rw failed refl,
        RanOn-Tried (d, false)
            (inr (
              refl,
              s.added.shape,
              s.added.same_starts,
              λ y q h.
                  s.clash y q (λ j p. ((t.same_keys _).1 (All-replicate _ m [] tt, tt, h j p)).0),
            )),
      )
  threads-Tried d assigned x ys m t outs (inl (e, s)) =
      let going : any_none outs ≡ false = ground arith in
      let (out, run, ran) =
        tail-RanOn (num_starts + 127) d assigned.1 outs s.added.shape s.added.matrix in
      (
        out,
        rw going run,
        RanOn-Tried out (
            absorb (num_starts + 127) b d (λ P. All P keys)
              (λ P. All P assigned.1 × spills_of outs P) out
              (record {
                kept_keys = s.kept_keys;
                added = s.added;
                same_keys = λ P prop. (
                  λ h.
                      let a = (s.same_keys P prop).0 (h.0, h.1.1) in
                      ((t.same_keys P).0 (a, h.1.0)).2,
                  λ h.
                      let a = (t.same_keys P).1 (All-replicate (All P) m [] tt, tt, h) in
                      let c = (s.same_keys P prop).1 a.0 in (c.0, (a.1, c.1)),
                );
              })
              ran),
      )

-- A round returns, without a panic: its matrix is solved, or the seed has no solution.
try_seed-Tried :
    (num_starts ordinal : ℕ) (b : Banding128) (keys : List ℕ) (window threads : ℕ)
    → HasShape (num_starts + 127) b
    → b.num_starts ≡ num_starts
    → num_starts + 127 < 2 ^ 64
    → 0 < window
    → 0 < threads
    → (out : Banding128 × Bool) × (try_seed ordinal b keys window threads ≡ done out)
      × Tried num_starts ordinal keys out
unfolding try_seed reset
try_seed-Tried num_starts ordinal b keys window threads v e lt pw pt =
    let n : ℕ = length b.coeff_rows in
    let c : Banding128 = reset b ordinal in
    let f : IsFresh (num_starts + 127) num_starts ordinal c =
      reset-IsFresh (num_starts + 127) num_starts b ordinal v e in
    let (ys, range, up) = bounds-Rising window n threads pw pt (omega (arith, v.rows)) in
    let ranges : length (0 ∷ ys) - 1 ≡ length ys = omega arith in
    let ranged : ltb 0 (length ys) ≡ true =
      lt→ltb 0 (length ys) (some_range ys n up (omega (arith, v.rows))) in
    let up' : Rising 0 ys (num_starts + 127) = subst (Rising 0 ys) v.rows up in
    let (assigned, run, t) =
      assign_loop-Assigned c.num_starts c.raw_seed (num_starts + 127) 0 ys up' keys
        (replicate (length ys) []) [] (Placed-replicate c.num_starts c.raw_seed 0 0 ys)
        (All-always keys (inside num_starts ordinal keys f)) in
    let (coeffs, cut, results, cut_results, out, band_run, trial) =
      bands (num_starts + 127) c 0 ys 0 [] c.coeff_rows [] c.result_rows assigned.0 f.shape f.matrix
        refl refl refl (f.shape.results ∙ sym f.shape.rows)
        (subst (Rising 0 ys) (omega (arith, f.shape.rows)) up') t.still in
    let (last, tail, tried) =
      threads-Tried num_starts ordinal keys f
        (of_rows (num_starts + 127) c (out.0 ++ coeffs.1) (out.1 ++ results.1)) assigned 0 ys
        (length ys) t out.2 trial in
    (last, rw (range, ranges, ranged, run, cut, cut_results, band_run) tail, tried)

pub parallel_seed_loop-Search :
    (num_starts n ordinal : ℕ) (b : Banding128) (keys : List ℕ) (window threads : ℕ)
    → HasShape (num_starts + 127) b
    → b.num_starts ≡ num_starts
    → num_starts + 127 < 2 ^ 64
    → 0 < window
    → 0 < threads
    → (out : Option Banding128) × (parallel_seed_loop n ordinal b keys window threads ≡ done out)
      × Search num_starts keys ordinal (ordinal + n) out
unfolding parallel_seed_loop
parallel_seed_loop-Search num_starts zero ordinal b keys window threads v e lt pw pt =
    (none, refl, inl (refl, λ o p q. absurd (omega arith)))
parallel_seed_loop-Search num_starts (suc n) ordinal b keys window threads v e lt pw pt =
    let (r, run, t) = try_seed-Tried num_starts ordinal b keys window threads v e lt pw pt in
    elim t [
      | inl (ok, s, o) ↦
          (some r.0, rw (run, ok) refl, Search-first num_starts ordinal n keys r.0 s o)
      | inr (ok, s, d, u) ↦
          let (out, run', h) =
            parallel_seed_loop-Search num_starts n (suc ordinal) r.0 keys window threads s d lt pw
              pt in
          let hi : suc ordinal + n ≡ ordinal + suc n = omega arith in
          (
            out,
            rw (run, ok) run',
            Search-later num_starts keys ordinal (ordinal + suc n) out u (rw hi at h),
          )
    ]
