-- ===== src/Filter/Parallel/Threads/Laid.antt =====
-- How src/filter/parallel.rs lays the ranges of the threads out on the matrix.
use native.Mathlib.Nat
use pleat.Common.{
  ℕ, ◌+◌, ◌-◌, ◌^◌, ◌≤◌, ◌<◌, ◌≡◌, refl, sym, subst, ap, ◌∙◌, arith, ltb, leb, lt→ltb, List, [],
  ◌∷◌, ◌++◌, true, append_assoc, length, length-take, length-drop, take, drop, take-append-drop,
  replicate, All-always, done,
}
use pleat.Banding.{Banding, w}
use pleat.Banding.Build.{IsBand}
use pleat.Filter.{window_size}
use pleat.Filter.Parallel.{split_loop}
use pleat.Filter.Parallel.Bounds.{Rising, Rising-le, some_range, bounds-Rising}
use pleat.Filter.Parallel.Assign.{Placed, Placed-replicate, assign_loop-Assigned}
use pleat.Filter.Parallel.Equal.{inside}
use pleat.Filter.Parallel.Ribbon.{split_work}
use pleat.Filter.Parallel.Threads.{between, spawn}
use pleat.Filter.Parallel.Threads.Together.{joined}
use pleat.Filter.Parallel.Threads.Shared.{spawn_in}
use pleat.Filter.Parallel.Threads.Apart.{lend, lend_all}
use pleat.Filter.Parallel.Threads.Simulate.{Apart}

pub lend_all-spawn :
    (slices : List (ℕ × List ℕ)) (buckets : List (List ℕ))
    → spawn_in slices buckets ≡ lend_all (spawn slices buckets)
unfolding spawn spawn_in
lend_all-spawn [] buckets = refl
lend_all-spawn (s ∷ slices) [] = refl
lend_all-spawn (s ∷ slices) (bucket ∷ buckets) =
    ap
      (λ l.
        lend (record { base = s.0; rows = s.1; phase = between; keys = bucket; spilled = [] }) ∷ l)
      (lend_all-spawn slices buckets)

-- The threads have the matrix up to the rows behind, side by side from slot `n` on.
pub record Laid (n : ℕ) (rows : List ℕ) (slices : List (ℕ × List ℕ) × List ℕ)
    (buckets : List (List ℕ)) : Type 0 where
  pub apart : Apart n (spawn slices.0 buckets)
  pub whole : rows ≡ (joined (spawn slices.0 buckets)).0 ++ slices.1

split_loop-Laid :
    (num_starts seed x : ℕ) (ys : List ℕ) (rest : List ℕ) (buckets : List (List ℕ))
    → Rising x ys (x + length rest)
    → Placed num_starts seed x ys buckets
    → (slices : List (ℕ × List ℕ) × List ℕ) × (split_loop x ys x rest ≡ done slices)
      × Laid x rest slices buckets
unfolding Rising Placed split_loop spawn joined Apart
split_loop-Laid num_starts seed x [] rest [] up placed =
    (([], rest), refl, record { apart = tt; whole = refl })
split_loop-Laid num_starts seed x [] rest (bucket ∷ buckets) up placed = absurd placed
split_loop-Laid num_starts seed x (y ∷ ys) rest [] up placed = absurd placed
split_loop-Laid num_starts seed x (y ∷ ys) rest (bucket ∷ buckets) up placed =
    let len : ℕ = y - x in
    let fits : y ≤ x + length rest = Rising-le y ys _ up.1 in
    let rising : leb x y ≡ true = ground (arith, up.0) in
    let enough : leb len (length rest) ≡ true = ground arith in
    let on : x + len ≡ y = omega (arith, up.0) in
    let size : length (take len rest) ≡ len = length-take len rest (omega arith) in
    let left : y + length (drop len rest) ≡ x + length rest =
      omega (arith, length-drop len rest, up.0) in
    let (slices, cut, laid) =
      split_loop-Laid num_starts seed y ys (drop len rest) buckets
        (subst (Rising y ys) (sym left) up.1) placed.1 in
    (
      ((x, take len rest) ∷ slices.0, slices.1),
      rw (rising, enough, on, cut) refl,
      record {
        apart = (
          refl,
          subst (λ (n : ℕ). Apart n (spawn slices.0 buckets))
              (sym (ap (λ (n : ℕ). x + n) size ∙ on)) laid.apart,
        );
        whole =
            sym (take-append-drop len rest)
            ∙ ap (λ l. take len rest ++ l) laid.whole
            ∙ sym (append_assoc (take len rest) (joined (spawn slices.0 buckets)).0 slices.1);
      },
    )

-- The build lays its threads out from slot zero.
pub split_work-Laid :
    (b : Banding) (keys : List ℕ) (window_shift threads : ℕ)
    → IsBand b
    → length b.coeff_rows < 2 ^ 64
    → window_shift < 64
    → 0 < threads
    → (split : (List (ℕ × List ℕ) × List ℕ) × (List (List ℕ) × List ℕ)) × (split_work b keys
          b.raw_seed window_shift threads
        ≡ done split)
      × Laid 0 b.coeff_rows split.0 split.1.0
unfolding split_work window_size
split_work-Laid b keys window_shift threads v lt shift pos =
    let n : ℕ = length b.coeff_rows in
    let window : 0 < 2 ^ window_shift = Nat.one-le-pow window_shift 2 (omega arith) in
    let (ys, e, up) = bounds-Rising (2 ^ window_shift) n threads window pos lt in
    let slots : 0 < n = omega (arith, v.slots) in
    let shifted : ltb window_shift 64 ≡ true = lt→ltb window_shift 64 shift in
    let starts : n - w + 1 ≡ b.num_starts = omega (arith, v.slots) in
    let ranges : length (0 ∷ ys) - 1 ≡ length ys = omega arith in
    let ranged : ltb 0 (length ys) ≡ true = lt→ltb 0 (length ys) (some_range ys n up slots) in
    let (assigned, run, t) =
      assign_loop-Assigned b.num_starts b.raw_seed n 0 ys up keys (replicate (length ys) []) []
        (Placed-replicate b.num_starts b.raw_seed 0 0 ys) (All-always keys (inside b v)) in
    let (slices, cut, laid) =
      split_loop-Laid b.num_starts b.raw_seed 0 ys b.coeff_rows assigned.0
        (subst (Rising 0 ys) (omega arith) up) t.still in
    ((slices, assigned), rw (shifted, e, ranges, ranged, starts, run, cut) refl, laid)
