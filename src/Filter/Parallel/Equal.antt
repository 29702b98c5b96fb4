-- ===== src/Filter/Parallel/Equal.antt =====
-- The whole parallel build of src/filter/parallel.rs, beside the build in order of arrival.
use native.Mathlib.Nat
use mathlib.Core.Bool.{Bool-set}
use pleat.Common.{
  ℕ, ◌+◌, ◌-◌, ◌*◌, ◌/◌, ◌^◌, ◌≤◌, ◌<◌, Bool, ◌≡◌, ◌↔◌, refl, sym, subst, ◌∙◌, arith, ltb, leb,
  lt→ltb, min, max, List, [], ◌∷◌, ◌++◌, true, length, replicate, All, All-always, All-replicate,
  All-append, append-All, done, Bool-cases, inl, inr,
}
use pleat.Hash.{ribbon_hash}
use pleat.Hash.Bounds.{ribbon_hash-lt, start-lt}
use pleat.Banding
use pleat.Banding.{Banding, w, solve}
use pleat.Banding.Build.{
  IsBand, BandSolves, Accepts, Extends, Extends-refl, Extends-trans, add_all-Extends, new-IsBand,
}
use pleat.Banding.Laws.{solve-same}
use pleat.Filter.{num_slots_for, window_size}
use pleat.Filter.Slots.{num_slots_for_blocks, num_slots_for_bounds}
use pleat.Filter.Ribbon.{from_keys_seeded}
use pleat.Filter.Parallel.Bounds.{Rising, some_range, bounds-Rising}
use pleat.Filter.Parallel.Assign.{place, Placed-replicate, assign_loop-Assigned}
use pleat.Filter.Parallel.Ranges.{of_rows, bands}
use pleat.Filter.Parallel.Ribbon.{
  add_spilled, band_parallel, split_work, merge, from_keys_parallel_seeded,
  ribbon_from_keys_parallel_seeded,
}

-- `b'` is `b` with keys added that are, in some order, those of `have`.
pub record Gains (b : Banding) (have : (ℕ → Type 0) → Type 0) (b' : Banding) : Type 1 where
  pub keys : List ℕ
  pub added : Extends b keys b'
  pub same_keys : (P : ℕ → Type 0) → ((k : ℕ) → IsProp (P k)) → All P keys ↔ have P

Gains-trans :
    (b b' b'' : Banding) (have more : (ℕ → Type 0) → Type 0)
    → Gains b have b'
    → Gains b' more b''
    → Gains b (λ P. have P × more P) b''
Gains-trans b b' b'' have more g h = record {
  keys = g.keys ++ h.keys;
  added = Extends-trans b b' b'' g.keys h.keys g.added h.added;
  same_keys = λ P prop. (
    λ a.
        let (c, d) = append-All P g.keys h.keys a in
        ((g.same_keys P prop).0 c, (h.same_keys P prop).0 d),
    λ a. All-append P g.keys h.keys ((g.same_keys P prop).1 a.0) ((h.same_keys P prop).1 a.1),
  );
}

Gains-cong :
    (b b' : Banding) (have have' : (ℕ → Type 0) → Type 0)
    → ((P : ℕ → Type 0) → ((k : ℕ) → IsProp (P k)) → have P ↔ have' P)
    → Gains b have b'
    → Gains b have' b'
Gains-cong b b' have have' f g = record {
  keys = g.keys;
  added = g.added;
  same_keys = λ P prop.
      (λ a. (f P prop).0 ((g.same_keys P prop).0 a), λ a. (g.same_keys P prop).1 ((f P prop).1 a));
}

pub add_all-Gains :
    (b : Banding) (keys : List ℕ)
    → IsBand b
    → (b' : Banding) × (Banding.add_all b keys ≡ done b') × Gains b (λ P. All P keys) b'
add_all-Gains b keys v =
    let (b', run, e) = add_all-Extends b keys v in
    (b', run, record { keys = keys; added = e; same_keys = λ P prop. (λ a. a, λ a. a) })

add_spilled-Gains :
    (b : Banding) (spilled : List (List ℕ))
    → IsBand b
    → (b' : Banding) × (add_spilled b spilled ≡ done b') × Gains b (λ P. All (All P) spilled) b'
unfolding add_spilled
add_spilled-Gains b [] v = (
  b,
  refl,
  record { keys = []; added = Extends-refl b v; same_keys = λ P prop. (λ a. tt, λ a. tt) },
)
add_spilled-Gains b (spill ∷ spilled) v =
    let (b', run, g) = add_all-Gains b spill v in
    let (b'', run', h) = add_spilled-Gains b' spilled g.added.band in
    (
      b'',
      rw (run, run') refl,
      Gains-trans b b' b'' (λ P. All P spill) (λ P. All (All P) spilled) g h,
    )

-- Matrices that have gained the same keys have the same solution.
pub Gains-solve :
    (r blocks : ℕ) (b b' b'' : Banding) (keys : List ℕ)
    → blocks * 64 ≡ length b.coeff_rows
    → Gains b (λ P. All P keys) b'
    → Gains b (λ P. All P keys) b''
    → solve r b' ≡ solve r b''
Gains-solve r blocks b b' b'' keys whole g h =
    solve-same r blocks b' b'' g.added.band h.added.band (whole ∙ sym g.added.same_length)
      (g.added.same_length ∙ sym h.added.same_length)
      (g.added.same_starts ∙ sym h.added.same_starts) (g.added.same_seed ∙ sym h.added.same_seed)
      (onto b' b'' g h) (onto b'' b' h g)
  where
    onto :
        (c d : Banding)
        → Gains b (λ P. All P keys) c
        → Gains b (λ P. All P keys) d
        → (x : ℕ → Bool) → BandSolves c x
        → BandSolves d x
    onto c d s t x solves =
        let P : ℕ → Type 0 = Accepts b.num_starts b.raw_seed x in
        t.added.only x (s.added.kept x solves) (
          (t.same_keys P (λ k. Bool-set _ _)).1
            ((s.same_keys P (λ k. Bool-set _ _)).0 (s.added.accepts x solves)))

pub inside :
    (b : Banding)
    → IsBand b
    → (k : ℕ)
    → (0 ≤ place b.num_starts b.raw_seed k)
      × (place b.num_starts b.raw_seed k < length b.coeff_rows)
inside b v k =
    let lt : place b.num_starts b.raw_seed k < b.num_starts =
      start-lt (ribbon_hash k b.raw_seed) b.num_starts (ribbon_hash-lt k b.raw_seed) v.starts
        v.starts_u64 in
    (omega arith, omega (arith, v.slots))

-- The build with threads adds exactly the keys, in some order.
pub band_parallel-Gains :
    (b : Banding) (keys : List ℕ) (window_shift threads : ℕ)
    → IsBand b
    → length b.coeff_rows < 2 ^ 64
    → window_shift < 64
    → 0 < threads
    → (b' : Banding) × (band_parallel b keys b.raw_seed window_shift threads ≡ done b')
      × Gains b (λ P. All P keys) b'
unfolding band_parallel split_work merge window_size
band_parallel-Gains b keys window_shift threads v lt shift pos =
    let n : ℕ = length b.coeff_rows in
    let window : 0 < 2 ^ window_shift = Nat.one-le-pow window_shift 2 (omega arith) in
    let (ys, e, up) = bounds-Rising (2 ^ window_shift) n threads window pos lt in
    let slots : 0 < n = omega (arith, v.slots) in
    let shifted : ltb window_shift 64 ≡ true = lt→ltb window_shift 64 shift in
    let starts : n - w + 1 ≡ b.num_starts = omega (arith, v.slots) in
    let ranges : length (0 ∷ ys) - 1 ≡ length ys = omega arith in
    let ranged : ltb 0 (length ys) ≡ true = lt→ltb 0 (length ys) (some_range ys n up slots) in
    let (assigned, run, t) =
      assign_loop-Assigned b.num_starts b.raw_seed n 0 ys up keys (replicate (length ys) []) []
        (Placed-replicate b.num_starts b.raw_seed 0 0 ys) (All-always keys (inside b v)) in
    let (slices, cut, banded, band_run, u) =
      bands b 0 ys 0 [] b.coeff_rows assigned.0 v refl refl (subst (Rising 0 ys) (omega arith) up)
        t.still in
    let first : Banding = of_rows b (banded.0 ++ slices.1) in
    let (second, tail, g) = add_all-Gains first assigned.1 u.added.band in
    let (last, spill, h) = add_spilled-Gains second banded.1 g.added.band in
    (
      last,
      rw (shifted, e, ranges, ranged, starts, run, cut, band_run, tail, spill) refl,
      Gains-cong b last (λ P. (All P u.kept_keys × All P assigned.1) × All (All P) banded.1)
          (λ P. All P keys)
          (λ P prop. (
            λ a. let c = (t.same_keys P).0 ((u.same_keys P prop).0 (a.0.0, a.1), a.0.1) in c.2,
            λ a.
                let c = (t.same_keys P).1 (All-replicate (All P) (length ys) [] tt, tt, a) in
                let d = (u.same_keys P prop).1 c.0 in ((d.0, c.1), d.1),
          ))
          (Gains-trans b second last _ _
            (Gains-trans b first second _ _
              (record {
                keys = u.kept_keys;
                added = u.added;
                same_keys = λ P prop. (λ a. a, λ a. a);
              })
              g)
            h),
    )

-- For at most 32 columns, fewer than 2 ^ 44 keys and a window shift below 64, the parallel
-- homogeneous build neither panics nor runs out of fuel on any number of threads, and gives the
-- same filter as the build in order of arrival, bit for bit.
pub ribbon_from_keys_parallel_seeded-eq :
    (r : ℕ)
    → r ≤ 32
    → (keys : List ℕ) (seed window_shift threads : ℕ) → length keys < 2 ^ 44
    → window_shift < 64
    → ribbon_from_keys_parallel_seeded r keys seed window_shift threads
      ≡ from_keys_seeded r keys seed
unfolding ribbon_from_keys_parallel_seeded from_keys_parallel_seeded from_keys_seeded window_size
ribbon_from_keys_parallel_seeded-eq r width keys seed window_shift threads few shift =
    let num_slots : ℕ = num_slots_for (length keys) r in
    let (lo, _, hi) = num_slots_for_bounds (length keys) r width few in
    let (b, run, v, slots, starts, raw, empty) =
      new-IsBand num_slots seed (num_slots_for_blocks (length keys) r) (omega arith)
        (omega arith) in
    let shifted : ltb window_shift 64 ≡ true = lt→ltb window_shift 64 shift in
    let (b', add, g) = add_all-Gains b keys v in
    elim (Bool-cases (leb (min (max threads 1) (length b.coeff_rows / w)) 1)) [
      | inl e ↦ rw (shifted, run, e, add) refl
      | inr e ↦
          let more : 0 < min (max threads 1) (length b.coeff_rows / w) = ground arith in
          let threads' : ℕ = min (max threads 1) (length b.coeff_rows / w) in
          let (b'', par, h) =
            band_parallel-Gains b keys window_shift threads' v (omega (arith, slots)) shift more in
          let par' : band_parallel b keys seed window_shift threads' ≡ done b'' =
            subst (λ (s : ℕ). band_parallel b keys s window_shift threads' ≡ done b'') raw par in
          let same : solve r b'' ≡ solve r b' =
            Gains-solve r (num_slots / 64) b b'' b' keys
              (omega (arith, slots, num_slots_for_blocks (length keys) r)) h g in
          rw (shifted, run, e, add, par', same) refl
    ]
