-- ===== src/Filter/Parallel/Assign.antt =====
-- The buckets of src/filter/parallel.rs: which range a key goes to.
use native.Mathlib.Decide.{dec_lt}
use pleat.Common.{
  ℕ, suc, ◌-◌, ◌≤◌, ◌<◌, ◌≡◌, ◌↔◌, refl, arith, leb, ltb, List, [], ◌∷◌, ◌++◌, true, length,
  get_elem?, set, replicate, All, All-append, append-All, some, done, ◌&&◌, Bool-cases, inl, inr,
}
use pleat.Hash.{ribbon_hash, start}
use pleat.Filter.Parallel.{partition_point, assign, assign_loop, margin, saturating_add}
use pleat.Filter.Parallel.Bounds.{Rising}

module _ (num_starts seed : ℕ) where
  abbrev pub place : ℕ → ℕ
  place k = start (ribbon_hash k seed) num_starts

  -- One bucket for each range, of keys that do not start below it.
  unfoldable pub Placed : ℕ → List ℕ → List (List ℕ) → Type 0
  Placed x [] [] = Unit
  Placed x [] (bucket ∷ buckets) = ⊥
  Placed x (y ∷ ys) [] = ⊥
  Placed x (y ∷ ys) (bucket ∷ buckets) = All (λ k. x ≤ place k) bucket × Placed y ys buckets

  -- Where a key belongs: its range, the bucket there, and what the bucket is with the key.
  record Located (k x : ℕ) (ys : List ℕ) (buckets : List (List ℕ)) : Type 1 where
    index : ℕ
    upper : ℕ
    bucket : List ℕ
    point : partition_point (place k) (x ∷ ys) ≡ suc index
    inside : index < length ys
    bounded : get_elem? ys index ≡ some upper
    filed : get_elem? buckets index ≡ some bucket
    still : Placed x ys (set buckets index (bucket ++ (k ∷ [])))
    same_keys :
        (P : ℕ → Type 0)
        → All (All P) (set buckets index (bucket ++ (k ∷ []))) ↔ (P k × All (All P) buckets)

  located :
      (k n x : ℕ) (ys : List ℕ) (buckets : List (List ℕ))
      → Rising x ys n
      → Placed x ys buckets
      → x ≤ place k
      → place k < n
      → Located k x ys buckets
  unfolding Rising Placed partition_point
  located k n x [] buckets up placed lo hi = absurd (omega (arith, up))
  located k n x (y ∷ ys) [] up placed lo hi = absurd placed
  located k n x (y ∷ ys) (bucket ∷ buckets) up placed lo hi = elim (dec_lt (place k) y) [
    | yes p ↦ record {
      index = 0;
      upper = y;
      bucket = bucket;
      point = ground arith;
      inside = omega arith;
      bounded = refl;
      filed = refl;
      still = (All-append _ bucket (k ∷ []) placed.0 (lo, tt), placed.1);
      same_keys = λ P. (
        λ h. let (a, b) = append-All P bucket (k ∷ []) h.0 in (b.0, (a, h.1)),
        λ h. (All-append P bucket (k ∷ []) h.1.0 (h.0, tt), h.1.1),
      );
    }
    | no p ↦
        let t : Located k y ys buckets = located k n y ys buckets up.1 placed.1 (omega arith) hi in
        record {
          index = suc t.index;
          upper = t.upper;
          bucket = t.bucket;
          point = ground (arith, t.point);
          inside = omega (arith, t.inside);
          bounded = t.bounded;
          filed = t.filed;
          still = (placed.0, t.still);
          same_keys = λ P. (
            λ h. let (a, b) = (t.same_keys P).0 h.1 in (a, (h.0, b)),
            λ h. (h.1.0, (t.same_keys P).1 (h.0, h.1.1)),
          );
        }
  ]

  -- The state of the loop on the keys, with these left to come.
  pub record Assigned (x : ℕ) (ys : List ℕ) (before : List (List ℕ) × List ℕ) (keys : List ℕ)
      (after : List (List ℕ) × List ℕ) : Type 1 where
    pub still : Placed x ys after.0
    pub same_keys :
        (P : ℕ → Type 0)
        → (All (All P) after.0 × All P after.1)
          ↔ (All (All P) before.0 × All P before.1 × All P keys)

  assign-Assigned :
      (n x : ℕ) (ys : List ℕ) (k : ℕ) (buckets : List (List ℕ)) (deferred : List ℕ)
      → Rising x ys n
      → Placed x ys buckets
      → x ≤ place k
      → place k < n
      → (out : List (List ℕ) × List ℕ) × (assign (x ∷ ys) num_starts seed k buckets deferred
          ≡ done out)
        × Assigned x ys (buckets, deferred) (k ∷ []) out
  unfolding assign
  assign-Assigned n x ys k buckets deferred up placed lo hi =
      let t : Located k x ys buckets = located k n x ys buckets up placed lo hi in
      let pos : ltb 0 (suc t.index) ≡ true = ground arith in
      let gap : suc t.index - 1 ≡ t.index = omega arith in
      elim (Bool-cases (
        ltb (suc t.index) (length (x ∷ ys) - 1) && leb t.upper (saturating_add (place k) margin))) [
          | inl e ↦ (
            (buckets, deferred ++ (k ∷ [])),
            rw (t.point, pos, t.bounded, gap, t.filed, e) refl,
            record {
              still = placed;
              same_keys = λ P. (
                λ h. let (a, b) = append-All P deferred (k ∷ []) h.1 in (h.0, a, b),
                λ h. (h.0, All-append P deferred (k ∷ []) h.1 h.2),
              );
            },
          )
          | inr e ↦ (
            (set buckets t.index (t.bucket ++ (k ∷ [])), deferred),
            rw (t.point, pos, t.bounded, gap, t.filed, e) refl,
            record {
              still = t.still;
              same_keys = λ P. (
                λ h. let a = (t.same_keys P).0 h.0 in (a.1, h.1, (a.0, tt)),
                λ h. ((t.same_keys P).1 (h.2.0, h.0), h.1),
              );
            },
          )
        ]

  -- No key is lost or made up: the buckets and the deferred keys are together the keys, and no key
  -- of a bucket starts below the range of the bucket.
  pub assign_loop-Assigned :
      (n x : ℕ) (ys : List ℕ)
      → Rising x ys n
      → (keys : List ℕ) (buckets : List (List ℕ)) (deferred : List ℕ) → Placed x ys buckets
      → All (λ k. (x ≤ place k) × (place k < n)) keys
      → (out : List (List ℕ) × List ℕ) × (assign_loop (x ∷ ys) num_starts seed keys buckets deferred
          ≡ done out)
        × Assigned x ys (buckets, deferred) keys out
  unfolding assign_loop
  assign_loop-Assigned n x ys up [] buckets deferred placed inside = (
    (buckets, deferred),
    refl,
    record { still = placed; same_keys = λ P. (λ h. (h.0, h.1, tt), λ h. (h.0, h.1)) },
  )
  assign_loop-Assigned n x ys up (k ∷ keys) buckets deferred placed inside =
      let (mid, run, t) =
        assign-Assigned n x ys k buckets deferred up placed inside.0.0 inside.0.1 in
      let (out, run', u) = assign_loop-Assigned n x ys up keys mid.0 mid.1 t.still inside.1 in
      (
        out,
        rw (run, run') refl,
        record {
          still = u.still;
          same_keys = λ P. (
            λ h.
                let (a, b, c) = (u.same_keys P).0 h in
                let (d, e, f) = (t.same_keys P).0 (a, b) in (d, e, (f.0, c)),
            λ h.
                let m = (t.same_keys P).1 (h.0, h.1, (h.2.0, tt)) in
                (u.same_keys P).1 (m.0, m.1, h.2.1),
          );
        },
      )

  pub Placed-replicate : (x n : ℕ) (ys : List ℕ) → Placed x ys (replicate (length ys) [])
  unfolding Placed
  Placed-replicate x n [] = tt
  Placed-replicate x n (y ∷ ys) = (tt, Placed-replicate y n ys)
