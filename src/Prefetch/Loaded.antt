-- ===== src/Prefetch/Loaded.antt =====
-- `prefetch` of src/banding.rs and src/banding128.rs, beside what `contains` reads.
use native.Mathlib.Decide.{ℕ_discrete}
use native.Mathlib.Nat
use pleat.Common.{
  ℕ, ◌+◌, ◌-◌, ◌*◌, ◌/◌, ◌%◌, ◌==◌, ◌≤◌, ◌<◌, ◌≡◌, arith, if◌then◌else◌, Bool, ◌⊎◌, inl, inr,
  length,
}
use pleat.Hash.{ribbon_hash, start}
use pleat.Banding.{Solution, w}
use pleat.Banding.Query.{IsSolution}
use pleat.Banding128.{Solution128, w128}
use pleat.Banding128.Query.{IsSolution as IsSolution_128}
use pleat.Prefetch.{prefetch, prefetch_128}
use pleat.Prefetch.Lines.{Loads, step_by-Loads}

near_8 :
    (a t i u : ℕ)
    → t ≤ i
    → i < t + 8
    → i ≤ u
    → u ≤ t + 8
    → ((a + t) / 8 ≡ (a + i) / 8) ⊎ ((a + u) / 8 ≡ (a + i) / 8)
near_8 a t i u p q r s = elim (ℕ_discrete ((a + t) / 8) ((a + i) / 8)) [
  | yes e ↦ inl e
  | no ne ↦ inr (omega arith)
]

near_4 :
    (a t i u : ℕ)
    → t ≤ i
    → i < t + 4
    → i ≤ u
    → u ≤ t + 4
    → ((a + t) / 4 ≡ (a + i) / 4) ⊎ ((a + u) / 4 ≡ (a + i) / 4)
near_4 a t i u p q r s = elim (ℕ_discrete ((a + t) / 4) ((a + i) / 4)) [
  | yes e ↦ inl e
  | no ne ↦ inr (omega arith)
]

-- The block of a slot that is not in the last block has another one after it.
two_blocks : (q r blocks : ℕ) → q + 1 < blocks → q * r + 2 * r ≤ blocks * r
two_blocks q r blocks p =
    let more : (q + 2) * r ≤ blocks * r = Nat.mul-le-mul_right r (omega arith) in
    omega (arith, Nat.add-mul q 2 r)

-- Wherever in a cache line the segments of a homogeneous solution begin, and for every key that
-- does not start in the last block, `prefetch` loads the line of each of the two segments that a
-- query of the key reads in a column.
pub prefetch-Loads :
    (r : ℕ) (s : Solution) (x : ℕ → ℕ → Bool) (v : IsSolution r s x) (key a j : ℕ)
    → (let st = start (ribbon_hash key s.raw_seed) s.num_starts in
        (st / w + 2) * w ≤ s.num_starts + 63)
    → j < r
    → (let st = start (ribbon_hash key s.raw_seed) s.num_starts in
        let maybe = if st % w == 0 then 0 else r in
        Loads 8 a (st / w * r + j) (prefetch r s key)
        × Loads 8 a (st / w * r + maybe + j) (prefetch r s key))
unfolding prefetch
prefetch-Loads r s x v key a j two lt =
    let st : ℕ = start (ribbon_hash key s.raw_seed) s.num_starts in
    let room : st / w * r + 2 * r ≤ length s.segments =
      omega (arith, two_blocks (st / w) r v.blocks (omega (arith, v.slots, two)), v.words) in
    let maybe : ℕ = if st % w == 0 then 0 else r in
    let small : maybe ≤ r = ground arith in
    let seg : ℕ = st / w * r in
    let loads : (i : ℕ) → seg ≤ i → i < seg + 2 * r → Loads 8 a i (prefetch r s key) = λ i p q.
      step_by-Loads 8 a (length s.segments) (seg + 2 * r - 1) (omega arith) (omega arith) (near_8 a)
        (2 * r) seg i p (omega arith) (omega arith) in
    (
      loads (seg + j) (omega arith) (omega arith),
      loads (seg + maybe + j) (omega arith) (omega arith),
    )

-- Wherever in a cache line the segments of a standard solution begin, and for every key that does
-- not start in the last block, `prefetch` loads the line of each of the two segments that a query
-- of the key reads in a column.
pub prefetch_128-Loads :
    (r : ℕ) (s : Solution128) (x : ℕ → ℕ → Bool) (v : IsSolution_128 r s x) (key a j : ℕ)
    → (let st = start (ribbon_hash key s.raw_seed) s.num_starts in
        (st / w128 + 2) * w128 ≤ s.num_starts + 127)
    → j < r
    → (let st = start (ribbon_hash key s.raw_seed) s.num_starts in
        let maybe = if st % w128 == 0 then 0 else r in
        Loads 4 a (st / w128 * r + j) (prefetch_128 r s key)
        × Loads 4 a (st / w128 * r + maybe + j) (prefetch_128 r s key))
unfolding prefetch_128
prefetch_128-Loads r s x v key a j two lt =
    let st : ℕ = start (ribbon_hash key s.raw_seed) s.num_starts in
    let room : st / w128 * r + 2 * r ≤ length s.segments =
      omega (arith, two_blocks (st / w128) r v.blocks (omega (arith, v.slots, two)), v.words) in
    let maybe : ℕ = if st % w128 == 0 then 0 else r in
    let small : maybe ≤ r = ground arith in
    let seg : ℕ = st / w128 * r in
    let loads : (i : ℕ) → seg ≤ i → i < seg + 2 * r → Loads 4 a i (prefetch_128 r s key) = λ i p q.
      step_by-Loads 4 a (length s.segments) (seg + 2 * r - 1) (omega arith) (omega arith) (near_4 a)
        (2 * r) seg i p (omega arith) (omega arith) in
    (
      loads (seg + j) (omega arith) (omega arith),
      loads (seg + maybe + j) (omega arith) (omega arith),
    )
