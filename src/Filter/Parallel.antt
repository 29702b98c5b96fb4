-- ===== src/Filter/Parallel.antt =====
-- Slot-range parallel banding, as src/filter/parallel.rs and `build_std128_parallel` of
-- src/banding128.rs share it: the ranges of slots, the keys of each range, and the split of the
-- matrix. A thread has its range to itself, so the ranges are banded one after the other.
pub mod Whole
mod Bounds
pub mod Assign
pub mod Ranges
pub mod Equal
pub mod Ribbon
pub mod Threads
pub mod Slices
pub mod StdRibbon
use pleat.Common.{
  ℕ, zero, suc, ◌+◌, ◌-◌, ◌*◌, ◌==◌, ◌^◌, leb, ltb, min, if◌then◌else◌, ◌&&◌, Bool, List, [], ◌∷◌,
  ◌++◌, length, get_elem?, set, take, drop, Run, done, ◌>>=◌, ◌>>◌, assert, unwrap,
}
use pleat.Hash.{ribbon_hash, start}

-- `const G`.
abbrev pub margin : ℕ
margin = 2 ^ 14

abbrev pub saturating_add : ℕ → ℕ → ℕ
saturating_add a b = min (a + b) (2 ^ 64 - 1)

abbrev pub saturating_mul : ℕ → ℕ → ℕ
saturating_mul a b = min (a * b) (2 ^ 64 - 1)

-- The bounds of the ranges `t .. t + n`.
unfoldable pub bounds_from : ℕ → ℕ → ℕ → ℕ → ℕ → List ℕ
bounds_from per window num_slots zero t = []
bounds_from per window num_slots (suc n) t =
    min (saturating_mul (saturating_mul t per) window) num_slots
    ∷ bounds_from per window num_slots n (suc t)

-- `Vec::dedup`.
unfoldable pub dedup : List ℕ → List ℕ
dedup [] = []
dedup (x ∷ []) = x ∷ []
dedup (x ∷ y ∷ xs) = let rest = dedup (y ∷ xs) in if x == y then rest else x ∷ rest

-- `bounds.partition_point(|&b| b <= s)` of sorted bounds.
unfoldable pub partition_point : ℕ → List ℕ → ℕ
partition_point s [] = 0
partition_point s (b ∷ bounds) =
    let rest = partition_point s bounds in if leb b s then suc rest else 0

module _ (bounds : List ℕ) (num_starts seed : ℕ) where
  -- A key goes to the bucket of its range, or to the deferred keys if it starts near the upper bound.
  unfoldable pub assign : ℕ → List (List ℕ) → List ℕ → Run (List (List ℕ) × List ℕ)
  assign k buckets deferred = do
    let s = start (ribbon_hash k seed) num_starts
    let p = partition_point s bounds
    assert (ltb 0 p)
    hi ← unwrap (get_elem? bounds p)
    bucket ← unwrap (get_elem? buckets (p - 1))
    let near = ltb p (length bounds - 1) && leb hi (saturating_add s margin)
    done (
        if near
        then (buckets, deferred ++ (k ∷ []))
        else (set buckets (p - 1) (bucket ++ (k ∷ [])), deferred))

  unfoldable pub assign_loop : List ℕ → List (List ℕ) → List ℕ → Run (List (List ℕ) × List ℕ)
  assign_loop [] buckets deferred = done (buckets, deferred)
  assign_loop (k ∷ keys) buckets deferred = do
    a ← assign k buckets deferred
    assign_loop keys a.0 a.1

-- `split_at_mut` at each of the bounds from `x` on: the first slot and the rows of each range, and
-- the rows that are left.
unfoldable pub split_loop : ℕ → List ℕ → ℕ → List ℕ → Run (List (ℕ × List ℕ) × List ℕ)
split_loop x [] consumed rest = done ([], rest)
split_loop x (y ∷ bounds) consumed rest = do
  assert (leb x y)
  let len = y - x
  assert (leb len (length rest))
  more ← split_loop y bounds (consumed + len) (drop len rest)
  done ((consumed, take len rest) ∷ more.0, more.1)
