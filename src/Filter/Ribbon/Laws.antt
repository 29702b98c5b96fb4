-- ===== src/Filter/Ribbon/Laws.antt =====
-- The builds and queries of `Ribbon<R>` of src/filter.rs.
use mathlib.Core.List.{Perm}
use mathlib.Core.List.Perm
use mathlib.Core.Bool.{Bool-set}
use pleat.Common.{
  ℕ, suc, ◌+◌, ◌-◌, ◌^◌, ◌≤◌, ◌<◌, ◌≡◌, refl, sym, ap, ◌∙◌, arith, true, lt→ltb, List, [], ◌∷◌,
  length, length-perm, length-replicate, replicate, map, All, All-perm, Run, done, ◌>>=◌,
}
use pleat.Hash.{ribbon_hash, start}
use pleat.Hash.Bounds.{ribbon_hash-lt, start-lt}
use pleat.Pleat
use pleat.Pleat.{fold, num_windows}
use pleat.Pleat.Order.{pleat_into-perm}
use pleat.Banding.{Solution, w}
use pleat.Banding.Build.{Accepts}
use pleat.Banding.Laws.{build, build-contains, build-same}
use pleat.Filter.{num_slots_for, window_size, default_window_shift}
use pleat.Filter.Slots.{num_slots_for_blocks, num_slots_for_bounds}
use pleat.Filter.Ribbon.{
  Ribbon, from_keys_seeded, from_keys_pleated_seeded, from_keys_pleated, contains, from_hashable,
  contains_hashable,
}

abbrev pub wrap : Solution → Run Ribbon
wrap s = done (record { soln = s })

pub from_keys_seeded-build :
    (r : ℕ) (keys : List ℕ) (seed : ℕ)
    → from_keys_seeded r keys seed ≡ (build r (num_slots_for (length keys) r) seed keys >>= wrap)
unfolding from_keys_seeded build
from_keys_seeded-build r keys seed = ground arith

module _ (r : ℕ) (width : r ≤ 32) where
  -- For at most 32 columns and fewer than 2 ^ 44 keys, the homogeneous build in order of arrival
  -- neither panics nor runs out of fuel, and its filter answers `true`, without a panic, for each
  -- of the keys.
  pub from_keys_seeded-contains :
      (keys : List ℕ) (seed : ℕ)
      → length keys < 2 ^ 44
      → (f : Ribbon) × (from_keys_seeded r keys seed ≡ done f)
        × All (λ k. contains r f k ≡ done true) keys
  from_keys_seeded-contains keys seed few =
      let (lo, _, hi) = num_slots_for_bounds (length keys) r width few in
      let (s, run, all) =
        build-contains r (num_slots_for (length keys) r) seed (num_slots_for_blocks (length keys) r)
          (omega arith) (omega arith) keys in
      (record { soln = s }, from_keys_seeded-build r keys seed ∙ rw run, unfold contains in all)

  -- For at most 32 columns and fewer than 2 ^ 44 keys, the homogeneous build gives the same
  -- filter for any permutation of the keys.
  pub from_keys_seeded-perm :
      (keys keys' : List ℕ) (seed : ℕ)
      → length keys < 2 ^ 44
      → Perm keys keys'
      → from_keys_seeded r keys seed ≡ from_keys_seeded r keys' seed
  from_keys_seeded-perm keys keys' seed few p =
      let (lo, _, hi) = num_slots_for_bounds (length keys) r width few in
      from_keys_seeded-build r keys seed
      ∙ ap (λ m. m >>= wrap)
          (build-same r (num_slots_for (length keys) r) seed (num_slots_for_blocks (length keys) r)
            (omega arith) (omega arith) keys keys'
            (λ x h. All-perm (Accepts _ seed x) (λ k. Bool-set _ _) p h)
            (λ x h. All-perm (Accepts _ seed x) (λ k. Bool-set _ _) (Perm.symm p) h))
      ∙ ap (λ (n : ℕ). build r (num_slots_for n r) seed keys' >>= wrap) (length-perm p)
      ∙ sym (from_keys_seeded-build r keys' seed)

  -- For at most 32 columns, fewer than 2 ^ 44 keys and a window shift below 64, the pleated
  -- homogeneous build gives the same filter as the build in order of arrival, bit for bit.
  pub from_keys_pleated_seeded-eq :
      (keys : List ℕ) (seed window_shift : ℕ)
      → length keys < 2 ^ 44
      → window_shift < 64
      → from_keys_pleated_seeded r keys seed window_shift ≡ from_keys_seeded r keys seed
  from_keys_pleated_seeded-eq keys seed window_shift few shift =
      let num_slots : ℕ = num_slots_for (length keys) r in
      let num_starts : ℕ = num_slots - w + 1 in
      let (lo, _, hi) = num_slots_for_bounds (length keys) r width few in
      let (ordered, run, p) =
        pleat_into-perm (record { num_starts = num_starts; shift = window_shift })
          (λ k. start (ribbon_hash k seed) num_starts) keys (replicate (length keys) 0)
          (λ k.
            start-lt (ribbon_hash k seed) num_starts (ribbon_hash-lt k seed) (omega arith)
              (omega arith))
          (sym (length-replicate {A = ℕ} (length keys) 0)) in
      let same : length ordered.0 ≡ length keys = length-perm p in
      let reordered : from_keys_pleated_seeded r keys seed window_shift
          ≡ from_keys_seeded r ordered.0 seed =
        unfold from_keys_pleated_seeded from_keys_seeded window_size Pleat.new fold in
        rw (lt→ltb window_shift 64 shift, run, same) refl in
      reordered ∙ from_keys_seeded-perm ordered.0 keys seed (omega arith) p

  -- A pleated filter too answers `true` for each of its keys.
  pub from_keys_pleated_seeded-contains :
      (keys : List ℕ) (seed window_shift : ℕ)
      → length keys < 2 ^ 44
      → window_shift < 64
      → (f : Ribbon) × (from_keys_pleated_seeded r keys seed window_shift ≡ done f)
        × All (λ k. contains r f k ≡ done true) keys
  from_keys_pleated_seeded-contains keys seed window_shift few shift =
      let (f, run, all) = from_keys_seeded-contains keys seed few in
      (f, from_keys_pleated_seeded-eq keys seed window_shift few shift ∙ run, all)

module _ {ℓ} {K : Type ℓ} (hash_key : K → ℕ) where
  pub All-map_hash :
      (P : ℕ → Type 0) (items : List K)
      → All P (map hash_key items)
      → All (λ k. P (hash_key k)) items
  All-map_hash P [] h = tt
  All-map_hash P (k ∷ items) h = (h.0, All-map_hash P items h.1)

  pub length-map_hash : (items : List K) → length (map hash_key items) ≡ length items
  length-map_hash [] = refl
  length-map_hash (k ∷ items) = ap suc (length-map_hash items)

  module _ (r : ℕ) (width : r ≤ 32) where
    -- For any `hash_key`, at most 32 columns and fewer than 2 ^ 44 items, the build from hashable
    -- items does not panic, and its filter answers `true` for each of them.
    pub from_hashable-contains_hashable :
        (items : List K)
        → length items < 2 ^ 44
        → (f : Ribbon) × (from_hashable hash_key r items ≡ done f)
          × All (λ k. contains_hashable hash_key r f k ≡ done true) items
    from_hashable-contains_hashable items few =
        let (f, run, all) =
          from_keys_pleated_seeded-contains r width (map hash_key items) 0 default_window_shift
            (omega (arith, length-map_hash items)) (omega arith) in
        (
          f,
          unfold from_hashable from_keys_pleated in run,
          unfold contains_hashable in All-map_hash (λ k. contains r f k ≡ done true) items all,
        )
