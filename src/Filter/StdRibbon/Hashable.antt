-- ===== src/Filter/StdRibbon/Hashable.antt =====
-- `StdRibbon::from_hashable` and `contains_hashable` of src/filter.rs.
use pleat.Common.{
  ℕ, ◌^◌, ◌≤◌, ◌<◌, ◌≡◌, ◌∙◌, ◌-◌, arith, true, ◌⊎◌, inl, inr, List, length, map, All, done, Result,
  ok, err,
}
use pleat.Filter.{BuildError, no_solving_seed, num_slots_for_128}
use pleat.Banding128.Seed.{Unsolvable}
use pleat.Filter.Ribbon.Laws.{All-map_hash, length-map_hash}
use pleat.Filter.StdRibbon.{StdRibbon, contains, from_hashable, contains_hashable}
use pleat.Filter.StdRibbon.Laws.{from_keys-Built, from_keys_pleated-eq}

module _ {ℓ} {K : Type ℓ} (hash_key : K → ℕ) (r : ℕ) (width : r ≤ 32) where
  -- For any `hash_key`, at most 32 columns and fewer than 2 ^ 43 items, the standard build from
  -- hashable items ends in a result: the error, and no choice of columns solves the equations of
  -- the items' keys under any ordinal seed below 64, or a filter that answers `true`, without a
  -- panic, for each of the items.
  pub from_hashable-contains_hashable_std :
      (items : List K)
      → length items < 2 ^ 43
      → (out : Result BuildError StdRibbon) × (from_hashable hash_key r items ≡ done out)
        × (((out ≡ err no_solving_seed)
              × ((o : ℕ)
                  → o < 64
                  → Unsolvable (num_slots_for_128 (length items) r - 127) o (map hash_key items)))
            ⊎ ((f : StdRibbon) × (out ≡ ok f)
                × All (λ k. contains_hashable hash_key r f k ≡ done true) items))
  unfolding from_hashable contains_hashable contains pleat.Banding128.contains
  from_hashable-contains_hashable_std items few =
      let few' : length (map hash_key items) < 2 ^ 43 =
        omega (arith, length-map_hash hash_key items) in
      let (out, run, built) = from_keys-Built r width (map hash_key items) few' in
      (
        out,
        from_keys_pleated-eq r width (map hash_key items) few' ∙ run,
        elim built [
          | inl (e, h) ↦ inl (e, rw (length-map_hash hash_key items) at h)
          | inr (f, e, found) ↦
              inr
                (f, e, All-map_hash hash_key (λ k. contains r f k ≡ done true) items found.answers)
        ],
      )
