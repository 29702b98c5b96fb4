-- ===== src/Filter/Ribbon.antt =====
-- `Ribbon<R>` of src/filter.rs: the homogeneous filter.
pub mod Laws
pub mod Store
pub mod Canonical
pub mod Relocate
use pleat.Common.{
  ℕ, ◌+◌, ◌-◌, ◌*◌, Bool, List, ◌++◌, length, map, Run, done, ◌>>=◌, ◌>>◌, Result, ok, and_then,
}
use pleat.Hash.{ribbon_hash, start}
use pleat.Pleat
use pleat.Pleat.{fold}
use pleat.Banding
use pleat.Banding.{Solution, w, from_parts}
use pleat.Word.{cast}
use pleat.Format.{
  DecodeError, decode, finish, write_header, extend_segments, read_segments, family_homog,
}
use pleat.Filter.{num_slots_for, window_size, default_window_shift}
use pleat.Filter

pub record Ribbon : Type 0 where
  pub soln : Solution

unfoldable pub from_keys_seeded : ℕ → List ℕ → ℕ → Run Ribbon
from_keys_seeded r keys seed = do
  b ← Banding.new (num_slots_for (length keys) r) seed
  b' ← Banding.add_all b keys
  done (record { soln = Banding.solve r b' })

unfoldable pub from_keys : ℕ → List ℕ → Run Ribbon
unfolding from_keys_seeded
from_keys r keys = from_keys_seeded r keys 0

unfoldable pub from_keys_pleated_seeded : ℕ → List ℕ → ℕ → ℕ → Run Ribbon
from_keys_pleated_seeded r keys seed window_shift = do
  _ ← window_size window_shift
  let num_slots = num_slots_for (length keys) r
  let num_starts = num_slots - w + 1
  plan ← Pleat.new num_starts window_shift
  ordered ← fold plan keys (λ k. start (ribbon_hash k seed) num_starts)
  b ← Banding.new num_slots seed
  b' ← Banding.add_all b ordered.0
  done (record { soln = Banding.solve r b' })

unfoldable pub from_keys_pleated : ℕ → List ℕ → Run Ribbon
unfolding from_keys_pleated_seeded
from_keys_pleated r keys = from_keys_pleated_seeded r keys 0 default_window_shift

unfoldable pub contains : ℕ → Ribbon → ℕ → Run Bool
contains r f key = Banding.contains r f.soln key

-- `contains` on each key of a batch.
unfoldable pub contains_batch : ℕ → Ribbon → List ℕ → List Bool → Run (List Bool)
contains_batch r f keys out = Filter.contains_batch (contains r f) keys out

unfoldable pub size_bytes : Ribbon → ℕ
size_bytes f = length f.soln.segments * 8

unfoldable pub to_bytes : ℕ → Ribbon → List ℕ
to_bytes r f = finish (
    write_header family_homog (cast 8 r) f.soln.raw_seed f.soln.num_starts
      (cast 64 (length f.soln.segments))
    ++ extend_segments 8 f.soln.segments)

unfoldable pub from_bytes : ℕ → List ℕ → Run (Result DecodeError Ribbon)
from_bytes r bytes = do
  decoded ← decode bytes family_homog (cast 8 r) 8 w
  done (
      and_then decoded
        (λ d. ok (record { soln = from_parts d.0.num_starts d.0.seed (read_segments 8 d.1) })))

unfoldable pub relocate_storage : (List ℕ → List ℕ) → Ribbon → Run Ribbon
relocate_storage relocate f = do
  soln ← Banding.relocate_storage relocate f.soln
  done (record { soln = soln })

-- `crate::hash_key`, which hashes by a type's own `Hash` and the crate xxhash, is a parameter.
module _ {ℓ} {K : Type ℓ} (hash_key : K → ℕ) where
  unfoldable pub from_hashable : ℕ → List K → Run Ribbon
  from_hashable r items = from_keys_pleated r (map hash_key items)

  unfoldable pub contains_hashable : ℕ → Ribbon → K → Run Bool
  contains_hashable r f item = contains r f (hash_key item)
