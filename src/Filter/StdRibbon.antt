-- ===== src/Filter/StdRibbon.antt =====
-- `StdRibbon<R>` of src/filter.rs: the standard filter.
pub mod Laws
pub mod Store
pub mod Canonical
pub mod Relocate
pub mod Hashable
use mathlib.Core.Option
use pleat.Common.{
  ℕ, ◌+◌, ◌*◌, leb, if◌then◌else◌, Bool, List, ◌++◌, length, map, Run, done, ◌>>=◌, Result, ok, err,
  and_then, ok_or,
}
use pleat.Word.{cast}
use pleat.Banding128
use pleat.Banding128.{Solution128, w128, seed_count, from_parts, build_std128, build_std128_pleated}
use pleat.Format.{
  DecodeError, bad_seed, Header, decode, finish, write_header, extend_segments, read_segments,
  family_std,
}
use pleat.Filter
use pleat.Filter.{BuildError, no_solving_seed, default_window_shift}

pub record StdRibbon : Type 0 where
  pub soln : Solution128

unfoldable pub from_keys : ℕ → List ℕ → Run (Result BuildError StdRibbon)
from_keys r keys = do
  found ← build_std128 r keys
  done (ok_or (Option.map (λ s. record { soln = s }) found) no_solving_seed)

unfoldable pub from_keys_pleated : ℕ → List ℕ → Run (Result BuildError StdRibbon)
from_keys_pleated r keys = do
  found ← build_std128_pleated r keys default_window_shift
  done (ok_or (Option.map (λ s. record { soln = s }) found) no_solving_seed)

unfoldable pub contains : ℕ → StdRibbon → ℕ → Run Bool
contains r f key = Banding128.contains r f.soln key

unfoldable pub contains_batch : ℕ → StdRibbon → List ℕ → List Bool → Run (List Bool)
contains_batch r f keys out = Filter.contains_batch (contains r f) keys out

unfoldable pub size_bytes : StdRibbon → ℕ
size_bytes f = length f.soln.segments * 16

unfoldable pub to_bytes : ℕ → StdRibbon → List ℕ
to_bytes r f = finish (
    write_header family_std (cast 8 r) f.soln.ordinal_seed f.soln.num_starts
      (cast 64 (length f.soln.segments))
    ++ extend_segments 16 f.soln.segments)

-- The end of `from_bytes`.
unfoldable pub checked_seed : Header × List ℕ → Result DecodeError StdRibbon
checked_seed d =
    if leb seed_count d.0.seed
    then err bad_seed
    else ok (record { soln = from_parts d.0.num_starts d.0.seed (read_segments 16 d.1) })

unfoldable pub from_bytes : ℕ → List ℕ → Run (Result DecodeError StdRibbon)
from_bytes r bytes = do
  decoded ← decode bytes family_std (cast 8 r) 16 w128
  done (and_then decoded checked_seed)

unfoldable pub relocate_storage : (List ℕ → List ℕ) → StdRibbon → Run StdRibbon
relocate_storage relocate f = do
  soln ← Banding128.relocate_storage relocate f.soln
  done (record { soln = soln })

-- `crate::hash_key` is a parameter, as in `Ribbon`.
module _ {ℓ} {K : Type ℓ} (hash_key : K → ℕ) where
  unfoldable pub from_hashable : ℕ → List K → Run (Result BuildError StdRibbon)
  from_hashable r items = from_keys_pleated r (map hash_key items)

  unfoldable pub contains_hashable : ℕ → StdRibbon → K → Run Bool
  contains_hashable r f item = contains r f (hash_key item)
