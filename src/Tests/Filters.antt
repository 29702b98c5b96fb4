-- ===== src/Tests/Filters.antt =====
-- The filters of src/filter.rs, stored and relocated, at concrete inputs.
use native.Mathlib.Omega.{arith}
use pleat.Common.{
  ℕ, zero, suc, ◌/◌, ◌≡◌, refl, List, [], ◌∷◌, ◌++◌, replicate, All, All-append, All-replicate,
  done, panic, ok, err, Result, and_then, Bool, true, false, if◌then◌else◌, length, take, drop, ◌⊎◌,
  ◌≢◌, ◌<◌, ◌-◌, Returns,
}
use pleat.Banding
use pleat.Banding128
use pleat.Filter.Ribbon
use pleat.Filter.Ribbon.{Ribbon}
use pleat.Banding.Query.{IsSolution}
use pleat.Banding128.Query.{IsSolution as IsSolution_128}
use pleat.Banding128.Seed.{Unsolvable}
use pleat.Filter.{BuildError, no_solving_seed, num_slots_for_128}
use pleat.Filter.Ribbon.Store.{held, held-Stores}
use pleat.Filter.StdRibbon.Store.{held as held_128, held-Stores as held_128-Stores}
use pleat.Filter.Ribbon.Relocate.{relocate_storage-contains}
use pleat.Filter.StdRibbon.Relocate.{relocate_storage-contains_std}
use pleat.Filter.StdRibbon.Hashable.{from_hashable-contains_hashable_std}
use pleat.Filter.Ribbon.Canonical.{to_bytes-from_bytes}
use pleat.Filter.StdRibbon
use pleat.Filter.StdRibbon.{StdRibbon, checked_seed}
use pleat.Filter.StdRibbon.Canonical.{to_bytes-from_bytes_std}
use pleat.Format
use pleat.Format.{
  magic, write_header, to_le_bytes, family_homog, family_std, fnv1a, fnv_loop, fields, geometry,
  payload, read_chunks,
}
use pleat.Format.Checksum.{IsByte}
use pleat.Fingerprint.{solution_fnv, solution_fnv_128}
use pleat.Fingerprint.Laws.{solution_fnv-to_bytes}

word_bytes : (n x : ℕ) → All IsByte (to_le_bytes n x)
word_bytes zero x = tt
word_bytes (suc n) x = (omega arith, word_bytes n (x / 256))

stored_bytes :
    (family r seed num_starts segment_count n sum : ℕ)
    → IsByte family
    → IsByte r
    → All IsByte (
        write_header family r seed num_starts segment_count ++ (replicate n 0 ++ to_le_bytes 8 sum))
stored_bytes family r seed num_starts segment_count n sum f w =
    let body : All IsByte (replicate n 0 ++ to_le_bytes 8 sum) =
      All-append IsByte (replicate n 0) (to_le_bytes 8 sum) (All-replicate IsByte n 0 (omega arith))
        (word_bytes 8 sum) in
    let words : All IsByte
        (to_le_bytes 8 seed ++ to_le_bytes 8 num_starts ++ to_le_bytes 8 segment_count) =
      All-append IsByte (to_le_bytes 8 seed)
        (to_le_bytes 8 num_starts ++ to_le_bytes 8 segment_count) (word_bytes 8 seed)
        (All-append IsByte (to_le_bytes 8 num_starts) (to_le_bytes 8 segment_count)
          (word_bytes 8 num_starts) (word_bytes 8 segment_count)) in
    let head : All IsByte magic = (omega arith, (omega arith, (omega arith, (omega arith, tt)))) in
    let fixed : All IsByte (family ∷ r ∷ 0 ∷ 0 ∷ []) = (f, (w, (omega arith, (omega arith, tt)))) in
    All-append IsByte (write_header family r seed num_starts segment_count)
      (replicate n 0 ++ to_le_bytes 8 sum)
      (All-append IsByte magic
        ((family ∷ r ∷ 0 ∷ 0 ∷ [])
          ++ (to_le_bytes 8 seed ++ to_le_bytes 8 num_starts ++ to_le_bytes 8 segment_count))
        head
        (All-append IsByte (family ∷ r ∷ 0 ∷ 0 ∷ [])
          (to_le_bytes 8 seed ++ to_le_bytes 8 num_starts ++ to_le_bytes 8 segment_count) fixed
          words))
      body

-- Two blocks of seven columns, all zero, of either family.
abbrev homog_bytes : List ℕ
homog_bytes =
    write_header family_homog 7 5 65 14 ++ (replicate 112 0 ++ to_le_bytes 8 5405683924667603025)

abbrev homog_filter : Ribbon
homog_filter = record { soln = Banding.from_parts 65 5 (replicate 14 0) }

homog_read : Ribbon.from_bytes 7 homog_bytes ≡ done (ok homog_filter)
unfolding Ribbon.from_bytes Format.decode fnv1a fnv_loop fields geometry payload and_then
    read_chunks
homog_read = refl

to_bytes-from_bytes_example : Ribbon.to_bytes 7 homog_filter ≡ homog_bytes
to_bytes-from_bytes_example =
    to_bytes-from_bytes 7 homog_bytes homog_filter (omega arith)
      (stored_bytes 0 7 5 65 14 112 5405683924667603025 (omega arith) (omega arith)) homog_read

abbrev std_bytes : List ℕ
std_bytes =
    write_header family_std 7 3 129 14 ++ (replicate 224 0 ++ to_le_bytes 8 9514678063265737910)

abbrev std_filter : StdRibbon
std_filter = record { soln = Banding128.from_parts 129 3 (replicate 14 0) }

std_read : StdRibbon.from_bytes 7 std_bytes ≡ done (ok std_filter)
unfolding StdRibbon.from_bytes checked_seed Format.decode fnv1a fnv_loop fields geometry payload
    and_then read_chunks
std_read = refl

to_bytes-from_bytes_std_example : StdRibbon.to_bytes 7 std_filter ≡ std_bytes
to_bytes-from_bytes_std_example =
    to_bytes-from_bytes_std 7 std_bytes std_filter (omega arith)
      (stored_bytes 1 7 3 129 14 224 9514678063265737910 (omega arith) (omega arith)) std_read

homog_filter-IsSolution : IsSolution 7 homog_filter.soln (held 7 homog_filter.soln.segments)
homog_filter-IsSolution = record {
  blocks = 2;
  starts = omega arith;
  starts_u64 = omega arith;
  slots = refl;
  words = refl;
  stores = held-Stores 7 2 homog_filter.soln.segments;
}

relocate_storage-contains_example :
    ((length (take 14 homog_filter.soln.segments) ≡ length homog_filter.soln.segments)
      × (f' : Ribbon) × (Ribbon.relocate_storage (take 14) homog_filter ≡ done f')
      × (f'.soln.segments ≡ take 14 homog_filter.soln.segments)
      × ((key : ℕ) → Returns (λ (b : Bool). Unit {0}) (Ribbon.contains 7 f' key)))
    ⊎ ((length (take 14 homog_filter.soln.segments) ≢ length homog_filter.soln.segments)
        × (Ribbon.relocate_storage (take 14) homog_filter ≡ panic))
relocate_storage-contains_example =
    relocate_storage-contains 7 homog_filter (held 7 homog_filter.soln.segments) (take 14)
      homog_filter-IsSolution

std_filter-IsSolution : IsSolution_128 7 std_filter.soln (held_128 7 std_filter.soln.segments)
std_filter-IsSolution = record {
  blocks = 2;
  starts = omega arith;
  starts_u64 = omega arith;
  slots = refl;
  words = refl;
  stores = held_128-Stores 7 2 std_filter.soln.segments;
}

relocate_storage-contains_std_example :
    ((length (take 14 std_filter.soln.segments) ≡ length std_filter.soln.segments)
      × (f' : StdRibbon) × (StdRibbon.relocate_storage (take 14) std_filter ≡ done f')
      × (f'.soln.segments ≡ take 14 std_filter.soln.segments)
      × ((key : ℕ) → Returns (λ (b : Bool). Unit {0}) (StdRibbon.contains 7 f' key)))
    ⊎ ((length (take 14 std_filter.soln.segments) ≢ length std_filter.soln.segments)
        × (StdRibbon.relocate_storage (take 14) std_filter ≡ panic))
relocate_storage-contains_std_example =
    relocate_storage-contains_std 7 std_filter (held_128 7 std_filter.soln.segments) (take 14)
      std_filter-IsSolution

abbrev bool_key : Bool → ℕ
bool_key b = if b then 5 else 6

from_hashable-contains_hashable_std_example :
    (out : Result BuildError StdRibbon) × (StdRibbon.from_hashable bool_key 7 (true ∷ false ∷ [])
      ≡ done out)
    × (((out ≡ err no_solving_seed)
          × ((o : ℕ) → o < 64 → Unsolvable (num_slots_for_128 2 7 - 127) o (5 ∷ 6 ∷ [])))
        ⊎ ((f : StdRibbon) × (out ≡ ok f)
            × All
                (λ k. StdRibbon.contains_hashable bool_key 7 f k ≡ done true)
                (true ∷ false ∷ [])))
from_hashable-contains_hashable_std_example =
    from_hashable-contains_hashable_std bool_key 7 (omega arith) (true ∷ false ∷ []) (omega arith)

solution_fnv-to_bytes_example :
    (solution_fnv homog_filter.soln.segments
      ≡ fnv1a (
          take
            (length (Ribbon.to_bytes 7 homog_filter) - 40)
            (drop 32 (Ribbon.to_bytes 7 homog_filter))))
    × (solution_fnv_128 std_filter.soln.segments
        ≡ fnv1a (
            take
              (length (StdRibbon.to_bytes 7 std_filter) - 40)
              (drop 32 (StdRibbon.to_bytes 7 std_filter))))
solution_fnv-to_bytes_example = solution_fnv-to_bytes 7 homog_filter std_filter
