-- ===== src/Tests/Storage.antt =====
-- The stored form of src/format.rs and the fuzz targets at concrete inputs.
use native.Mathlib.Omega.{arith}
use pleat.Common.{
  ℕ, ◌≡◌, ◌≢◌, refl, List, [], ◌∷◌, ◌++◌, replicate, All, All-append, All-replicate, done, ok,
  and_then,
}
use pleat.Hash.{ribbon_hash}
use pleat.Hash.Injective.{ribbon_hash_distinct}
use pleat.Format
use pleat.Format.{
  Header, write_header, to_le_bytes, family_homog, fnv1a, fnv_loop, fields, geometry, payload,
}
use pleat.Format.Checksum.{IsByte}
use pleat.Format.Corrupt.{Refused, decode_corrupt}
use pleat.Fuzz
use pleat.Fuzz.Laws.{fuzz_decode-done, fuzz_roundtrip-done}

-- An empty filter of two blocks and seven columns, around its byte at 40.
abbrev front : List ℕ
front = write_header family_homog 7 5 65 14 ++ replicate 8 0

abbrev back : List ℕ
back = replicate 103 0 ++ to_le_bytes 8 5405683924667603025

abbrev empty_filter : Header × List ℕ
empty_filter = (record { seed = 5; num_starts = 65 }, replicate 112 0)

empty_filter_decoded :
    Format.decode (front ++ (0 ∷ back)) family_homog 7 8 64 ≡ done (ok empty_filter)
unfolding Format.decode fnv1a fnv_loop fields geometry payload and_then
empty_filter_decoded = refl

back_bytes : All IsByte back
back_bytes =
    All-append IsByte (replicate 103 0) (to_le_bytes 8 5405683924667603025)
      (All-replicate IsByte 103 0 (omega arith))
      (
        omega arith,
        (
          omega arith,
          (
            omega arith,
            (omega arith, (omega arith, (omega arith, (omega arith, (omega arith, tt))))),
          ),
        ),
      )

decode_corrupt_example : Refused (Format.decode (front ++ (32 ∷ back)) family_homog 7 8 64)
decode_corrupt_example =
    decode_corrupt family_homog 7 8 64 front back 0 32 empty_filter (omega arith) (omega arith)
      back_bytes (omega arith) empty_filter_decoded

fuzz_decode-done_example : Fuzz.decode (80 ∷ 76 ∷ 84 ∷ []) ≡ done tt
fuzz_decode-done_example = fuzz_decode-done (80 ∷ 76 ∷ 84 ∷ [])

fuzz_roundtrip-done_example : Fuzz.roundtrip (3 ∷ 1 ∷ 3 ∷ []) ≡ done tt
fuzz_roundtrip-done_example = fuzz_roundtrip-done (3 ∷ 1 ∷ 3 ∷ [])

ribbon_hash_distinct_example : ribbon_hash 5 9 ≢ ribbon_hash 6 9
ribbon_hash_distinct_example = ribbon_hash_distinct 5 6 9 (omega arith) (omega arith) (omega arith)
