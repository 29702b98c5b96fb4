-- ===== src/Fingerprint.antt =====
-- `solution_fnv` of src/banding.rs and `solution_fnv_128` of src/banding128.rs: the fingerprint of a
-- solution's segments, by which the tests compare builds.
pub mod Laws
use pleat.Common.{ℕ, List, [], ◌∷◌, bit_xor}
use pleat.Word.{wrapping_mul}
use pleat.Format.{to_le_bytes}

-- The loop over the bytes of a segment.
unfoldable pub bytes_loop : ℕ → List ℕ → ℕ
bytes_loop fnv [] = fnv
bytes_loop fnv (b ∷ bytes) = bytes_loop (wrapping_mul 64 (bit_xor fnv b) 0x100000001b3) bytes

-- The loop over the segments, in words of `size` bytes.
unfoldable pub segments_loop : ℕ → ℕ → List ℕ → ℕ
segments_loop size fnv [] = fnv
segments_loop size fnv (seg ∷ segments) =
    segments_loop size (bytes_loop fnv (to_le_bytes size seg)) segments

unfoldable pub solution_fnv : List ℕ → ℕ
solution_fnv segments = segments_loop 8 0xcbf29ce484222325 segments

unfoldable pub solution_fnv_128 : List ℕ → ℕ
solution_fnv_128 segments = segments_loop 16 0xcbf29ce484222325 segments
