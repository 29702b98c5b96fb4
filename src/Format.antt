-- ===== src/Format.antt =====
-- src/format.rs: the serialized form of a filter, for both families. `usize` has 64 bits, so that
-- its conversions to and from `u64` lose nothing.
pub mod Bytes
pub mod Geometry
pub mod Decode
pub mod RoundTrip
pub mod Checksum
pub mod Corrupt
pub mod Parts
pub mod Canonical
use pleat.Common.{
  ℕ, zero, suc, ◌+◌, ◌-◌, ◌*◌, ◌/◌, ◌%◌, ◌^◌, ◌==◌, ltb, if◌then◌else◌, Bool, true, false, not,
  ◌&&◌, ◌||◌, List, [], ◌∷◌, ◌++◌, length, map, get_elem?, take, drop, bit_xor, Option, some, none,
  Run, done, ◌>>=◌, unwrap, slice, Result, ok, err, and_then, ok_or,
}
use pleat.Word.{wrapping_mul}

pub data DecodeError : Type 0 where
  too_short : DecodeError
  bad_magic : DecodeError
  wrong_family : DecodeError
  wrong_result_width : DecodeError
  non_zero_reserved : DecodeError
  bad_geometry : DecodeError
  length_mismatch : DecodeError
  bad_seed : DecodeError
  bad_checksum : DecodeError

-- `*b"PLT1"`.
abbrev pub magic : List ℕ
magic = 0x50 ∷ 0x4c ∷ 0x54 ∷ 0x31 ∷ []

abbrev pub header_len : ℕ
header_len = 32

abbrev pub checksum_len : ℕ
checksum_len = 8

abbrev pub family_homog : ℕ
family_homog = 0

abbrev pub family_std : ℕ
family_std = 1

-- The loop of `fnv1a`, from the hash `h`.
unfoldable pub fnv_loop : ℕ → List ℕ → ℕ
fnv_loop h [] = h
fnv_loop h (b ∷ bytes) = fnv_loop (wrapping_mul 64 (bit_xor h b) 0x100000001b3) bytes

unfoldable pub fnv1a : List ℕ → ℕ
fnv1a bytes = fnv_loop 0xcbf29ce484222325 bytes

-- `to_le_bytes` and `from_le_bytes` of a word of `n` bytes.
abbrev pub to_le_bytes : ℕ → ℕ → List ℕ
to_le_bytes zero x = []
to_le_bytes (suc n) x = x % 256 ∷ to_le_bytes n (x / 256)

abbrev pub from_le_bytes : List ℕ → ℕ
from_le_bytes [] = 0
from_le_bytes (b ∷ bytes) = b + 256 * from_le_bytes bytes

pub record Header : Type 0 where
  pub seed : ℕ
  pub num_starts : ℕ

abbrev pub write_header : ℕ → ℕ → ℕ → ℕ → ℕ → List ℕ
write_header family r seed num_starts segment_count =
    magic
    ++ (family ∷ [])
    ++ (r ∷ [])
    ++ (0 ∷ 0 ∷ [])
    ++ to_le_bytes 8 seed
    ++ to_le_bytes 8 num_starts
    ++ to_le_bytes 8 segment_count

unfoldable pub finish : List ℕ → List ℕ
finish buf = buf ++ to_le_bytes 8 (fnv1a buf)

-- Equality of two slices.
abbrev pub same_bytes : List ℕ → List ℕ → Bool
same_bytes [] [] = true
same_bytes [] (y ∷ ys) = false
same_bytes (x ∷ xs) [] = false
same_bytes (x ∷ xs) (y ∷ ys) = (x == y) && same_bytes xs ys

-- The result of `checked_add` and `checked_mul`, from the exact one.
abbrev pub checked : ℕ → Option ℕ
checked x = if ltb x (2 ^ 64) then some x else none

-- `if fails { return Err(e) }`.
abbrev pub reject : Bool → DecodeError → Result DecodeError (Unit {0})
reject fails e = if fails then err e else ok tt

-- The checks of the geometry and of the length, with the payload's length as the result.
unfoldable pub geometry : ℕ → ℕ → ℕ → ℕ → ℕ → ℕ → Result DecodeError ℕ
geometry r elem_size w num_starts segment_count len =
    and_then (ok_or (checked (num_starts + (w - 1))) bad_geometry) λ num_slots.
      and_then
        (reject ((num_starts == 0) || not (num_slots % w == 0) || ltb num_slots (2 * w))
          bad_geometry)
        λ _. and_then (ok_or (checked (num_slots / w * r)) bad_geometry) λ expect_segments.
          and_then (reject (not (segment_count == expect_segments)) bad_geometry) λ _.
            and_then (ok_or (checked (segment_count * elem_size)) bad_geometry) λ payload_len.
              and_then (ok_or (checked (header_len + payload_len)) bad_geometry) λ with_header.
                and_then (ok_or (checked (with_header + checksum_len)) bad_geometry) λ total_len.
                  and_then (reject (not (total_len == len)) length_mismatch) λ _. ok payload_len

-- The end of `decode`: the header and the payload, once the geometry is known to be right.
unfoldable pub payload :
    List ℕ → ℕ → ℕ → Result DecodeError ℕ → Run (Result DecodeError (Header × List ℕ))
payload bytes seed num_starts (err e) = done (err e)
payload bytes seed num_starts (ok payload_len) = slice bytes header_len payload_len >>= λ p.
    done (ok (record { seed = seed; num_starts = num_starts }, p))

-- The part of `decode` after the checksum.
unfoldable pub fields : List ℕ → ℕ → ℕ → ℕ → ℕ → Run (Result DecodeError (Header × List ℕ))
fields bytes expected_family expected_r elem_size w = unwrap (get_elem? bytes 4) >>= λ family.
    if not (family == expected_family)
    then done (err wrong_family)
    else (unwrap (get_elem? bytes 5) >>= λ r.
        if not (r == expected_r)
        then done (err wrong_result_width)
        else (slice bytes 6 2 >>= λ reserved.
            if not (same_bytes reserved (0 ∷ 0 ∷ []))
            then done (err non_zero_reserved)
            else (slice bytes 8 8 >>= λ seed. slice bytes 16 8 >>= λ num_starts.
                slice bytes 24 8 >>= λ segment_count.
                payload bytes (from_le_bytes seed) (from_le_bytes num_starts) (
                  geometry r elem_size w (from_le_bytes num_starts) (from_le_bytes segment_count)
                    (length bytes)))))

unfoldable pub decode : List ℕ → ℕ → ℕ → ℕ → ℕ → Run (Result DecodeError (Header × List ℕ))
decode bytes expected_family expected_r elem_size w =
    if ltb (length bytes) (header_len + checksum_len)
    then done (err too_short)
    else (slice bytes 0 4 >>= λ head.
        if not (same_bytes head magic)
        then done (err bad_magic)
        else (let checksum_at = length bytes - checksum_len in
            slice bytes checksum_at (length bytes - checksum_at) >>= λ stored.
            slice bytes 0 checksum_at >>= λ body.
            if not (fnv1a body == from_le_bytes stored)
            then done (err bad_checksum)
            else fields bytes expected_family expected_r elem_size w))

-- The segments that a filter appends to the header, in words of `size` bytes.
unfoldable pub extend_segments : ℕ → List ℕ → List ℕ
extend_segments size [] = []
extend_segments size (s ∷ segments) = to_le_bytes size s ++ extend_segments size segments

-- `n` chunks of `chunks_exact(size)`, each read as a word.
unfoldable pub read_chunks : ℕ → ℕ → List ℕ → List ℕ
read_chunks size zero bytes = []
read_chunks size (suc n) bytes =
    from_le_bytes (take size bytes) ∷ read_chunks size n (drop size bytes)

abbrev pub read_segments : ℕ → List ℕ → List ℕ
read_segments size bytes = read_chunks size (length bytes / size) bytes
