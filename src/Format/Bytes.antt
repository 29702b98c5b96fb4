-- ===== src/Format/Bytes.antt =====
-- Words as little-endian bytes and back, and the checksum, as src/format.rs and src/filter.rs use
-- them.
use native.Mathlib.Nat.{pow-suc}
use pleat.Common.{
  ℕ, zero, suc, ◌*◌, ◌/◌, ◌^◌, ◌<◌, ◌≡◌, refl, ap, ap₂, arith, List, [], ◌∷◌, length, length-append,
  drop, take-append, drop-append, All, bit_xor,
}
use pleat.Word.{wrapping_mul}
use pleat.Format.{to_le_bytes, from_le_bytes, extend_segments, read_chunks, fnv_loop, fnv1a}

pub length-to_le_bytes : (n x : ℕ) → length (to_le_bytes n x) ≡ n
length-to_le_bytes zero x = refl
length-to_le_bytes (suc n) x = ap suc (length-to_le_bytes n (x / 256))

pub from_le_bytes-to_le_bytes : (n x : ℕ) → x < 256 ^ n → from_le_bytes (to_le_bytes n x) ≡ x
from_le_bytes-to_le_bytes zero x h = let p : x < 1 = h in omega arith
from_le_bytes-to_le_bytes (suc n) x h =
    let p : x < 256 ^ n * 256 = rw (pow-suc 256 n) at h in
    omega (arith, from_le_bytes-to_le_bytes n (x / 256) (omega arith))

pub length-extend_segments :
    (size : ℕ) (segments : List ℕ) → length (extend_segments size segments) ≡ length segments * size
unfolding extend_segments
length-extend_segments size [] = omega arith
length-extend_segments size (s ∷ segments) = grind (
  arith,
  length-append (to_le_bytes size s) (extend_segments size segments),
  length-to_le_bytes size s,
  length-extend_segments size segments,
)

-- The segments are read back as they were written.
pub read_chunks-extend_segments :
    (size : ℕ) (segments : List ℕ)
    → All (λ s. s < 256 ^ size) segments
    → read_chunks size (length segments) (extend_segments size segments) ≡ segments
unfolding read_chunks extend_segments
read_chunks-extend_segments size [] h = refl
read_chunks-extend_segments size (s ∷ segments) h =
    let n : length (to_le_bytes size s) ≡ size = length-to_le_bytes size s in
    rw
      (
        take-append size (to_le_bytes size s) (extend_segments size segments) n,
        drop-append size (to_le_bytes size s) (extend_segments size segments) n,
      )
      (ap₂ ◌∷◌ (from_le_bytes-to_le_bytes size s h.0)
        (read_chunks-extend_segments size segments h.1))

pub length-read_chunks : (size n : ℕ) (bytes : List ℕ) → length (read_chunks size n bytes) ≡ n
unfolding read_chunks
length-read_chunks size zero bytes = refl
length-read_chunks size (suc n) bytes = ap suc (length-read_chunks size n (drop size bytes))

pub fnv_loop-lt : (bytes : List ℕ) (h : ℕ) → h < 2 ^ 64 → fnv_loop h bytes < 2 ^ 64
unfolding fnv_loop
fnv_loop-lt [] h p = p
fnv_loop-lt (b ∷ bytes) h p =
    fnv_loop-lt bytes (wrapping_mul 64 (bit_xor h b) 0x100000001b3) (omega arith)

-- The checksum is a word of 64 bits.
pub fnv1a-lt : (bytes : List ℕ) → fnv1a bytes < 2 ^ 64
unfolding fnv1a
fnv1a-lt bytes = fnv_loop-lt bytes 0xcbf29ce484222325 (omega arith)
