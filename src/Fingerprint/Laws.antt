-- ===== src/Fingerprint/Laws.antt =====
-- `solution_fnv` and `solution_fnv_128`, beside the checksum and the stored form of src/format.rs.
use pleat.Common.{
  ℕ, ◌-◌, ◌≡◌, refl, sym, ap, ◌∙◌, arith, List, [], ◌∷◌, ◌++◌, length, length-append, take, drop,
  take-append, drop-append, append_assoc, bit_xor,
}
use pleat.Word.{wrapping_mul, cast}
use pleat.Format.{
  fnv_loop, fnv1a, to_le_bytes, extend_segments, finish, write_header, family_homog, family_std,
}
use pleat.Format.Bytes.{length-to_le_bytes}
use pleat.Fingerprint.{bytes_loop, segments_loop, solution_fnv, solution_fnv_128}
use pleat.Filter.Ribbon
use pleat.Filter.Ribbon.{Ribbon}
use pleat.Filter.StdRibbon
use pleat.Filter.StdRibbon.{StdRibbon}

bytes_loop-fnv_loop :
    (bytes rest : List ℕ) (fnv : ℕ)
    → fnv_loop fnv (bytes ++ rest) ≡ fnv_loop (bytes_loop fnv bytes) rest
unfolding bytes_loop fnv_loop
bytes_loop-fnv_loop [] rest fnv = refl
bytes_loop-fnv_loop (b ∷ bytes) rest fnv =
    bytes_loop-fnv_loop bytes rest (wrapping_mul 64 (bit_xor fnv b) 0x100000001b3)

segments_loop-fnv_loop :
    (size : ℕ) (segments : List ℕ) (fnv : ℕ)
    → segments_loop size fnv segments ≡ fnv_loop fnv (extend_segments size segments)
unfolding segments_loop extend_segments fnv_loop
segments_loop-fnv_loop size [] fnv = refl
segments_loop-fnv_loop size (seg ∷ segments) fnv =
    segments_loop-fnv_loop size segments (bytes_loop fnv (to_le_bytes size seg))
    ∙ sym (bytes_loop-fnv_loop (to_le_bytes size seg) (extend_segments size segments) fnv)

-- What `finish` writes after a header of 32 bytes, without the checksum.
finish-payload :
    (head p : List ℕ)
    → length head ≡ 32
    → take (length (finish (head ++ p)) - 40) (drop 32 (finish (head ++ p))) ≡ p
unfolding finish
finish-payload head p e =
    let sum : List ℕ = to_le_bytes 8 (fnv1a (head ++ p)) in
    let size : length ((head ++ p) ++ sum) - 40 ≡ length p = omega (
      arith,
      e,
      length-append (head ++ p) sum,
      length-append head p,
      length-to_le_bytes 8 (fnv1a (head ++ p)),
    ) in
    let behind : drop 32 ((head ++ p) ++ sum) ≡ p ++ sum =
      ap (drop 32) (append_assoc head p sum) ∙ drop-append 32 head (p ++ sum) e in
    ap (λ (n : ℕ). take n (drop 32 ((head ++ p) ++ sum))) size
    ∙ ap (take (length p)) behind
    ∙ take-append (length p) p sum refl

-- The fingerprints of the segments of a homogeneous and of a standard filter are the checksums,
-- by `fnv1a`, of the bytes that `to_bytes` writes between the header and the trailer.
pub solution_fnv-to_bytes :
    (r : ℕ) (f : Ribbon) (s : StdRibbon)
    → (solution_fnv f.soln.segments
        ≡ fnv1a (take (length (Ribbon.to_bytes r f) - 40) (drop 32 (Ribbon.to_bytes r f))))
      × (solution_fnv_128 s.soln.segments
          ≡ fnv1a (take (length (StdRibbon.to_bytes r s) - 40) (drop 32 (StdRibbon.to_bytes r s))))
unfolding solution_fnv solution_fnv_128 fnv1a Ribbon.to_bytes StdRibbon.to_bytes
solution_fnv-to_bytes r f s = (
  segments_loop-fnv_loop 8 f.soln.segments 0xcbf29ce484222325
      ∙ ap (fnv_loop 0xcbf29ce484222325) (
          sym (
            finish-payload
              (write_header family_homog (cast 8 r) f.soln.raw_seed f.soln.num_starts
                (cast 64 (length f.soln.segments)))
              (extend_segments 8 f.soln.segments) refl)),
  segments_loop-fnv_loop 16 s.soln.segments 0xcbf29ce484222325
      ∙ ap (fnv_loop 0xcbf29ce484222325) (
          sym (
            finish-payload
              (write_header family_std (cast 8 r) s.soln.ordinal_seed s.soln.num_starts
                (cast 64 (length s.soln.segments)))
              (extend_segments 16 s.soln.segments) refl)),
)
