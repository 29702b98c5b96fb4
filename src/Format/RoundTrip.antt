-- ===== src/Format/RoundTrip.antt =====
-- `decode` of src/format.rs on what `write_header` and `finish` write.
use pleat.Common.{
  ℕ, ◌+◌, ◌-◌, ◌*◌, ◌^◌, ◌==◌, ◌≤◌, ◌<◌, ◌≡◌, refl, ap, ◌∙◌, arith, ltb, le→ltb, true, false, List,
  [], ◌∷◌, ◌++◌, length, length-append, take, take-append, drop-append, take_all, done, slice,
  slice-done, ok,
}
use pleat.Format.{
  magic, header_len, checksum_len, fnv1a, finish, write_header, to_le_bytes, from_le_bytes,
  geometry, payload, fields, decode,
}
use native.Mathlib.Nat.{le-mul_of_pos_right}
use pleat.Format.Bytes.{fnv1a-lt, from_le_bytes-to_le_bytes}
use pleat.Format.Geometry.{Fits, Fits-geometry}

module _ (family r elem_size w seed num_starts segment_count : ℕ) (p : List ℕ)
    (f : Fits r elem_size w num_starts (length p)) where
  abbrev written : List ℕ
  written = write_header family r seed num_starts segment_count ++ p

  length-finish : length (finish written) ≡ length p + 40
  unfolding finish
  length-finish = length-append written (to_le_bytes 8 (fnv1a written)) ∙ omega arith

  module _ (pos : 0 < w) (size : 0 < elem_size) (short : length p + 40 < 2 ^ 64)
      (seed_u64 : seed < 2 ^ 64) (starts_u64 : num_starts < 2 ^ 64)
      (count : segment_count ≡ f.blocks * r) where
    count_u64 : segment_count < 2 ^ 64
    count_u64 =
        let words : f.blocks * r ≤ f.blocks * r * elem_size =
          le-mul_of_pos_right (f.blocks * r) size in
        omega (arith, words, f.bytes, count)

    payload-finish :
        payload (finish written) seed num_starts (ok (length p))
        ≡ done (ok (record { seed = seed; num_starts = num_starts }, p))
    unfolding payload finish
    payload-finish =
        let here : slice (finish written) header_len (length p)
            ≡ done (take (length p) (p ++ to_le_bytes 8 (fnv1a written))) =
          slice-done (finish written) header_len (length p) (omega (arith, length-finish)) in
        rw here (
          ap (λ q. done (ok (record { seed = seed; num_starts = num_starts }, q)))
            (take-append (length p) p (to_le_bytes 8 (fnv1a written)) refl))

    fields-finish :
        fields (finish written) family r elem_size w
        ≡ done (ok (record { seed = seed; num_starts = num_starts }, p))
    unfolding fields finish
    fields-finish =
        let long : 40 ≤ length (finish written) = omega (arith, length-finish) in
        let fam : (family == family) ≡ true = ground arith in
        let width : (r == r) ≡ true = ground arith in
        let res : slice (finish written) 6 2 ≡ done (0 ∷ 0 ∷ []) =
          slice-done (finish written) 6 2 (omega arith) in
        let s8 : slice (finish written) 8 8 ≡ done (to_le_bytes 8 seed) =
          slice-done (finish written) 8 8 (omega arith) in
        let s16 : slice (finish written) 16 8 ≡ done (to_le_bytes 8 num_starts) =
          slice-done (finish written) 16 8 (omega arith) in
        let s24 : slice (finish written) 24 8 ≡ done (to_le_bytes 8 segment_count) =
          slice-done (finish written) 24 8 (omega arith) in
        let geo : geometry r elem_size w num_starts segment_count (length p + 40) ≡ ok (length p) =
          ap (λ (c : ℕ). geometry r elem_size w num_starts c (length p + 40)) count
          ∙ Fits-geometry r elem_size w num_starts (length p) f pos size short in
        rw
          (
            fam,
            width,
            res,
            s8,
            s16,
            s24,
            from_le_bytes-to_le_bytes 8 seed seed_u64,
            from_le_bytes-to_le_bytes 8 num_starts starts_u64,
            from_le_bytes-to_le_bytes 8 segment_count count_u64,
            length-finish,
            geo,
          )
          payload-finish

    -- The header and the payload that were written are decoded.
    pub decode-finish :
        decode (finish written) family r elem_size w
        ≡ done (ok (record { seed = seed; num_starts = num_starts }, p))
    unfolding decode finish
    decode-finish =
        let trailer : List ℕ = to_le_bytes 8 (fnv1a written) in
        let at_sum : ℕ = length (finish written) - checksum_len in
        let n : length written ≡ at_sum = omega (arith, length-finish) in
        let far : ltb (length (finish written)) 40 ≡ false =
          le→ltb (length (finish written)) 40 (omega (arith, length-finish)) in
        let first : slice (finish written) 0 4 ≡ done magic =
          slice-done (finish written) 0 4 (omega (arith, length-finish)) in
        let body : slice (finish written) 0 at_sum ≡ done written =
          slice-done (finish written) 0 at_sum (omega (arith, length-finish))
          ∙ ap done (take-append at_sum written trailer n) in
        let eight : length trailer ≡ length (finish written) - at_sum =
          omega (arith, length-finish) in
        let stored : slice (finish written) at_sum (length (finish written) - at_sum)
            ≡ done trailer =
          slice-done (finish written) at_sum (length (finish written) - at_sum) (omega arith)
          ∙ ap done (
              ap (take (length (finish written) - at_sum)) (drop-append at_sum written trailer n)
              ∙ take_all (length (finish written) - at_sum) trailer eight) in
        let sum : (fnv1a written == from_le_bytes trailer) ≡ true =
          let e : from_le_bytes trailer ≡ fnv1a written =
            from_le_bytes-to_le_bytes 8 (fnv1a written) (fnv1a-lt written) in
          ground (arith, e) in
        rw (far, first, stored, body, sum) fields-finish
