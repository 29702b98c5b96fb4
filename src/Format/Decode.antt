-- ===== src/Format/Decode.antt =====
-- `decode` of src/format.rs on any bytes.
use native.Mathlib.Decide.{dec_lt}
use pleat.Common.{
  ℕ, ◌+◌, ◌-◌, ◌==◌, ◌≤◌, ◌<◌, ◌≡◌, refl, ap, ◌∙◌, arith, ltb, false, List, [], ◌∷◌, length, take,
  drop, get_or, get_elem?, get_elem?-eq-get_or, done, unwrap, slice-done, length-slice, Result, ok,
  err, OnOk, Returns, Bool-cases, inl, inr, lt→ltb, slice,
}
use pleat.Format.{
  DecodeError, too_short, bad_magic, bad_checksum, wrong_family, wrong_result_width,
  non_zero_reserved, Header, magic, header_len, checksum_len, fnv1a, from_le_bytes, same_bytes,
  geometry, payload, fields, decode,
}
use pleat.Format.Geometry.{Fits, Passed, geometry-Fits}

-- What `decode` may return: an error, or a header with a payload that fits it.
abbrev pub Accepted : ℕ → ℕ → ℕ → Result DecodeError (Header × List ℕ) → Type 0
Accepted r elem_size w = OnOk (λ a. Fits r elem_size w a.0.num_starts (length a.1))

payload-Returns :
    (r elem_size w : ℕ) (bytes : List ℕ) (seed num_starts segment_count : ℕ)
    (g : Result DecodeError ℕ)
    → OnOk (Passed r elem_size w num_starts segment_count (length bytes)) g
    → Returns (Accepted r elem_size w) (payload bytes seed num_starts g)
unfolding payload OnOk
payload-Returns r elem_size w bytes seed num_starts segment_count (err e) h = (err e, refl, tt)
payload-Returns r elem_size w bytes seed num_starts segment_count (ok n) (f, len, count) =
    let inside : header_len + n ≤ length bytes = omega (arith, len) in
    (
      ok (record { seed = seed; num_starts = num_starts }, take n (drop header_len bytes)),
      rw (slice-done bytes header_len n inside),
      record {
        blocks = f.blocks;
        starts = f.starts;
        slots = f.slots;
        two_blocks = f.two_blocks;
        slots_u64 = f.slots_u64;
        bytes = length-slice bytes header_len n inside ∙ f.bytes;
      },
    )

module _ (bytes : List ℕ) (expected_family expected_r elem_size w : ℕ) (pos : 0 < w) where
  byte : (i : ℕ) → i < length bytes → unwrap (get_elem? bytes i) ≡ done (get_or bytes i 0)
  byte i h = ap unwrap (get_elem?-eq-get_or bytes i 0 h)

  fields-Returns :
      40 ≤ length bytes
      → Returns
          (Accepted expected_r elem_size w)
          (fields bytes expected_family expected_r elem_size w)
  unfolding fields OnOk
  fields-Returns len = elim (Bool-cases (get_or bytes 4 0 == expected_family)) [
    | inr e ↦ (err wrong_family, rw (byte 4 (omega arith), e) refl, tt)
    | inl family ↦ elim (Bool-cases (get_or bytes 5 0 == expected_r)) [
      | inr e ↦ (
        err wrong_result_width,
        rw (byte 4 (omega arith), family, byte 5 (omega arith), e) refl,
        tt,
      )
      | inl width ↦ elim (Bool-cases (same_bytes (take 2 (drop 6 bytes)) (0 ∷ 0 ∷ []))) [
        | inr e ↦ (
          err non_zero_reserved,
          rw
              (
                byte 4 (omega arith),
                family,
                byte 5 (omega arith),
                width,
                slice-done bytes 6 2 (omega arith),
                e,
              )
              refl,
          tt,
        )
        | inl reserved ↦
            let same : get_or bytes 5 0 ≡ expected_r = ground (arith, width) in
            let seed : ℕ = from_le_bytes (take 8 (drop 8 bytes)) in
            let num_starts : ℕ = from_le_bytes (take 8 (drop 16 bytes)) in
            let segment_count : ℕ = from_le_bytes (take 8 (drop 24 bytes)) in
            let (out, run, h) =
              payload-Returns expected_r elem_size w bytes seed num_starts segment_count
                (geometry expected_r elem_size w num_starts segment_count (length bytes))
                (geometry-Fits expected_r elem_size w num_starts segment_count (length bytes)
                  pos) in
            (
              out,
              rw
                  (
                    byte 4 (omega arith),
                    family,
                    byte 5 (omega arith),
                    width,
                    slice-done bytes 6 2 (omega arith),
                    reserved,
                    slice-done bytes 8 8 (omega arith),
                    slice-done bytes 16 8 (omega arith),
                    slice-done bytes 24 8 (omega arith),
                    same,
                  )
                  run,
              h,
            )
      ]
    ]
  ]

  -- For a positive row width, `decode` returns for all bytes without a panic: an error, or a
  -- header with at least one start, whose slots are a whole number of blocks, two at least, and
  -- fewer than 2 ^ 64, and a payload of exactly as many bytes as the segments of these blocks
  -- take.
  pub decode-Returns :
      Returns
        (Accepted expected_r elem_size w)
        (decode bytes expected_family expected_r elem_size w)
  unfolding decode OnOk
  decode-Returns =
      let at_sum : ℕ = length bytes - checksum_len in
      let stored : List ℕ = take (length bytes - at_sum) (drop at_sum bytes) in
      elim (dec_lt (length bytes) 40) [
        | yes short ↦ (err too_short, rw (lt→ltb (length bytes) 40 short) refl, tt)
        | no long ↦
            let far : ltb (length bytes) 40 ≡ false = ground arith in
            let first : slice bytes 0 4 ≡ done (take 4 bytes) =
              slice-done bytes 0 4 (omega arith) in
            let second : slice bytes at_sum (length bytes - at_sum) ≡ done stored =
              slice-done bytes at_sum (length bytes - at_sum) (omega arith) in
            let third : slice bytes 0 at_sum ≡ done (take at_sum bytes) =
              slice-done bytes 0 at_sum (omega arith) in
            elim (Bool-cases (same_bytes (take 4 bytes) magic)) [
              | inr e ↦ (err bad_magic, rw (far, first, e) refl, tt)
              | inl head ↦ elim (Bool-cases (fnv1a (take at_sum bytes) == from_le_bytes stored)) [
                | inr e ↦ (err bad_checksum, rw (far, first, head, second, third, e) refl, tt)
                | inl sum ↦
                    let (out, run, h) = fields-Returns (omega arith) in
                    (out, rw (far, first, head, second, third, sum) run, h)
              ]
            ]
      ]
