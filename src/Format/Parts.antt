-- ===== src/Format/Parts.antt =====
-- What `decode` of src/format.rs has found in a buffer that it accepts, field by field.
use pleat.Common.{
  ℕ, ◌+◌, ◌-◌, ◌*◌, ◌==◌, ◌≤◌, ◌<◌, ◌≡◌, refl, subst, ap, ◌∙◌, arith, ltb, true, false, Bool-cases,
  inl, inr, List, [], ◌∷◌, length, take, drop, get_or, get_elem?, get_elem?-eq-get_or, slice,
  slice-done, length-slice, done, done_inj, unwrap, Result, ok, err, ok_inj, err≢ok, OnOk,
}
use pleat.Format.{
  DecodeError, Header, magic, header_len, checksum_len, fnv1a, from_le_bytes, same_bytes, geometry,
  payload, fields, decode,
}
use pleat.Format.Geometry.{Fits, Passed, geometry-Fits}

same_bytes-eq : (xs ys : List ℕ) → same_bytes xs ys ≡ true → xs ≡ ys
same_bytes-eq [] [] e = refl
same_bytes-eq [] (y ∷ ys) e = absurd (ground (arith, e))
same_bytes-eq (x ∷ xs) [] e = absurd (ground (arith, e))
same_bytes-eq (x ∷ xs) (y ∷ ys) e =
    let h : x ≡ y = ground (arith, e) in
    let t : same_bytes xs ys ≡ true = ground (arith, e) in cc (h, same_bytes-eq xs ys t)

-- The payload, of the buffer's length less that of the header and the checksum.
pub record IsPayload (r elem_size w segment_count : ℕ) (bytes : List ℕ) (a : Header × List ℕ)
    : Type 0 where
  pub fits : Fits r elem_size w a.0.num_starts (length a.1)
  pub count_is : segment_count ≡ fits.blocks * r
  pub payload_is : take (length a.1) (drop 32 bytes) ≡ a.1
  pub size : length bytes ≡ length a.1 + 40

payload-IsPayload :
    (r elem_size w segment_count : ℕ) (bytes : List ℕ) (seed num_starts : ℕ)
    (g : Result DecodeError ℕ) (a : Header × List ℕ)
    → OnOk (Passed r elem_size w num_starts segment_count (length bytes)) g
    → payload bytes seed num_starts g ≡ done (ok a)
    → (seed ≡ a.0.seed)
      × (num_starts ≡ a.0.num_starts)
      × IsPayload r elem_size w segment_count bytes a
unfolding payload OnOk
payload-IsPayload r elem_size w segment_count bytes seed num_starts (err e) a h run =
    absurd (err≢ok (done_inj run))
payload-IsPayload r elem_size w segment_count bytes seed num_starts (ok n) a (f, len, count) run =
    let inside : header_len + n ≤ length bytes = omega (arith, len) in
    let whole : (record { seed = seed; num_starts = num_starts }, take n (drop 32 bytes)) ≡ a =
      ok_inj (done_inj (rw (slice-done bytes header_len n inside) at run)) in
    let size : length (take n (drop 32 bytes)) ≡ n = length-slice bytes 32 n inside in
    subst
      (λ a.
        (seed ≡ a.0.seed)
        × (num_starts ≡ a.0.num_starts)
        × IsPayload r elem_size w segment_count bytes a)
      whole
      (
        refl,
        refl,
        record {
          fits = record {
            blocks = f.blocks;
            starts = f.starts;
            slots = f.slots;
            two_blocks = f.two_blocks;
            slots_u64 = f.slots_u64;
            bytes = size ∙ f.bytes;
          };
          count_is = count;
          payload_is = ap (λ (k : ℕ). take k (drop 32 bytes)) size;
          size = omega (arith, len, size);
        },
      )

-- The fields of the header.
pub record IsAccepted (expected_family expected_r elem_size w : ℕ) (bytes : List ℕ)
    (a : Header × List ℕ) : Type 0 where
  pub family_is : get_or bytes 4 0 ≡ expected_family
  pub width_is : get_or bytes 5 0 ≡ expected_r
  pub reserved_is : take 2 (drop 6 bytes) ≡ 0 ∷ 0 ∷ []
  pub seed_is : from_le_bytes (take 8 (drop 8 bytes)) ≡ a.0.seed
  pub starts_is : from_le_bytes (take 8 (drop 16 bytes)) ≡ a.0.num_starts
  pub rest : IsPayload expected_r elem_size w (from_le_bytes (take 8 (drop 24 bytes))) bytes a

module _ (bytes : List ℕ) (expected_family expected_r elem_size w : ℕ) (pos : 0 < w)
    (a : Header × List ℕ) where
  byte : (i : ℕ) → i < length bytes → unwrap (get_elem? bytes i) ≡ done (get_or bytes i 0)
  byte i h = ap unwrap (get_elem?-eq-get_or bytes i 0 h)

  fields-IsAccepted :
      40 ≤ length bytes
      → fields bytes expected_family expected_r elem_size w ≡ done (ok a)
      → IsAccepted expected_family expected_r elem_size w bytes a
  unfolding fields
  fields-IsAccepted len run =
      let b4 = byte 4 (omega arith) in
      let b5 = byte 5 (omega arith) in
      let b6 = slice-done bytes 6 2 (omega arith) in
      elim (Bool-cases (get_or bytes 4 0 == expected_family)) [
        | inr e ↦ absurd (err≢ok (done_inj (rw (b4, e) at run)))
        | inl family ↦ elim (Bool-cases (get_or bytes 5 0 == expected_r)) [
          | inr e ↦ absurd (err≢ok (done_inj (rw (b4, family, b5, e) at run)))
          | inl width ↦ elim (Bool-cases (same_bytes (take 2 (drop 6 bytes)) (0 ∷ 0 ∷ []))) [
            | inr e ↦ absurd (err≢ok (done_inj (rw (b4, family, b5, width, b6, e) at run)))
            | inl reserved ↦
                let same : get_or bytes 5 0 ≡ expected_r = ground (arith, width) in
                let num_starts : ℕ = from_le_bytes (take 8 (drop 16 bytes)) in
                let count : ℕ = from_le_bytes (take 8 (drop 24 bytes)) in
                let g : OnOk (Passed expected_r elem_size w num_starts count (length bytes))
                    (geometry expected_r elem_size w num_starts count (length bytes)) =
                  geometry-Fits expected_r elem_size w num_starts count (length bytes) pos in
                let (seed_is, starts_is, rest) =
                  payload-IsPayload expected_r elem_size w count bytes
                    (from_le_bytes (take 8 (drop 8 bytes))) num_starts _ a g
                    (rw
                      (
                        b4,
                        family,
                        b5,
                        width,
                        b6,
                        reserved,
                        slice-done bytes 8 8 (omega arith),
                        slice-done bytes 16 8 (omega arith),
                        slice-done bytes 24 8 (omega arith),
                        same,
                      )
                      at run) in
                record {
                  family_is = ground (arith, family);
                  width_is = same;
                  reserved_is = same_bytes-eq _ _ reserved;
                  seed_is = seed_is;
                  starts_is = starts_is;
                  rest = rest;
                }
          ]
        ]
      ]

  -- A buffer that is decoded begins with the magic, and its fields are right.
  pub decode-IsAccepted :
      40 ≤ length bytes
      → decode bytes expected_family expected_r elem_size w ≡ done (ok a)
      → (take 4 bytes ≡ magic) × IsAccepted expected_family expected_r elem_size w bytes a
  unfolding decode
  decode-IsAccepted len run =
      let at_sum : ℕ = length bytes - checksum_len in
      let stored : List ℕ = take (length bytes - at_sum) (drop at_sum bytes) in
      let far : ltb (length bytes) 40 ≡ false = ground arith in
      let first : slice bytes 0 4 ≡ done (take 4 bytes) = slice-done bytes 0 4 (omega arith) in
      let second : slice bytes at_sum (length bytes - at_sum) ≡ done stored =
        slice-done bytes at_sum (length bytes - at_sum) (omega arith) in
      let third : slice bytes 0 at_sum ≡ done (take at_sum bytes) =
        slice-done bytes 0 at_sum (omega arith) in
      elim (Bool-cases (same_bytes (take 4 bytes) magic)) [
        | inr e ↦ absurd (err≢ok (done_inj (rw (far, first, e) at run)))
        | inl head ↦ elim (Bool-cases (fnv1a (take at_sum bytes) == from_le_bytes stored)) [
          | inr e ↦ absurd (err≢ok (done_inj (rw (far, first, head, second, third, e) at run)))
          | inl sum ↦ (
            same_bytes-eq _ _ head,
            fields-IsAccepted len (rw (far, first, head, second, third, sum) at run),
          )
        ]
      ]
