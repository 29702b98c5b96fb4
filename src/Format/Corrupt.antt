-- ===== src/Format/Corrupt.antt =====
-- `decode` of src/format.rs on a buffer with a byte changed.
use native.Mathlib.Decide.{ℕ_discrete, dec_lt}
use pleat.Common.{
  ℕ, suc, ◌+◌, ◌-◌, ◌==◌, ◌≤◌, ◌<◌, ◌≡◌, ◌≢◌, refl, sym, subst, ap, ◌∙◌, arith, ltb, lt→ltb, false,
  Bool-cases, ◌⊎◌, inl, inr, List, ◌∷◌, ◌++◌, length, length-append, length-drop, take, drop,
  take_all, take-append-drop, take-append_past, drop-append_past, take-append_before,
  drop-append_before, slice, slice-done, All, append-All, Run, done, done_inj, Result, ok, err,
  err≢ok,
}
use pleat.Format.{
  DecodeError, too_short, bad_magic, bad_checksum, Header, magic, fnv1a, from_le_bytes, same_bytes,
  decode,
}
use pleat.Format.Checksum.{IsByte, fnv1a_byte, from_le_bytes_byte}

-- The checks before the fields fail.
abbrev pub Refused : Run (Result DecodeError (Header × List ℕ)) → Type 0
Refused m = (m ≡ done (err bad_magic)) ⊎ (m ≡ done (err bad_checksum))

Refused-ok :
    {m : Run (Result DecodeError (Header × List ℕ))} (a : Header × List ℕ)
    → Refused m
    → m ≡ done (ok a)
    → ⊥
Refused-ok a (inl e) f = err≢ok (done_inj (sym e ∙ f))
Refused-ok a (inr e) f = err≢ok (done_inj (sym e ∙ f))

module _ (expected_family expected_r elem_size w : ℕ) where
  decode_short :
      (bytes : List ℕ)
      → length bytes < 40
      → decode bytes expected_family expected_r elem_size w ≡ done (err too_short)
  unfolding decode
  decode_short bytes p = rw (lt→ltb (length bytes) 40 p) refl

  -- A buffer that does not end in its checksum is refused.
  decode_unsummed :
      (bytes : List ℕ)
      → 40 ≤ length bytes
      → fnv1a (take (length bytes - 8) bytes) ≢ from_le_bytes (drop (length bytes - 8) bytes)
      → Refused (decode bytes expected_family expected_r elem_size w)
  unfolding decode
  decode_unsummed bytes p ne =
      let n : ℕ = length bytes in
      let at_sum : ℕ = n - 8 in
      let far : ltb n 40 ≡ false = ground arith in
      let first : slice bytes 0 4 ≡ done (take 4 bytes) = slice-done bytes 0 4 (omega arith) in
      let tail : take (n - at_sum) (drop at_sum bytes) ≡ drop at_sum bytes =
        take_all (n - at_sum) (drop at_sum bytes) (omega (arith, length-drop at_sum bytes)) in
      let second : slice bytes at_sum (n - at_sum) ≡ done (drop at_sum bytes) =
        slice-done bytes at_sum (n - at_sum) (omega arith) ∙ ap done tail in
      let third : slice bytes 0 at_sum ≡ done (take at_sum bytes) =
        slice-done bytes 0 at_sum (omega arith) in
      let wrong : (fnv1a (take at_sum bytes) == from_le_bytes (drop at_sum bytes)) ≡ false =
        ground (arith, ne) in
      elim (Bool-cases (same_bytes (take 4 bytes) magic)) [
        | inr h ↦ inl (rw (far, first, h) refl)
        | inl h ↦ inr (rw (far, first, h, second, third, wrong) refl)
      ]

  -- A buffer that is decoded ends in its checksum.
  pub decode_summed :
      (bytes : List ℕ) (a : Header × List ℕ)
      → decode bytes expected_family expected_r elem_size w ≡ done (ok a)
      → (40 ≤ length bytes)
        × (fnv1a (take (length bytes - 8) bytes) ≡ from_le_bytes (drop (length bytes - 8) bytes))
  decode_summed bytes a run = elim (dec_lt (length bytes) 40) [
    | yes p ↦ absurd (err≢ok (done_inj (sym (decode_short bytes p) ∙ run)))
    | no p ↦
        let long : 40 ≤ length bytes = omega arith in
        elim (ℕ_discrete (fnv1a (take (length bytes - 8) bytes))
          (from_le_bytes (drop (length bytes - 8) bytes))) [
            | yes e ↦ (long, e)
            | no ne ↦ absurd (Refused-ok a (decode_unsummed bytes long ne) run)
          ]
  ]

  module _ (pre post : List ℕ) (b b' : ℕ) where
    -- Two buffers that differ in one byte do not both end in their checksums.
    sums_differ :
        (n : ℕ)
        → length pre + suc (length post) ≡ n
        → 40 ≤ n
        → IsByte b
        → IsByte b'
        → All IsByte post
        → fnv1a (take (n - 8) (pre ++ (b ∷ post)))
          ≡ from_le_bytes (drop (n - 8) (pre ++ (b ∷ post)))
        → fnv1a (take (n - 8) (pre ++ (b' ∷ post)))
          ≡ from_le_bytes (drop (n - 8) (pre ++ (b' ∷ post)))
        → b ≡ b'
    sums_differ n len long p q all e e' = elim (dec_lt (length pre) (n - 8)) [
      | yes before ↦
          let m : ℕ = n - 8 - suc (length pre) in
          let body : (c : ℕ) → take (n - 8) (pre ++ (c ∷ post)) ≡ pre ++ (c ∷ take m post) =
            λ c. take-append_past (n - 8) (suc m) pre (c ∷ post) (omega arith) in
          let tail : (c : ℕ) → drop (n - 8) (pre ++ (c ∷ post)) ≡ drop m post =
            λ c. drop-append_past (n - 8) (suc m) pre (c ∷ post) (omega arith) in
          fnv1a_byte pre (take m post) b b' p q
            (append-All IsByte (take m post) (drop m post)
              (subst (All IsByte) (sym (take-append-drop m post)) all)).0
            (ap fnv1a (sym (body b))
              ∙ e
              ∙ ap from_le_bytes (tail b ∙ sym (tail b'))
              ∙ sym e'
              ∙ ap fnv1a (body b'))
      | no after ↦
          let body : (c : ℕ) → take (n - 8) (pre ++ (c ∷ post)) ≡ take (n - 8) pre =
            λ c. take-append_before (n - 8) pre (c ∷ post) (omega arith) in
          let tail : (c : ℕ) → drop (n - 8) (pre ++ (c ∷ post)) ≡ drop (n - 8) pre ++ (c ∷ post) =
            λ c. drop-append_before (n - 8) pre (c ∷ post) (omega arith) in
          from_le_bytes_byte (drop (n - 8) pre) post b b' p q (
            ap from_le_bytes (sym (tail b))
            ∙ sym e
            ∙ ap fnv1a (body b ∙ sym (body b'))
            ∙ e'
            ∙ ap from_le_bytes (tail b'))
    ]

    -- A buffer that is decoded is refused, as not beginning with the magic or not ending in its
    -- checksum, once any one of its bytes is changed to another, whatever the target expects of
    -- it.
    pub decode_corrupt :
        (a : Header × List ℕ)
        → IsByte b
        → IsByte b'
        → All IsByte post
        → b ≢ b'
        → decode (pre ++ (b ∷ post)) expected_family expected_r elem_size w ≡ done (ok a)
        → Refused (decode (pre ++ (b' ∷ post)) expected_family expected_r elem_size w)
    decode_corrupt a p q all ne run =
        let n : ℕ = length pre + suc (length post) in
        let size : length (pre ++ (b ∷ post)) ≡ n = length-append pre (b ∷ post) in
        let size' : length (pre ++ (b' ∷ post)) ≡ n = length-append pre (b' ∷ post) in
        let (long, e) = decode_summed (pre ++ (b ∷ post)) a run in
        decode_unsummed (pre ++ (b' ∷ post)) (omega arith)
          (λ e'. ne (sums_differ n refl (omega arith) p q all (rw size at e) (rw size' at e')))
