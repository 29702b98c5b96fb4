-- ===== src/Format/Canonical.antt =====
-- `decode` of src/format.rs, beside `write_header` and `finish`: what it accepts is what they write.
use native.Mathlib.Nat.{mul-div_cancel, mul-le-mul_left}
use pleat.Common.{
  ℕ, zero, suc, ◌+◌, ◌-◌, ◌*◌, ◌/◌, ◌%◌, ◌≤◌, ◌<◌, ◌≡◌, refl, sym, subst, ap, ap₂, ◌∙◌, arith, List,
  [], ◌∷◌, ◌++◌, append_assoc, length, length-append, length-drop, length-take, take, drop, get_or,
  take-append, take-append-drop, All, append-All, done, ok,
}
use pleat.Format.{
  Header, magic, fnv1a, finish, write_header, to_le_bytes, from_le_bytes, decode, extend_segments,
  read_chunks, read_segments,
}
use pleat.Word.{cast}
use pleat.Format.Bytes.{length-read_chunks}
use pleat.Format.Checksum.{IsByte}
use pleat.Format.Corrupt.{decode_summed}
use pleat.Format.Parts.{IsAccepted, decode-IsAccepted}

-- Bytes read as a word are written back.
pub to_le_bytes-from_le_bytes :
    (n : ℕ) (bs : List ℕ) → length bs ≡ n → All IsByte bs → to_le_bytes n (from_le_bytes bs) ≡ bs
to_le_bytes-from_le_bytes zero [] e h = refl
to_le_bytes-from_le_bytes zero (b ∷ bs) e h = absurd (omega arith)
to_le_bytes-from_le_bytes (suc n) [] e h = absurd (omega arith)
to_le_bytes-from_le_bytes (suc n) (b ∷ bs) e h =
    let low : (b + 256 * from_le_bytes bs) % 256 ≡ b = omega (arith, h.0) in
    let high : (b + 256 * from_le_bytes bs) / 256 ≡ from_le_bytes bs = omega (arith, h.0) in
    ap₂ ◌∷◌ low (ap (to_le_bytes n) high ∙ to_le_bytes-from_le_bytes n bs (omega arith) h.1)

drop-drop : (n m k : ℕ) (xs : List ℕ) → n + m ≡ k → drop m (drop n xs) ≡ drop k xs
drop-drop zero m k xs e = ap (λ (i : ℕ). drop i xs) (omega arith)
drop-drop (suc n) m zero xs e = absurd (omega arith)
drop-drop (suc n) zero (suc k) [] e = refl
drop-drop (suc n) (suc m) (suc k) [] e = refl
drop-drop (suc n) m (suc k) (x ∷ xs) e = drop-drop n m k xs (omega arith)

drop_one : (i : ℕ) (xs : List ℕ) → i < length xs → drop i xs ≡ get_or xs i 0 ∷ drop (suc i) xs
drop_one i [] p = absurd (omega arith)
drop_one zero (x ∷ xs) p = refl
drop_one (suc i) (x ∷ xs) p = drop_one i xs (omega arith)

module _ (bytes : List ℕ) (all : All IsByte bytes) where
  -- The next `n` bytes from `lo` on, and the others.
  cut : (lo n hi : ℕ) → lo + n ≡ hi → drop lo bytes ≡ take n (drop lo bytes) ++ drop hi bytes
  cut lo n hi e =
      sym (take-append-drop n (drop lo bytes))
      ∙ ap (λ l. take n (drop lo bytes) ++ l) (drop-drop lo n hi bytes e)

  All-drop : (lo : ℕ) → All IsByte (drop lo bytes)
  All-drop lo =
      (append-All IsByte (take lo bytes) (drop lo bytes)
        (subst (All IsByte) (sym (take-append-drop lo bytes)) all)).1

  All-cut : (lo n : ℕ) → All IsByte (take n (drop lo bytes))
  All-cut lo n =
      (append-All IsByte (take n (drop lo bytes)) (drop n (drop lo bytes))
        (subst (All IsByte) (sym (take-append-drop n (drop lo bytes))) (All-drop lo))).0

  length-cut : (lo n : ℕ) → lo + n ≤ length bytes → length (take n (drop lo bytes)) ≡ n
  length-cut lo n p = length-take n (drop lo bytes) (omega (arith, length-drop lo bytes))

  -- A word of eight bytes, as it is written.
  word :
      (lo hi x : ℕ)
      → lo + 8 ≡ hi
      → hi ≤ length bytes
      → from_le_bytes (take 8 (drop lo bytes)) ≡ x
      → drop lo bytes ≡ to_le_bytes 8 x ++ drop hi bytes
  word lo hi x e p h =
      cut lo 8 hi e
      ∙ ap (λ l. l ++ drop hi bytes)
          (sym (to_le_bytes-from_le_bytes 8 _ (length-cut lo 8 (omega arith)) (All-cut lo 8))
            ∙ ap (to_le_bytes 8) h)

  module _ (expected_family expected_r elem_size w : ℕ) (pos : 0 < w) (a : Header × List ℕ)
      (run : decode bytes expected_family expected_r elem_size w ≡ done (ok a)) where
    accepted : (take 4 bytes ≡ magic) × IsAccepted expected_family expected_r elem_size w bytes a
    accepted =
        decode-IsAccepted bytes expected_family expected_r elem_size w pos a
          (decode_summed expected_family expected_r elem_size w bytes a run).0 run

    abbrev count : ℕ
    count = (a.0.num_starts + (w - 1)) / w * expected_r

    blocks_is : accepted.1.rest.fits.blocks ≡ (a.0.num_starts + (w - 1)) / w
    blocks_is =
        let f = accepted.1.rest.fits in
        sym (ap (λ (k : ℕ). k / w) f.slots ∙ mul-div_cancel f.blocks pos)

    abbrev body : List ℕ
    body = write_header expected_family expected_r a.0.seed a.0.num_starts count ++ a.1

    body-bytes : bytes ≡ body ++ drop (length a.1 + 32) bytes
    body-bytes =
        let p = accepted.1 in
        let size : length bytes ≡ length a.1 + 40 = p.rest.size in
        let e0 : bytes ≡ magic ++ drop 4 bytes =
          cut 0 4 4 refl ∙ ap (λ l. l ++ drop 4 bytes) accepted.0 in
        let e4 : drop 4 bytes ≡ expected_family ∷ drop 5 bytes =
          drop_one 4 bytes (omega arith) ∙ ap (λ (x : ℕ). x ∷ drop 5 bytes) p.family_is in
        let e5 : drop 5 bytes ≡ expected_r ∷ drop 6 bytes =
          drop_one 5 bytes (omega arith) ∙ ap (λ (x : ℕ). x ∷ drop 6 bytes) p.width_is in
        let e6 : drop 6 bytes ≡ (0 ∷ 0 ∷ []) ++ drop 8 bytes =
          cut 6 2 8 refl ∙ ap (λ l. l ++ drop 8 bytes) p.reserved_is in
        let e8 = word 8 16 a.0.seed refl (omega arith) p.seed_is in
        let e16 = word 16 24 a.0.num_starts refl (omega arith) p.starts_is in
        let e24 =
          word 24 32 count refl (omega arith)
            (p.rest.count_is ∙ ap (λ (k : ℕ). k * expected_r) blocks_is) in
        let e32 : drop 32 bytes ≡ a.1 ++ drop (length a.1 + 32) bytes =
          cut 32 (length a.1) (length a.1 + 32) (omega arith)
          ∙ ap (λ l. l ++ drop (length a.1 + 32) bytes) p.rest.payload_is in
        e0
        ∙ ap (λ l. magic ++ l)
            (e4
              ∙ ap (λ l. expected_family ∷ l)
                  (e5
                    ∙ ap (λ l. expected_r ∷ l)
                        (e6
                          ∙ ap (λ l. (0 ∷ 0 ∷ []) ++ l)
                              (e8
                                ∙ ap (λ l. to_le_bytes 8 a.0.seed ++ l)
                                    (e16
                                      ∙ ap (λ l. to_le_bytes 8 a.0.num_starts ++ l)
                                          (e24 ∙ ap (λ l. to_le_bytes 8 count ++ l) e32))))))
        ∙ sym (
            append_assoc (write_header expected_family expected_r a.0.seed a.0.num_starts count) a.1
              (drop (length a.1 + 32) bytes))

    -- What `decode` accepts, for a positive row width, is what `write_header` and `finish` write for
    -- the header and the payload that it returns: no other bytes stand for them.
    pub decode_canonical :
        bytes
        ≡ finish (
            write_header expected_family expected_r a.0.seed a.0.num_starts
              ((a.0.num_starts + (w - 1)) / w * expected_r)
            ++ a.1)
    unfolding finish
    decode_canonical =
        let n : ℕ = length a.1 + 32 in
        let (long, sum) = decode_summed expected_family expected_r elem_size w bytes a run in
        let size : length bytes ≡ length a.1 + 40 = accepted.1.rest.size in
        let at_sum : length bytes - 8 ≡ n = omega arith in
        let joined : length bytes ≡ length body + length (drop n bytes) =
          ap length body-bytes ∙ length-append body (drop n bytes) in
        let body_size : length body ≡ n = omega (arith, length-drop n bytes) in
        let front : take n bytes ≡ body =
          ap (take n) body-bytes ∙ take-append n body (drop n bytes) body_size in
        let stored : fnv1a body ≡ from_le_bytes (drop n bytes) =
          ap fnv1a (sym front) ∙ rw at_sum at sum in
        let trailer : drop n bytes ≡ to_le_bytes 8 (fnv1a body) =
          sym (
            to_le_bytes-from_le_bytes 8 (drop n bytes) (omega (arith, length-drop n bytes))
              (All-drop n))
          ∙ ap (to_le_bytes 8) (sym stored) in
        body-bytes ∙ ap (λ l. body ++ l) trailer

    pub payload_bytes : All IsByte a.1
    payload_bytes = subst (All IsByte) accepted.1.rest.payload_is (All-cut 32 (length a.1))

-- The segments that are read are written back, where they take all bytes.
pub extend_segments-read_chunks :
    (size n : ℕ) (bytes : List ℕ)
    → length bytes ≡ n * size
    → All IsByte bytes
    → extend_segments size (read_chunks size n bytes) ≡ bytes
unfolding extend_segments read_chunks
extend_segments-read_chunks size zero [] e h = refl
extend_segments-read_chunks size zero (b ∷ bytes) e h = absurd (omega arith)
extend_segments-read_chunks size (suc n) bytes e h =
    let split : length bytes ≡ n * size + size = e ∙ omega arith in
    let (low, high) =
      append-All IsByte (take size bytes) (drop size bytes)
        (subst (All IsByte) (sym (take-append-drop size bytes)) h) in
    ap₂ ◌++◌
      (to_le_bytes-from_le_bytes size (take size bytes) (length-take size bytes (omega arith)) low)
      (extend_segments-read_chunks size n (drop size bytes) (length-drop size bytes ∙ omega arith)
        high)
    ∙ take-append-drop size bytes

-- A filter that keeps the payload's segments is written as the bytes that it was read from.
pub decode-finish_segments :
    (bytes : List ℕ) (all : All IsByte bytes) (family r size w : ℕ) (pos : 0 < w)
    (a : Header × List ℕ)
    → 0 < size
    → r ≤ w
    → decode bytes family r size w ≡ done (ok a)
    → finish (
        write_header family r a.0.seed a.0.num_starts (cast 64 (length (read_segments size a.1)))
        ++ extend_segments size (read_segments size a.1))
      ≡ bytes
decode-finish_segments bytes all family r size w pos a some narrow run =
    let n : ℕ = (a.0.num_starts + (w - 1)) / w * r in
    let f = (accepted bytes all family r size w pos a run).1.rest.fits in
    let count : f.blocks * r ≡ n =
      ap (λ (k : ℕ). k * r) (blocks_is bytes all family r size w pos a run) in
    let whole : length a.1 ≡ n * size = f.bytes ∙ ap (λ (k : ℕ). k * size) count in
    let words : length a.1 / size ≡ n = ap (λ (k : ℕ). k / size) whole ∙ mul-div_cancel n some in
    let small : f.blocks * r ≤ f.blocks * w = mul-le-mul_left f.blocks narrow in
    let size_u64 : cast 64 (length (read_segments size a.1)) ≡ n =
      ap (cast 64) (length-read_chunks size (length a.1 / size) a.1 ∙ words)
      ∙ omega (arith, small, count, f.slots, f.slots_u64) in
    let written : extend_segments size (read_segments size a.1) ≡ a.1 =
      extend_segments-read_chunks size (length a.1 / size) a.1
        (whole ∙ ap (λ (k : ℕ). k * size) (sym words))
        (payload_bytes bytes all family r size w pos a run) in
    ap₂ (λ k l. finish (write_header family r a.0.seed a.0.num_starts k ++ l)) size_u64 written
    ∙ sym (decode_canonical bytes all family r size w pos a run)
