-- ===== src/Format/Checksum.antt =====
-- `fnv1a` and `from_le_bytes` of src/format.rs on byte lists that differ in one byte.
use pleat.Common.{ℕ, ◌^◌, ◌<◌, ◌≡◌, refl, sym, ap, ◌∙◌, arith, List, [], ◌∷◌, ◌++◌, bit_xor, All}
use pleat.Word.{wrapping_mul}
use pleat.Word.Bits.{bit_xor-lt}
use pleat.Word.Invert.{bit_xor_undo, bit_xor_undo_left, mul_undo_fnv}
use pleat.Format.Bytes.{fnv_loop-lt}
use pleat.Format.{fnv_loop, fnv1a, from_le_bytes}

abbrev pub IsByte : ℕ → Type 0
IsByte b = b < 256

-- One round of the loop.
abbrev round : ℕ → ℕ → ℕ
round h b = wrapping_mul 64 (bit_xor h b) 0x100000001b3

mul_fnv-inj :
    (a b : ℕ)
    → a < 2 ^ 64
    → b < 2 ^ 64
    → wrapping_mul 64 a 0x100000001b3 ≡ wrapping_mul 64 b 0x100000001b3
    → a ≡ b
mul_fnv-inj a b p q e =
    sym (mul_undo_fnv a p)
    ∙ ap (λ (t : ℕ). wrapping_mul 64 t 0xce965057aff6957b) e
    ∙ mul_undo_fnv b q

xor-lt : (h b : ℕ) → h < 2 ^ 64 → IsByte b → bit_xor h b < 2 ^ 64
xor-lt h b p q = bit_xor-lt 64 h b p (omega arith)

fnv_loop-inj :
    (bytes : List ℕ) (h h' : ℕ)
    → All IsByte bytes
    → h < 2 ^ 64
    → h' < 2 ^ 64
    → fnv_loop h bytes ≡ fnv_loop h' bytes
    → h ≡ h'
unfolding fnv_loop
fnv_loop-inj [] h h' all p q e = e
fnv_loop-inj (b ∷ bytes) h h' all p q e =
    let r : round h b ≡ round h' b =
      fnv_loop-inj bytes (round h b) (round h' b) all.1 (omega arith) (omega arith) e in
    let x : bit_xor h b ≡ bit_xor h' b =
      mul_fnv-inj _ _ (xor-lt h b p all.0) (xor-lt h' b q all.0) r in
    sym (bit_xor_undo 64 h b p (omega (arith, all.0)))
    ∙ ap (λ (t : ℕ). bit_xor t b) x
    ∙ bit_xor_undo 64 h' b q (omega (arith, all.0))

fnv_loop-append : (xs ys : List ℕ) (h : ℕ) → fnv_loop h (xs ++ ys) ≡ fnv_loop (fnv_loop h xs) ys
unfolding fnv_loop
fnv_loop-append [] ys h = refl
fnv_loop-append (x ∷ xs) ys h = fnv_loop-append xs ys (round h x)

-- A change of one byte changes the checksum.
pub fnv1a_byte :
    (pre post : List ℕ) (b b' : ℕ)
    → IsByte b
    → IsByte b'
    → All IsByte post
    → fnv1a (pre ++ (b ∷ post)) ≡ fnv1a (pre ++ (b' ∷ post))
    → b ≡ b'
unfolding fnv1a fnv_loop
fnv1a_byte pre post b b' p q all e =
    let h : ℕ = fnv_loop 0xcbf29ce484222325 pre in
    let lt : h < 2 ^ 64 = fnv_loop-lt pre 0xcbf29ce484222325 (omega arith) in
    let last : fnv_loop (round h b) post ≡ fnv_loop (round h b') post =
      sym (fnv_loop-append pre (b ∷ post) 0xcbf29ce484222325)
      ∙ e
      ∙ fnv_loop-append pre (b' ∷ post) 0xcbf29ce484222325 in
    let r : round h b ≡ round h b' =
      fnv_loop-inj post (round h b) (round h b') all (omega arith) (omega arith) last in
    let x : bit_xor h b ≡ bit_xor h b' = mul_fnv-inj _ _ (xor-lt h b lt p) (xor-lt h b' lt q) r in
    sym (bit_xor_undo_left 64 h b lt (omega arith))
    ∙ ap (bit_xor h) x
    ∙ bit_xor_undo_left 64 h b' lt (omega arith)

pub from_le_bytes_byte :
    (pre post : List ℕ) (b b' : ℕ)
    → IsByte b
    → IsByte b'
    → from_le_bytes (pre ++ (b ∷ post)) ≡ from_le_bytes (pre ++ (b' ∷ post))
    → b ≡ b'
from_le_bytes_byte [] post b b' p q e = omega arith
from_le_bytes_byte (x ∷ pre) post b b' p q e = from_le_bytes_byte pre post b b' p q (omega arith)
