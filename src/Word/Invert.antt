-- ===== src/Word/Invert.antt =====
-- Operations on 64-bit words that can be undone: an xor, a product with an odd constant, an
-- xor with the word's own high bits.
use pleat.Common.{ℕ, ◌+◌, ◌^◌, ◌<◌, ◌≡◌, refl, ap, ◌∙◌, arith, bit_xor, ◌⊕◌, Bool}
use pleat.Word.{wrapping_mul, shr}
use pleat.Word.Bits.{bit, bit-bit_xor, bit_xor-lt, bit_ext, bit_past}
use pleat.Word.Shift.{bit-shr}

xor_undo : (a b : Bool) → ((a ⊕ b) ⊕ b) ≡ a
xor_undo a b = ground arith

pub bit_xor_undo : (w a b : ℕ) → a < 2 ^ w → b < 2 ^ w → bit_xor (bit_xor a b) b ≡ a
bit_xor_undo w a b p q = bit_ext w _ a (bit_xor-lt w _ b (bit_xor-lt w a b p q) q) p (λ k r.
    bit-bit_xor k (bit_xor a b) b
    ∙ ap (λ t. t ⊕ bit k b) (bit-bit_xor k a b)
    ∙ xor_undo (bit k a) (bit k b))

xor_undo_left : (a b : Bool) → (a ⊕ (a ⊕ b)) ≡ b
xor_undo_left a b = ground arith

pub bit_xor_undo_left : (w a b : ℕ) → a < 2 ^ w → b < 2 ^ w → bit_xor a (bit_xor a b) ≡ b
bit_xor_undo_left w a b p q = bit_ext w _ b (bit_xor-lt w a _ p (bit_xor-lt w a b p q)) q (λ k r.
    bit-bit_xor k a (bit_xor a b)
    ∙ ap (λ t. bit k a ⊕ t) (bit-bit_xor k a b)
    ∙ xor_undo_left (bit k a) (bit k b))

pub mul_undo_1 :
    (a : ℕ)
    → a < 2 ^ 64
    → wrapping_mul 64 (wrapping_mul 64 a 0xff51afd7ed558ccd) 0x4f74430c22a54005 ≡ a
mul_undo_1 a p = omega arith

pub mul_undo_2 :
    (a : ℕ)
    → a < 2 ^ 64
    → wrapping_mul 64 (wrapping_mul 64 a 0xc4ceb9fe1a85ec53) 0x9cb4b2f8129337db ≡ a
mul_undo_2 a p = omega arith

pub mul_undo_fnv :
    (a : ℕ) → a < 2 ^ 64 → wrapping_mul 64 (wrapping_mul 64 a 0x100000001b3) 0xce965057aff6957b ≡ a
mul_undo_fnv a p = omega arith

-- `x ^ (x >> 33)`, twice.
fold : ℕ → ℕ
fold h = bit_xor h (shr h 33)

fold-lt : (h : ℕ) → h < 2 ^ 64 → fold h < 2 ^ 64
unfolding fold
fold-lt h p = bit_xor-lt 64 h (shr h 33) p (omega arith)

bit-fold : (k h : ℕ) → bit k (fold h) ≡ (bit k h ⊕ bit (33 + k) h)
unfolding fold
bit-fold k h = bit-bit_xor k h (shr h 33) ∙ ap (λ t. bit k h ⊕ t) (bit-shr 33 k (33 + k) h refl)

pub fold_undo :
    (h : ℕ) → h < 2 ^ 64 → bit_xor (bit_xor h (shr h 33)) (shr (bit_xor h (shr h 33)) 33) ≡ h
fold_undo h p =
    unfold fold in
    bit_ext 64 (fold (fold h)) h (fold-lt (fold h) (fold-lt h p)) p (λ k r. ground (
      arith,
      bit-fold k (fold h),
      bit-fold k h,
      bit-fold (33 + k) h,
      bit_past 64 (33 + (33 + k)) h p (omega arith),
    ))
