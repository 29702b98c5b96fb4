-- ===== src/Hash/Injective.antt =====
-- `ribbon_hash` of src/hash.rs on different keys.
use pleat.Common.{ℕ, ◌^◌, ◌<◌, ◌≡◌, ◌≢◌, sym, ap, ◌∙◌, arith}
use pleat.Word.{wrapping_add, wrapping_mul}
use pleat.Word.Invert.{fold_undo, mul_undo_1, mul_undo_2}
use pleat.Hash.Bounds.{fold33-lt}
use pleat.Hash.{fold33, ribbon_hash}

fold33-inj : (a b : ℕ) → a < 2 ^ 64 → b < 2 ^ 64 → fold33 a ≡ fold33 b → a ≡ b
fold33-inj a b p q e = sym (fold_undo a p) ∙ ap fold33 e ∙ fold_undo b q

mul_1-inj :
    (a b : ℕ)
    → a < 2 ^ 64
    → b < 2 ^ 64
    → wrapping_mul 64 a 0xff51afd7ed558ccd ≡ wrapping_mul 64 b 0xff51afd7ed558ccd
    → a ≡ b
mul_1-inj a b p q e =
    sym (mul_undo_1 a p) ∙ ap (λ (t : ℕ). wrapping_mul 64 t 0x4f74430c22a54005) e ∙ mul_undo_1 b q

mul_2-inj :
    (a b : ℕ)
    → a < 2 ^ 64
    → b < 2 ^ 64
    → wrapping_mul 64 a 0xc4ceb9fe1a85ec53 ≡ wrapping_mul 64 b 0xc4ceb9fe1a85ec53
    → a ≡ b
mul_2-inj a b p q e =
    sym (mul_undo_2 a p) ∙ ap (λ (t : ℕ). wrapping_mul 64 t 0x9cb4b2f8129337db) e ∙ mul_undo_2 b q

ribbon_hash-inj :
    (key key' raw_seed : ℕ)
    → key < 2 ^ 64
    → key' < 2 ^ 64
    → ribbon_hash key raw_seed ≡ ribbon_hash key' raw_seed
    → key ≡ key'
unfolding ribbon_hash
ribbon_hash-inj key key' raw_seed p q e =
    let h0 : ℕ → ℕ = λ k. wrapping_add 64 k raw_seed in
    let h1 : ℕ → ℕ = λ k. wrapping_mul 64 (fold33 (h0 k)) 0xff51_afd7_ed55_8ccd in
    let h2 : ℕ → ℕ = λ k. wrapping_mul 64 (fold33 (h1 k)) 0xc4ce_b9fe_1a85_ec53 in
    let e2 : h2 key ≡ h2 key' = fold33-inj (h2 key) (h2 key') (omega arith) (omega arith) e in
    let e1 : h1 key ≡ h1 key' =
      fold33-inj (h1 key) (h1 key') (omega arith) (omega arith)
        (mul_2-inj _ _ (fold33-lt (h1 key) (omega arith)) (fold33-lt (h1 key') (omega arith)) e2) in
    let e0 : h0 key ≡ h0 key' =
      fold33-inj (h0 key) (h0 key') (omega arith) (omega arith)
        (mul_1-inj _ _ (fold33-lt (h0 key) (omega arith)) (fold33-lt (h0 key') (omega arith)) e1) in
    omega arith

-- Under any seed, two different 64-bit keys have different hashes.
pub ribbon_hash_distinct :
    (key key' raw_seed : ℕ)
    → key < 2 ^ 64
    → key' < 2 ^ 64
    → key ≢ key'
    → ribbon_hash key raw_seed ≢ ribbon_hash key' raw_seed
ribbon_hash_distinct key key' raw_seed p q ne e = ne (ribbon_hash-inj key key' raw_seed p q e)
