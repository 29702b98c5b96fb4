-- ===== src/Filter/Parallel/Whole.antt =====
-- A slice `split_at_mut` cut out of a vector, and the vector with it in place.
use pleat.Common.{
  ℕ, zero, suc, ◌+◌, ◌<◌, ◌≡◌, refl, ap, ◌∙◌, arith, List, [], ◌∷◌, ◌++◌, length, get_or,
  get_or-append_left, get_or-append_right, set,
}

set-append_left :
    (rows post : List ℕ) (i c : ℕ) → i < length rows → set (rows ++ post) i c ≡ set rows i c ++ post
set-append_left [] post i c p = absurd (omega arith)
set-append_left (x ∷ rows) post zero c p = refl
set-append_left (x ∷ rows) post (suc i) c p =
    ap (λ xs. x ∷ xs) (set-append_left rows post i c (omega arith))

set-append_right :
    (pre rows : List ℕ) (i j c : ℕ)
    → length pre + i ≡ j
    → set (pre ++ rows) j c ≡ pre ++ set rows i c
set-append_right [] rows i j c e = let f : j ≡ i = omega arith in ap (λ (k : ℕ). set rows k c) f
set-append_right (x ∷ pre) rows i zero c e = absurd (omega arith)
set-append_right (x ∷ pre) rows i (suc j) c e =
    ap (λ xs. x ∷ xs) (set-append_right pre rows i j c (omega arith))

module _ (pre post : List ℕ) where
  -- The whole vector, with these rows in the slice.
  abbrev pub whole : List ℕ → List ℕ
  whole rows = pre ++ (rows ++ post)

  pub get_or-whole :
      (rows : List ℕ) (i : ℕ)
      → i < length rows
      → get_or (whole rows) (length pre + i) 0 ≡ get_or rows i 0
  get_or-whole rows i p =
      get_or-append_right pre (rows ++ post) (length pre + i) i 0 refl
      ∙ get_or-append_left rows post i 0 p

  pub set-whole :
      (rows : List ℕ) (i c : ℕ)
      → i < length rows
      → set (whole rows) (length pre + i) c ≡ whole (set rows i c)
  set-whole rows i c p =
      set-append_right pre (rows ++ post) i (length pre + i) c refl
      ∙ ap (λ xs. pre ++ xs) (set-append_left rows post i c p)
