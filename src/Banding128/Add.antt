-- ===== src/Banding128/Add.antt =====
-- The loop of `Banding128::add` of src/banding128.rs, on every column at once.
use native.Mathlib.Decide.{ℕ_discrete}
use pleat.Common.{
  ℕ, zero, suc, ◌+◌, ◌^◌, ◌≤◌, ◌<◌, ◌≡◌, ◌≢◌, refl, sym, ap, ◌∙◌, arith, Bool, true, false, ◌⊎◌,
  ◌↔◌, inl, inr, List, length, length-set, get_or, get_elem?, get_elem?-eq-get_or, get_or-set_self,
  get_or-set_ne, set, some, All, All-set, All-get_or, bit_xor, done,
}
use pleat.Word.{shr, trailing_zeros}
use pleat.Word.Bits.{bit, odd, bit-zero, bit-bit_xor, bit_xor-lt, bit_ext}
use pleat.Word.Parity.{dot, from, dot-bit_xor}
use pleat.System.{Solves, IsRow, IsRow-lt, IsEchelon}
use pleat.System.Fill.{dot_zero}
use pleat.System.Reduce.{
  reduce_later, reduce-IsRow, reduce-dot, Places, Places-IsEchelon, Places-Solves, Solves-Places,
}
use pleat.Banding128.{w128, add_loop}

abbrev pub coef : List ℕ → ℕ → ℕ
coef rows i = get_or rows i 0

-- The right-hand sides of column `j`.
abbrev pub rhs : List ℕ → ℕ → ℕ → Bool
rhs results j i = bit j (get_or results i 0)

-- Both vectors have a place for each slot, the rows are in echelon form, the result rows are words
-- of 32 bits, and that of an empty slot is zero.
pub record IsMatrix (rows results : List ℕ) : Type 0 where
  pub same : length results ≡ length rows
  pub echelon : IsEchelon w128 (length rows) (coef rows)
  pub u32 : All (λ r. r < 2 ^ 32) results
  pub empty : (i : ℕ) → coef rows i ≡ 0 → get_or results i 0 ≡ 0

-- What `add` does for the row `c`, `r` at slot `i`, where it succeeds: in each column, `x` solves
-- the new matrix exactly if it solved the old one and solves the row.
pub record Adds (rows results : List ℕ) (i c r : ℕ) (rows' results' : List ℕ) : Type 0 where
  pub same_length : length rows' ≡ length rows
  pub matrix : IsMatrix rows' results'
  pub kept :
      (j : ℕ) (x : ℕ → Bool)
      → Solves w128 (coef rows') (rhs results' j) x
      → Solves w128 (coef rows) (rhs results j) x
  pub added :
      (j : ℕ) (x : ℕ → Bool)
      → Solves w128 (coef rows') (rhs results' j) x
      → dot w128 c (from i x) ≡ bit j r
  pub only :
      (j : ℕ) (x : ℕ → Bool)
      → Solves w128 (coef rows) (rhs results j) x
      → dot w128 c (from i x) ≡ bit j r
      → Solves w128 (coef rows') (rhs results' j) x

-- Where it fails, no choice of columns solves both the matrix and the row.
abbrev pub Clash : List ℕ → List ℕ → ℕ → ℕ → ℕ → Type 0
Clash rows results i c r =
    (x : ℕ → ℕ → Bool)
    → ((j : ℕ) → j < 32 → Solves w128 (coef rows) (rhs results j) (x j))
    → ((j : ℕ) → j < 32 → dot w128 c (from i (x j)) ≡ bit j r)
    → ⊥

module _ (rows results : List ℕ) (m : IsMatrix rows results) where
  set-Places :
      (i c r j : ℕ)
      → i < length rows
      → coef rows i ≡ 0
      → Places w128
          (length rows)
          i
          c
          (bit j r)
          (coef rows)
          (coef (set rows i c))
          (rhs results j)
          (rhs (set results i r) j)
  set-Places i c r j p e = record {
    empty = e;
    no_rhs = ap (bit j) (m.empty i e) ∙ bit-zero j;
    here = get_or-set_self rows i c 0 p;
    here_rhs = ap (bit j) (get_or-set_self results i r 0 (omega (arith, m.same)));
    other = λ k ne. get_or-set_ne rows i k c 0 ne;
    other_rhs = λ k ne. ap (bit j) (get_or-set_ne results i k r 0 ne);
  }

  set-IsMatrix :
      (i c r : ℕ)
      → IsRow w128 (length rows) i c
      → r < 2 ^ 32
      → coef rows i ≡ 0
      → IsMatrix (set rows i c) (set results i r)
  set-IsMatrix i c r row word e = record {
    same = length-set results i r ∙ m.same ∙ sym (length-set rows i c);
    echelon = rw (length-set rows i c) (
        Places-IsEchelon _ _ _ _ _ _ _ _ _ (set-Places i c r 0 (IsRow-lt row) e) row (IsRow-lt row)
          m.echelon);
    u32 = All-set _ results i r m.u32 word;
    empty = λ k f. elim (ℕ_discrete i k) [
      | yes g ↦ absurd (nonzero k g f)
      | no ne ↦
          get_or-set_ne results i k r 0 ne ∙ m.empty k (sym (get_or-set_ne rows i k c 0 ne) ∙ f)
    ];
  }
    where
      nonzero : (k : ℕ) → i ≡ k → coef (set rows i c) k ≡ 0 → ⊥
      nonzero k g f =
          unfold odd in
          ground (
            arith,
            row.first,
            get_or-set_self rows i c 0 (IsRow-lt row),
            ap (λ (q : ℕ). coef (set rows i c) q) g,
          )

  pub set-Adds :
      (i c r : ℕ)
      → IsRow w128 (length rows) i c
      → r < 2 ^ 32
      → coef rows i ≡ 0
      → Adds rows results i c r (set rows i c) (set results i r)
  set-Adds i c r row word e =
      let p = λ (j : ℕ). set-Places i c r j (IsRow-lt row) e in
      record {
        same_length = length-set rows i c;
        matrix = set-IsMatrix i c r row word e;
        kept = λ j x s. (Solves-Places _ _ _ _ _ _ _ _ _ x (p j) s).0;
        added = λ j x s. (Solves-Places _ _ _ _ _ _ _ _ _ x (p j) s).1;
        only = λ j x s h. Places-Solves _ _ _ _ _ _ _ _ _ x (p j) s h;
      }

  -- Two equal rows of a slot: what a solution of the matrix makes of the new row.
  same_row :
      (i c j : ℕ) (x : ℕ → Bool)
      → bit_xor c (coef rows i) ≡ 0
      → Solves w128 (coef rows) (rhs results j) x
      → dot w128 c (from i x) ≡ bit j (get_or results i 0)
  same_row i c j x e s = ground (
    arith,
    dot-bit_xor w128 c (coef rows i) (from i x),
    ap (λ (t : ℕ). dot w128 t (from i x)) e,
    dot_zero w128 (from i x),
    s i,
  )

  pub same-Adds :
      (i c r : ℕ)
      → bit_xor c (coef rows i) ≡ 0
      → bit_xor r (get_or results i 0) ≡ 0
      → Adds rows results i c r rows results
  same-Adds i c r e f = record {
    same_length = refl;
    matrix = m;
    kept = λ j x s. s;
    added = λ j x s.
        same_row i c j x e s
        ∙ ground (arith, bit-bit_xor j r (get_or results i 0), ap (bit j) f, bit-zero j);
    only = λ j x s h. s;
  }

  pub result-lt : (i : ℕ) → get_or results i 0 < 2 ^ 32
  result-lt i = All-get_or _ results i 0 m.u32 (omega arith)

  pub same-Clash :
      (i c r : ℕ)
      → r < 2 ^ 32
      → bit_xor c (coef rows i) ≡ 0
      → bit_xor r (get_or results i 0) ≢ 0
      → Clash rows results i c r
  same-Clash i c r word e ne x s h = ne (
      bit_ext 32 (bit_xor r (get_or results i 0)) 0 (bit_xor-lt 32 r _ word (result-lt i))
        (omega arith)
        (λ j p. ground (
          arith,
          bit-bit_xor j r (get_or results i 0),
          bit-zero j,
          h j p,
          same_row i c j (x j) e (s j p),
        )))

  -- A row reduced by that of its slot says the same beside it.
  module _ (i c r : ℕ) (row : IsRow w128 (length rows) i c)
      (old : IsRow w128 (length rows) i (coef rows i)) where
    abbrev sum : ℕ
    sum = bit_xor c (coef rows i)

    abbrev shift : ℕ
    shift = trailing_zeros w128 sum

    reduced_iff :
        (j : ℕ) (x : ℕ → Bool)
        → Solves w128 (coef rows) (rhs results j) x
        → (dot w128 (shr sum shift) (from (i + shift) x) ≡ bit j (bit_xor r (get_or results i 0)))
          ↔ (dot w128 c (from i x) ≡ bit j r)
    reduced_iff j x s = (
      λ h. ground (arith, reduce-dot row old x, bit-bit_xor j r (get_or results i 0), s i),
      λ h. ground (arith, reduce-dot row old x, bit-bit_xor j r (get_or results i 0), s i),
    )

    pub reduced-Adds :
        {rows' results' : List ℕ}
        → Adds rows results
            (i + shift)
            (shr sum shift)
            (bit_xor r (get_or results i 0))
            rows'
            results'
        → Adds rows results i c r rows' results'
    reduced-Adds a = record {
      same_length = a.same_length;
      matrix = a.matrix;
      kept = a.kept;
      added = λ j x s. (reduced_iff j x (a.kept j x s)).0 (a.added j x s);
      only = λ j x s h. a.only j x s ((reduced_iff j x s).1 h);
    }

    pub reduced-Clash :
        Clash rows results (i + shift) (shr sum shift) (bit_xor r (get_or results i 0))
        → Clash rows results i c r
    reduced-Clash k x s h = k x s (λ j p. (reduced_iff j (x j) (s j p)).1 (h j p))

  -- What the loop ends in: success with the row added, or failure with a clash.
  abbrev pub Ends : ℕ → ℕ → ℕ → List ℕ × List ℕ × Bool → Type 0
  Ends i c r out =
      ((out.2 ≡ true) × Adds rows results i c r out.0 out.1)
      ⊎ ((out.2 ≡ false)
          × (length out.0 ≡ length rows)
          × (length out.1 ≡ length results)
          × Clash rows results i c r)

  pub coef-IsRow : (i : ℕ) → coef rows i ≢ 0 → IsRow w128 (length rows) i (coef rows i)
  coef-IsRow i ne = elim (m.echelon.slot i) [ inl e ↦ absurd (ne e) | inr r ↦ r ]

  pub add_loop-Ends :
      (fuel i c r : ℕ)
      → IsRow w128 (length rows) i c
      → r < 2 ^ 32
      → length rows ≤ i + fuel
      → (out : List ℕ × List ℕ × Bool) × (add_loop fuel rows results i c r ≡ done out)
        × Ends i c r out
  unfolding add_loop
  add_loop-Ends zero i c r row word p = absurd (omega (arith, IsRow-lt row))
  add_loop-Ends (suc fuel) i c r row word p = elim (ℕ_discrete (coef rows i) 0) [
    | yes e ↦ (
      (set rows i c, set results i r, true),
      rw (found, found_result) (ground arith),
      inl (refl, set-Adds i c r row word e),
    )
    | no ne ↦ elim (ℕ_discrete (bit_xor c (coef rows i)) 0) [
      | yes e ↦ elim (ℕ_discrete (bit_xor r (get_or results i 0)) 0) [
        | yes f ↦ (
          (rows, results, true),
          rw (found, found_result) (ground arith),
          inl (refl, same-Adds i c r e f),
        )
        | no nf ↦ (
          (rows, results, false),
          rw (found, found_result) (ground arith),
          inr (refl, refl, refl, same-Clash i c r word e nf),
        )
      ]
      | no nz ↦
          let old : IsRow w128 (length rows) i (coef rows i) = coef-IsRow i ne in
          let t : ℕ = trailing_zeros w128 (bit_xor c (coef rows i)) in
          let (out, run, ends) =
            add_loop-Ends fuel (i + t) (shr (bit_xor c (coef rows i)) t)
              (bit_xor r (get_or results i 0)) (reduce-IsRow row old nz)
              (bit_xor-lt 32 r (get_or results i 0) word (result-lt i))
              (omega (arith, reduce_later row old nz)) in
          (
            out,
            rw (found, found_result) (ground (arith, run)),
            elim ends [
              | inl (ok, a) ↦ inl (ok, reduced-Adds i c r row old a)
              | inr (ok, l, l', k) ↦ inr (ok, l, l', reduced-Clash i c r row old k)
            ],
          )
    ]
  ]
    where
      found : get_elem? rows i ≡ some (coef rows i)
      found = get_elem?-eq-get_or rows i 0 (IsRow-lt row)

      found_result : get_elem? results i ≡ some (get_or results i 0)
      found_result = get_elem?-eq-get_or results i 0 (omega (arith, IsRow-lt row, m.same))
