-- ===== src/Banding/Add.antt =====
-- The loop of `Banding::add` of src/banding.rs.
use native.Mathlib.Decide.{ℕ_discrete}
use pleat.Common.{
  ℕ, zero, suc, ◌+◌, ◌≤◌, ◌<◌, ◌≡◌, ◌≢◌, refl, ap, arith, Bool, false, inl, inr, List, length,
  get_or, set, length-set, get_or-set_self, get_or-set_ne, get_elem?-eq-get_or, get_elem?, some,
  xor-false, bit_xor, done,
}
use pleat.Word.{shr, trailing_zeros}
use pleat.Word.Parity.{dot, from, dot-bit_xor}
use pleat.System.{Solves, IsRow, IsRow-lt, IsEchelon}
use pleat.System.Fill.{dot_zero}
use pleat.System.Reduce.{
  reduce_later, reduce-IsRow, reduce-dot, Places, Places-IsEchelon, Places-Solves, Solves-Places,
}
use pleat.Banding.{w, add_loop}

-- The row of slot `i`, zero where there is none.
abbrev pub coef : List ℕ → ℕ → ℕ
coef rows i = get_or rows i 0

-- The right-hand sides of the homogeneous system.
abbrev pub zeros : ℕ → Bool
zeros i = false

-- What `add` does to the matrix `rows` for a key whose row `c` starts at `i`: the matrix keeps its
-- shape, and `x` solves it exactly if it solved it before and solves the new row.
pub record Adds (rows : List ℕ) (i c : ℕ) (rows' : List ℕ) : Type 0 where
  pub same_length : length rows' ≡ length rows
  pub echelon : IsEchelon w (length rows) (coef rows')
  pub kept : (x : ℕ → Bool) → Solves w (coef rows') zeros x → Solves w (coef rows) zeros x
  pub added : (x : ℕ → Bool) → Solves w (coef rows') zeros x → dot w c (from i x) ≡ false
  pub only :
      (x : ℕ → Bool)
      → Solves w (coef rows) zeros x
      → dot w c (from i x) ≡ false
      → Solves w (coef rows') zeros x

module _ (rows : List ℕ) (ech : IsEchelon w (length rows) (coef rows)) where
  set-Places :
      (i c : ℕ)
      → i < length rows
      → coef rows i ≡ 0
      → Places w (length rows) i c false (coef rows) (coef (set rows i c)) zeros zeros
  set-Places i c p e = record {
    empty = e;
    no_rhs = refl;
    here = get_or-set_self rows i c 0 p;
    here_rhs = refl;
    other = λ j ne. get_or-set_ne rows i j c 0 ne;
    other_rhs = λ j ne. refl;
  }

  pub set-Adds :
      (i c : ℕ) → IsRow w (length rows) i c → coef rows i ≡ 0 → Adds rows i c (set rows i c)
  set-Adds i c r e =
      let p = set-Places i c (IsRow-lt r) e in
      record {
        same_length = length-set rows i c;
        echelon = Places-IsEchelon _ _ _ _ _ _ _ _ _ p r (IsRow-lt r) ech;
        kept = λ x s. (Solves-Places _ _ _ _ _ _ _ _ _ x p s).0;
        added = λ x s. (Solves-Places _ _ _ _ _ _ _ _ _ x p s).1;
        only = λ x s h. Places-Solves _ _ _ _ _ _ _ _ _ x p s h;
      }

  -- The row of the slot is the new one: it adds nothing.
  pub same-Adds :
      (i c : ℕ) → IsRow w (length rows) i c → bit_xor c (coef rows i) ≡ 0 → Adds rows i c rows
  same-Adds i c r e = record {
    same_length = refl;
    echelon = ech;
    kept = λ x s. s;
    added = λ x s. cc (
      dot-bit_xor w c (coef rows i) (from i x),
      ap (λ (t : ℕ). dot w t (from i x)) e,
      dot_zero w (from i x),
      xor-false (dot w c (from i x)),
      s i,
    );
    only = λ x s h. s;
  }

  -- A row reduced by that of its slot says the same beside it.
  pub reduced-Adds :
      (i c : ℕ) {rows' : List ℕ}
      → IsRow w (length rows) i c
      → IsRow w (length rows) i (coef rows i)
      → let t = trailing_zeros w (bit_xor c (coef rows i)) in
        Adds rows (i + t) (shr (bit_xor c (coef rows i)) t) rows' → Adds rows i c rows'
  reduced-Adds i c r d a = record {
    same_length = a.same_length;
    echelon = a.echelon;
    kept = a.kept;
    added = λ x s. ground (arith, reduce-dot r d x, a.kept x s i, a.added x s);
    only = λ x s h. a.only x s (ground (arith, reduce-dot r d x, s i));
  }

  pub coef-IsRow : (i : ℕ) → coef rows i ≢ 0 → IsRow w (length rows) i (coef rows i)
  coef-IsRow i ne = elim (ech.slot i) [ inl e ↦ absurd (ne e) | inr r ↦ r ]

  -- With fuel for the slots from `i` up, the loop ends without a panic.
  pub add_loop-Adds :
      (fuel i c : ℕ)
      → IsRow w (length rows) i c
      → length rows ≤ i + fuel
      → (rows' : List ℕ) × (add_loop fuel rows i c ≡ done rows') × Adds rows i c rows'
  unfolding add_loop
  add_loop-Adds zero i c r p = absurd (omega (arith, IsRow-lt r))
  add_loop-Adds (suc fuel) i c r p = elim (ℕ_discrete (coef rows i) 0) [
    | yes e ↦ (set rows i c, rw found (ground arith), set-Adds i c r e)
    | no ne ↦ elim (ℕ_discrete (bit_xor c (coef rows i)) 0) [
      | yes e ↦ (rows, rw found (ground arith), same-Adds i c r e)
      | no nz ↦
          let d : IsRow w (length rows) i (coef rows i) = coef-IsRow i ne in
          let t : ℕ = trailing_zeros w (bit_xor c (coef rows i)) in
          let (rows', run, adds) =
            add_loop-Adds fuel (i + t) (shr (bit_xor c (coef rows i)) t) (reduce-IsRow r d nz)
              (omega (arith, reduce_later r d nz)) in
          (rows', rw found (ground (arith, run)), reduced-Adds i c r d adds)
    ]
  ]
    where
      found : get_elem? rows i ≡ some (coef rows i)
      found = get_elem?-eq-get_or rows i 0 (IsRow-lt r)
