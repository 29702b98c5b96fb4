-- ===== src/Banding128/Build.antt =====
-- `new`, `reset`, `add` and the run of `add` over the keys for one seed.
use pleat.Common.{
  ℕ, suc, ◌+◌, ◌^◌, ◌<◌, ◌≡◌, refl, ◌∙◌, arith, Bool, true, false, ◌⊎◌, inl, inr, List, [], ◌∷◌,
  length, All, done,
}
use pleat.Word.Bits.{bit, bit_past}
use pleat.Word.Parity.{dot, from}
use pleat.Hash.{ribbon_hash, start, coeff_row_128, result_row}
use pleat.Hash.Bounds.{ribbon_hash-lt, start-lt, coeff_row_128-odd, coeff_row_128-lt, result_row-lt}
use pleat.System.{Solves, IsRow}
use pleat.Banding128.{Banding128, w128, add}
use pleat.Banding128.Add.{coef, rhs, Adds, IsMatrix, add_loop-Ends}

-- The shape of the matrix, which no operation changes.
pub record HasShape (n : ℕ) (b : Banding128) : Type 0 where
  pub starts : 0 < b.num_starts
  pub starts_u64 : b.num_starts < 2 ^ 64
  pub slots : b.num_starts + 127 ≡ n
  pub rows : length b.coeff_rows ≡ n
  pub results : length b.result_rows ≡ n

abbrev pub BandSolves : Banding128 → ℕ → (ℕ → Bool) → Type 0
BandSolves b j x = Solves w128 (coef b.coeff_rows) (rhs b.result_rows j) x

-- `x` solves the equation of a key in column `j`.
abbrev pub Accepts : ℕ → ℕ → ℕ → (ℕ → Bool) → ℕ → Type 0
Accepts num_starts raw_seed j x key =
    let h = ribbon_hash key raw_seed in
    dot w128 (coeff_row_128 h) (from (start h num_starts) x) ≡ bit j (result_row h)

-- `b'` is `b` with the keys added: in each column it is solved by exactly the solutions of `b` that
-- solve the equation of each key.
pub record Extends (n : ℕ) (b : Banding128) (keys : List ℕ) (b' : Banding128) : Type 0 where
  pub shape : HasShape n b'
  pub matrix : IsMatrix b'.coeff_rows b'.result_rows
  pub same_starts : b'.num_starts ≡ b.num_starts
  pub same_seed : b'.raw_seed ≡ b.raw_seed
  pub same_ordinal : b'.ordinal_seed ≡ b.ordinal_seed
  pub kept : (j : ℕ) (x : ℕ → Bool) → BandSolves b' j x → BandSolves b j x
  pub accepts :
      (j : ℕ) (x : ℕ → Bool) → BandSolves b' j x → All (Accepts b.num_starts b.raw_seed j x) keys
  pub only :
      (j : ℕ) (x : ℕ → Bool)
      → BandSolves b j x
      → All (Accepts b.num_starts b.raw_seed j x) keys
      → BandSolves b' j x

-- No choice of columns solves both `b` and the keys.
abbrev pub Clashes : Banding128 → List ℕ → Type 0
Clashes b keys =
    (x : ℕ → ℕ → Bool)
    → ((j : ℕ) → j < 32 → BandSolves b j (x j))
    → ((j : ℕ) → j < 32 → All (Accepts b.num_starts b.raw_seed j (x j)) keys)
    → ⊥

-- What a run over keys ends in.
abbrev pub Ran : ℕ → Banding128 → List ℕ → Banding128 × Bool → Type 0
Ran n b keys out =
    ((out.1 ≡ true) × Extends n b keys out.0)
    ⊎ ((out.1 ≡ false) × HasShape n out.0 × (out.0.num_starts ≡ b.num_starts) × Clashes b keys)

pub key-IsRow :
    (h num_starts n : ℕ)
    → h < 2 ^ 64
    → 0 < num_starts
    → num_starts < 2 ^ 64
    → num_starts + 127 ≡ n
    → IsRow w128 n (start h num_starts) (coeff_row_128 h)
key-IsRow h num_starts n hw pos lt e = record {
  first = coeff_row_128-odd h;
  word = coeff_row_128-lt h;
  fits = λ b t. ground (
    arith,
    start-lt h num_starts hw pos lt,
    bit_past 128 b (coeff_row_128 h) (coeff_row_128-lt h),
  );
}

-- Adding the row of a key to the rows adds the key to the matrix.
pub Adds-Extends :
    (n : ℕ) (b : Banding128) (key : ℕ) (rows' results' : List ℕ)
    → HasShape n b
    → (let h = ribbon_hash key b.raw_seed in
        Adds b.coeff_rows b.result_rows
          (start h b.num_starts)
          (coeff_row_128 h)
          (result_row h)
          rows'
          results')
    → Extends n b (key ∷ []) (record b { coeff_rows = rows'; result_rows = results' })
Adds-Extends n b key rows' results' v a = record {
  shape = record {
    starts = v.starts;
    starts_u64 = v.starts_u64;
    slots = v.slots;
    rows = a.same_length ∙ v.rows;
    results = a.matrix.same ∙ a.same_length ∙ v.rows;
  };
  matrix = a.matrix;
  same_starts = refl;
  same_seed = refl;
  same_ordinal = refl;
  kept = a.kept;
  accepts = λ j x s. (a.added j x s, tt);
  only = λ j x s q. a.only j x s q.0;
}

-- On a well-formed standard matrix `add` returns without a panic and within the fuel. Either it
-- returns `true` and the new matrix is well formed and is solved, in each column, by exactly
-- those solutions of the old one that solve the equation of the key; or it returns `false`, the
-- shape is kept, and no choice of the first 32 columns solves both the old matrix and the key's
-- equations.
pub add-Ran :
    (n : ℕ) (b : Banding128) (key : ℕ)
    → HasShape n b
    → IsMatrix b.coeff_rows b.result_rows
    → (out : Banding128 × Bool) × (add b key ≡ done out) × Ran n b (key ∷ []) out
unfolding add
add-Ran n b key v m =
    let h : ℕ = ribbon_hash key b.raw_seed in
    let (out, run, ends) =
      add_loop-Ends b.coeff_rows b.result_rows m (suc (length b.coeff_rows)) (start h b.num_starts)
        (coeff_row_128 h) (result_row h)
        (key-IsRow h b.num_starts (length b.coeff_rows) (ribbon_hash-lt key b.raw_seed) v.starts
          v.starts_u64 (omega (arith, v.slots, v.rows)))
        (result_row-lt h) (omega arith) in
    (
      (record b { coeff_rows = out.0; result_rows = out.1 }, out.2),
      rw run,
      elim ends [
        | inl (ok, a) ↦ inl (ok, Adds-Extends n b key out.0 out.1 v a)
        | inr (ok, l, l', k) ↦ inr (
          ok,
          record {
            starts = v.starts;
            starts_u64 = v.starts_u64;
            slots = v.slots;
            rows = l ∙ v.rows;
            results = l' ∙ v.results;
          },
          refl,
          λ x s q. k x s (λ j p. (q j p).0),
        )
      ],
    )
