-- ===== src/Banding/Build.antt =====
-- `new`, `add` and `add_all` of src/banding.rs: the matrix built from a list of keys.
use pleat.Common.{
  ℕ, suc, ◌+◌, ◌-◌, ◌%◌, ◌^◌, ◌<◌, ◌≡◌, refl, sym, ◌∙◌, arith, Bool, true, false, inl, List, [],
  ◌∷◌, ◌++◌, length, replicate, length-replicate, get_or-replicate, All, All-append, append-All,
  done,
}
use pleat.Word.Bits.{bit_past}
use pleat.Word.Parity.{dot, from}
use pleat.Hash.{ribbon_hash, start, coeff_row}
use pleat.Hash.Bounds.{ribbon_hash-lt, start-lt, coeff_row-odd, coeff_row-lt}
use pleat.System.{Solves, IsRow, IsEchelon}
use pleat.System.Fill.{dot_zero}
use pleat.Banding.{Banding, w, new, add, add_all}
use pleat.Banding.Add.{coef, zeros, Adds, add_loop-Adds}

-- The matrix has a slot for each start and the row that begins there, and its rows are in echelon
-- form.
pub record IsBand (b : Banding) : Type 0 where
  pub starts : 0 < b.num_starts
  pub starts_u64 : b.num_starts < 2 ^ 64
  pub slots : b.num_starts + 63 ≡ length b.coeff_rows
  pub echelon : IsEchelon w (length b.coeff_rows) (coef b.coeff_rows)

-- `x` solves the matrix.
abbrev pub BandSolves : Banding → (ℕ → Bool) → Type 0
BandSolves b x = Solves w (coef b.coeff_rows) zeros x

-- `x` solves the equation of a key: what a query of the key tests in each column.
abbrev pub Accepts : ℕ → ℕ → (ℕ → Bool) → ℕ → Type 0
Accepts num_starts raw_seed x key =
    let h = ribbon_hash key raw_seed in dot w (coeff_row h) (from (start h num_starts) x) ≡ false

-- The matrix `b'` is `b` with the keys added: well formed, over the same slots and seed, and solved
-- by exactly the solutions of `b` that solve the equation of each key.
pub record Extends (b : Banding) (keys : List ℕ) (b' : Banding) : Type 0 where
  pub band : IsBand b'
  pub same_length : length b'.coeff_rows ≡ length b.coeff_rows
  pub same_starts : b'.num_starts ≡ b.num_starts
  pub same_seed : b'.raw_seed ≡ b.raw_seed
  pub kept : (x : ℕ → Bool) → BandSolves b' x → BandSolves b x
  pub accepts : (x : ℕ → Bool) → BandSolves b' x → All (Accepts b.num_starts b.raw_seed x) keys
  pub only :
      (x : ℕ → Bool)
      → BandSolves b x
      → All (Accepts b.num_starts b.raw_seed x) keys
      → BandSolves b' x

pub key-IsRow :
    (h num_starts n : ℕ)
    → h < 2 ^ 64
    → 0 < num_starts
    → num_starts < 2 ^ 64
    → num_starts + 63 ≡ n
    → IsRow w n (start h num_starts) (coeff_row h)
key-IsRow h num_starts n hw pos lt e = record {
  first = coeff_row-odd h;
  word = coeff_row-lt h;
  fits = λ b t.
      ground (arith, start-lt h num_starts hw pos lt, bit_past 64 b (coeff_row h) (coeff_row-lt h));
}

-- Adding the row of a key to the rows adds the key to the matrix.
pub Adds-Extends :
    (b : Banding) (key : ℕ) (rows' : List ℕ)
    → IsBand b
    → (let h = ribbon_hash key b.raw_seed in
        Adds b.coeff_rows (start h b.num_starts) (coeff_row h) rows')
    → Extends b (key ∷ []) (record b { coeff_rows = rows' })
Adds-Extends b key rows' v a = record {
  band = record {
    starts = v.starts;
    starts_u64 = v.starts_u64;
    slots = v.slots ∙ sym a.same_length;
    echelon = rw a.same_length a.echelon;
  };
  same_length = a.same_length;
  same_starts = refl;
  same_seed = refl;
  kept = a.kept;
  accepts = λ x s. (a.added x s, tt);
  only = λ x s q. a.only x s q.0;
}

-- On a well-formed homogeneous matrix `add` returns `true`, without a panic and within the fuel,
-- and leaves a matrix that is well formed, has the same slots, starts and seed, and is solved by
-- exactly those solutions of the old one that solve the equation of the key.
pub add-Extends :
    (b : Banding) (key : ℕ)
    → IsBand b
    → (b' : Banding) × (add b key ≡ done (b', true)) × Extends b (key ∷ []) b'
unfolding add
add-Extends b key v =
    let h : ℕ = ribbon_hash key b.raw_seed in
    let (rows', run, a) =
      add_loop-Adds b.coeff_rows v.echelon (suc (length b.coeff_rows)) (start h b.num_starts)
        (coeff_row h)
        (key-IsRow h b.num_starts (length b.coeff_rows) (ribbon_hash-lt key b.raw_seed) v.starts
          v.starts_u64 v.slots)
        (omega arith) in
    (record b { coeff_rows = rows' }, rw run, Adds-Extends b key rows' v a)

pub Extends-refl : (b : Banding) → IsBand b → Extends b [] b
Extends-refl b v = record {
  band = v;
  same_length = refl;
  same_starts = refl;
  same_seed = refl;
  kept = λ x s. s;
  accepts = λ x s. tt;
  only = λ x s q. s;
}

pub Extends-trans :
    (b b' b'' : Banding) (keys more : List ℕ)
    → Extends b keys b'
    → Extends b' more b''
    → Extends b (keys ++ more) b''
Extends-trans b b' b'' keys more e f = record {
  band = f.band;
  same_length = f.same_length ∙ e.same_length;
  same_starts = f.same_starts ∙ e.same_starts;
  same_seed = f.same_seed ∙ e.same_seed;
  kept = λ x s. e.kept x (f.kept x s);
  accepts = λ x s. All-append _ keys more (e.accepts x (f.kept x s)) (moved x (f.accepts x s));
  only = λ x s q.
      let (old, new) = append-All _ keys more q in f.only x (e.only x s old) (moved_back x new);
}
  where
    moved :
        (x : ℕ → Bool)
        → All (Accepts b'.num_starts b'.raw_seed x) more
        → All (Accepts b.num_starts b.raw_seed x) more
    moved x q = rw (e.same_starts, e.same_seed) at q

    moved_back :
        (x : ℕ → Bool)
        → All (Accepts b.num_starts b.raw_seed x) more
        → All (Accepts b'.num_starts b'.raw_seed x) more
    moved_back x q = rw (e.same_starts, e.same_seed) q

-- `add_all` adds the equations of all its keys.
pub add_all-Extends :
    (b : Banding) (keys : List ℕ)
    → IsBand b
    → (b' : Banding) × (add_all b keys ≡ done b') × Extends b keys b'
unfolding add_all
add_all-Extends b [] v = (b, refl, Extends-refl b v)
add_all-Extends b (k ∷ keys) v =
    let (b', run, e) = add-Extends b k v in
    let (b'', run', f) = add_all-Extends b' keys e.band in
    (b'', rw run run', Extends-trans b b' b'' (k ∷ []) keys e f)

-- A new matrix is empty: everything solves it.
pub new-IsBand :
    (num_slots raw_seed : ℕ)
    → num_slots % 64 ≡ 0
    → 0 < num_slots
    → num_slots < 2 ^ 64
    → (b : Banding) × (new num_slots raw_seed ≡ done b)
      × IsBand b
      × (length b.coeff_rows ≡ num_slots)
      × (b.num_starts ≡ num_slots - 63)
      × (b.raw_seed ≡ raw_seed)
      × ((x : ℕ → Bool) → BandSolves b x)
unfolding new
new-IsBand num_slots raw_seed m pos lt = (
  record {
    coeff_rows = replicate num_slots 0;
    num_starts = num_slots - w + 1;
    raw_seed = raw_seed;
  },
  ground arith,
  record {
    starts = omega arith;
    starts_u64 = omega arith;
    slots = omega (arith, length-replicate {A = ℕ} num_slots 0);
    echelon = record {
      slot = λ i. inl (get_or-replicate num_slots i 0);
      past = λ i p. get_or-replicate num_slots i 0;
    };
  },
  length-replicate {A = ℕ} num_slots 0,
  omega arith,
  refl,
  λ x i. rw (get_or-replicate {A = ℕ} num_slots i 0) (dot_zero w (from i x)),
)
