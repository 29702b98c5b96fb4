-- ===== src/Banding128/While.antt =====
-- The run of `add` over the keys, which stops at the first key that fails, on a fresh matrix.
use pleat.Common.{
  ℕ, zero, suc, ◌+◌, ◌-◌, ◌%◌, ◌^◌, ◌<◌, ◌≡◌, refl, sym, ap, ◌∙◌, arith, Bool, true, false, inl,
  inr, List, [], ◌∷◌, ◌++◌, length, get_or, map, replicate, length-replicate, All, All-append,
  append-All, done,
}
use pleat.Word.Bits.{bit-zero}
use pleat.Word.Parity.{from}
use pleat.Hash.{ordinal_to_raw_seed}
use pleat.System.Fill.{dot_zero}
use pleat.Banding128.{Banding128, w128, new, reset, add_while}
use pleat.Banding128.Add.{IsMatrix}
use pleat.Banding128.Build.{HasShape, BandSolves, Accepts, Extends, Clashes, Ran, add-Ran}

pub Extends-refl :
    (n : ℕ) (b : Banding128) → HasShape n b → IsMatrix b.coeff_rows b.result_rows → Extends n b [] b
Extends-refl n b v m = record {
  shape = v;
  matrix = m;
  same_starts = refl;
  same_seed = refl;
  same_ordinal = refl;
  kept = λ j x s. s;
  accepts = λ j x s. tt;
  only = λ j x s q. s;
}

-- A matrix with some keys added, and more keys to come.
module _ {n : ℕ} {b b' : Banding128} {some : List ℕ} (e : Extends n b some b') where
  moved :
      (j : ℕ) (x : ℕ → Bool) (keys : List ℕ)
      → All (Accepts b'.num_starts b'.raw_seed j x) keys
      → All (Accepts b.num_starts b.raw_seed j x) keys
  moved j x keys q = rw (e.same_starts, e.same_seed) at q

  moved_back :
      (j : ℕ) (x : ℕ → Bool) (keys : List ℕ)
      → All (Accepts b.num_starts b.raw_seed j x) keys
      → All (Accepts b'.num_starts b'.raw_seed j x) keys
  moved_back j x keys q = rw (e.same_starts, e.same_seed) q

  pub Extends-append :
      {b'' : Banding128} {keys : List ℕ} → Extends n b' keys b'' → Extends n b (some ++ keys) b''
  Extends-append {keys} f = record {
    shape = f.shape;
    matrix = f.matrix;
    same_starts = f.same_starts ∙ e.same_starts;
    same_seed = f.same_seed ∙ e.same_seed;
    same_ordinal = f.same_ordinal ∙ e.same_ordinal;
    kept = λ j x s. e.kept j x (f.kept j x s);
    accepts = λ j x s.
        All-append _ some keys (e.accepts j x (f.kept j x s)) (moved j x keys (f.accepts j x s));
    only = λ j x s q.
        let (old, new) = append-All _ some keys q in
        f.only j x (e.only j x s old) (moved_back j x keys new);
  }

  pub Clashes-append : (keys : List ℕ) → Clashes b' keys → Clashes b (some ++ keys)
  Clashes-append keys k x s q =
      k x (λ j p. e.only j (x j) (s j p) (append-All _ some keys (q j p)).0)
        (λ j p. moved_back j (x j) keys (append-All _ some keys (q j p)).1)

  Ran-append :
      {keys : List ℕ} {out : Banding128 × Bool} → Ran n b' keys out → Ran n b (some ++ keys) out
  Ran-append {keys} (inl (ok, f)) = inl (ok, Extends-append f)
  Ran-append {keys} (inr (ok, v, s, k)) = inr (ok, v, s ∙ e.same_starts, Clashes-append keys k)

Ran-head :
    {n : ℕ} {b : Banding128} {key : ℕ} (keys : List ℕ) {out : Banding128 × Bool}
    → (out.1 ≡ false) × HasShape n out.0 × (out.0.num_starts ≡ b.num_starts) × Clashes b (key ∷ [])
    → Ran n b (key ∷ keys) out
Ran-head keys (ok, v, s, k) = inr (ok, v, s, λ x t q. k x t (λ j p. ((q j p).0, tt)))

-- The run does not panic. It adds all the keys, or it stops at a clash.
pub add_while-Ran :
    (n : ℕ) (b : Banding128) (keys : List ℕ)
    → HasShape n b
    → IsMatrix b.coeff_rows b.result_rows
    → (out : Banding128 × Bool) × (add_while b keys ≡ done out) × Ran n b keys out
unfolding add_while
add_while-Ran n b [] v m = ((b, true), refl, inl (refl, Extends-refl n b v m))
add_while-Ran n b (k ∷ keys) v m =
    let (out, run, ran) = add-Ran n b k v m in
    elim ran [
      | inl (ok, e) ↦
          let (out', run', ran') = add_while-Ran n out.0 keys e.shape e.matrix in
          (out', rw (run, ok) run', Ran-append e ran')
      | inr (ok, v, s, c) ↦ (out, rw (run, ok) refl, Ran-head keys (ok, v, s, c))
    ]

-- `iter_mut().for_each(|c| *c = 0)`.
abbrev zeroed : List ℕ → List ℕ
zeroed = map (λ c. 0)

get_or-zeroed : (xs : List ℕ) (i : ℕ) → get_or (zeroed xs) i 0 ≡ 0
get_or-zeroed [] i = refl
get_or-zeroed (x ∷ xs) zero = refl
get_or-zeroed (x ∷ xs) (suc i) = get_or-zeroed xs i

length-zeroed : (xs : List ℕ) → length (zeroed xs) ≡ length xs
length-zeroed [] = refl
length-zeroed (x ∷ xs) = ap suc (length-zeroed xs)

All-zeroed : (xs : List ℕ) → All (λ r. r < 2 ^ 32) (zeroed xs)
All-zeroed [] = tt
All-zeroed (x ∷ xs) = (omega arith, All-zeroed xs)

-- `reset` leaves an empty matrix, which everything solves, under the seed of the ordinal.
pub record IsFresh (n num_starts ordinal : ℕ) (b : Banding128) : Type 0 where
  pub shape : HasShape n b
  pub matrix : IsMatrix b.coeff_rows b.result_rows
  pub same_starts : b.num_starts ≡ num_starts
  pub seed : b.raw_seed ≡ ordinal_to_raw_seed ordinal
  pub ordinal_is : b.ordinal_seed ≡ ordinal
  pub free : (j : ℕ) (x : ℕ → Bool) → BandSolves b j x

pub reset-IsFresh :
    (n num_starts : ℕ) (b : Banding128) (ordinal : ℕ)
    → HasShape n b
    → b.num_starts ≡ num_starts
    → IsFresh n num_starts ordinal (reset b ordinal)
unfolding reset
reset-IsFresh n num_starts b ordinal v e = record {
  shape = record {
    starts = v.starts;
    starts_u64 = v.starts_u64;
    slots = v.slots;
    rows = length-zeroed b.coeff_rows ∙ v.rows;
    results = length-zeroed b.result_rows ∙ v.results;
  };
  matrix = record {
    same = length-zeroed b.result_rows ∙ v.results ∙ sym v.rows ∙ sym (length-zeroed b.coeff_rows);
    echelon = record {
      slot = λ i. inl (get_or-zeroed b.coeff_rows i);
      past = λ i p. get_or-zeroed b.coeff_rows i;
    };
    u32 = All-zeroed b.result_rows;
    empty = λ i e. get_or-zeroed b.result_rows i;
  };
  same_starts = e;
  seed = refl;
  ordinal_is = refl;
  free = λ j x i.
      rw (get_or-zeroed b.coeff_rows i, get_or-zeroed b.result_rows i, bit-zero j)
        (dot_zero w128 (from i x));
}

pub new-HasShape :
    (n : ℕ)
    → n % 128 ≡ 0
    → 0 < n
    → n < 2 ^ 64
    → (b : Banding128) × (new n ≡ done b) × HasShape n b × (b.num_starts ≡ n - 127)
unfolding new
new-HasShape n m pos lt = (
  record {
    coeff_rows = replicate n 0;
    result_rows = replicate n 0;
    num_starts = n - w128 + 1;
    raw_seed = 0;
    ordinal_seed = 0;
  },
  ground arith,
  record {
    starts = omega arith;
    starts_u64 = omega arith;
    slots = omega arith;
    rows = length-replicate {A = ℕ} n 0;
    results = length-replicate {A = ℕ} n 0;
  },
  omega arith,
)
