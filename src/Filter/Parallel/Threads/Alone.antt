-- ===== src/Filter/Parallel/Threads/Alone.antt =====
-- One thread of src/filter/parallel.rs on its own: `band_slice` step by step.
use native.Mathlib.Decide.{ℕ_discrete, dec_le}
use pleat.Common.{
  ℕ, zero, suc, ◌+◌, ◌-◌, ◌≡◌, refl, sym, subst, ◌∙◌, arith, leb, Bool-cases, true, false, inl, inr,
  List, [], ◌∷◌, ◌++◌, append-nil, append_assoc, length, get_or, get_elem?, get_elem?-eq-get_or,
  set, bit_xor, Option, some, none, done, done_inj, done-bind,
}
use pleat.Word.{shr, trailing_zeros}
use pleat.Hash.{ribbon_hash, start, coeff_row}
use pleat.Banding.{w}
use pleat.Filter.Parallel.Ribbon.{slice_loop, settle, band_slice}
use pleat.Filter.Parallel.Threads.{Phase, between, reducing, Worker, reduce_at, advance_in, advance}

module _ (num_starts seed : ℕ) where
  -- The thread takes `n` steps and then is at its end, with these rows and spilled keys.
  pub data Finishes : Worker → List ℕ × List ℕ → ℕ → Type 0 where
    halted :
        {base : ℕ} {rows spilled : List ℕ}
        → Finishes
            (record { base = base; rows = rows; phase = between; keys = []; spilled = spilled })
            (rows, spilled)
            0
    more :
        {t t' : Worker} {out : List ℕ × List ℕ} {n : ℕ}
        → advance num_starts seed t ≡ some t'
        → Finishes t' out n
        → Finishes t out (suc n)

  abbrev at : ℕ → List ℕ → Phase → List ℕ → List ℕ → Worker
  at base rows phase keys spilled = record {
    base = base;
    rows = rows;
    phase = phase;
    keys = keys;
    spilled = spilled;
  }

  -- The thread after the inner loop.
  unfoldable landed : ℕ → List ℕ → List ℕ → ℕ → List ℕ → Option (List ℕ) → Worker
  landed base rows keys k spilled none = at base rows between keys (spilled ++ (k ∷ []))
  landed base rows keys k spilled (some rows') = at base rows' between keys spilled

  -- The inner loop.
  loop-Finishes :
      (base : ℕ) (keys : List ℕ) (k : ℕ) (out : List ℕ × List ℕ) (fuel : ℕ) (rows : List ℕ)
      (i cr : ℕ) (spilled : List ℕ) (found : Option (List ℕ))
      → slice_loop fuel rows i cr ≡ done found
      → ((n : ℕ) × Finishes (landed base rows keys k spilled found) out n)
      → (n : ℕ) × Finishes (at base rows (reducing k i cr) keys spilled) out n
  unfolding slice_loop landed advance advance_in reduce_at
  loop-Finishes base keys k out zero rows i cr spilled found run rest = absurd (ground (arith, run))
  loop-Finishes base keys k out (suc fuel) rows i cr spilled found run rest =
      elim (dec_le (length rows) i) [
        | yes p ↦
            let past : leb (length rows) i ≡ true = ground arith in
            let e : none ≡ found = done_inj (rw past at run) in
            let (n, f) = onto none (sym e) in (suc n, more (rw past refl) f)
        | no p ↦
            let inside : leb (length rows) i ≡ false = ground arith in
            let c : ℕ = get_or rows i 0 in
            let at_i : get_elem? rows i ≡ some c = get_elem?-eq-get_or rows i 0 (omega arith) in
            elim (ℕ_discrete c 0) [
              | yes e ↦
                  let ends : slice_loop (suc fuel) rows i cr ≡ done (some (set rows i cr)) =
                    rw (inside, at_i) (ground arith) in
                  let (n, f) = onto (some (set rows i cr)) (done_inj (sym run ∙ ends)) in
                  (suc n, more (rw inside (ground arith)) f)
              | no ne ↦ elim (ℕ_discrete (bit_xor cr c) 0) [
                | yes e ↦
                    let ends : slice_loop (suc fuel) rows i cr ≡ done (some rows) =
                      rw (inside, at_i) (ground arith) in
                    let (n, f) = onto (some rows) (done_inj (sym run ∙ ends)) in
                    (suc n, more (rw inside (ground arith)) f)
                | no nz ↦
                    let sum : ℕ = bit_xor cr c in
                    let tz : ℕ = trailing_zeros w sum in
                    let goes : slice_loop (suc fuel) rows i cr
                        ≡ slice_loop fuel rows (i + tz) (shr sum tz) =
                      rw (inside, at_i) (ground arith) in
                    let (n, f) =
                      loop-Finishes base keys k out fuel rows (i + tz) (shr sum tz) spilled found
                        (sym goes ∙ run) rest in
                    (suc n, more (rw inside (ground arith)) f)
              ]
            ]
      ]
    where
      onto :
          (other : Option (List ℕ))
          → found ≡ other
          → (n : ℕ) × Finishes (landed base rows keys k spilled other) out n
      onto other e =
          subst (λ o. (n : ℕ) × Finishes (landed base rows keys k spilled o) out n) e rest

  -- The thread after the inner loop, if it goes on with `more`.
  settled-Finishes :
      (base : ℕ) (rows keys : List ℕ) (k : ℕ) (spilled : List ℕ) (found : Option (List ℕ))
      (rest : List ℕ × List ℕ)
      → ((spilled' : List ℕ)
          → (n : ℕ) × Finishes
              (at base (settle k rows found).0 between keys spilled')
              (rest.0, spilled' ++ rest.1)
              n)
      → (n : ℕ) × Finishes
          (landed base rows keys k spilled found)
          (rest.0, spilled ++ ((settle k rows found).1 ++ rest.1))
          n
  unfolding settle landed
  settled-Finishes base rows keys k spilled none rest f =
      let (n, g) = f (spilled ++ (k ∷ [])) in (n, rw (append_assoc spilled (k ∷ []) rest.1) at g)
  settled-Finishes base rows keys k spilled (some rows') rest f = f spilled

  -- Where `band_slice` returns, the thread comes to its end in the same rows and spilled keys.
  pub band_slice-Finishes :
      (keys : List ℕ) (base : ℕ) (rows spilled : List ℕ) (out : List ℕ × List ℕ)
      → band_slice rows base num_starts seed keys ≡ done out
      → (n : ℕ) × Finishes (at base rows between keys spilled) (out.0, spilled ++ out.1) n
  unfolding band_slice advance advance_in
  band_slice-Finishes [] base rows spilled out run = (
    0,
    subst
        (λ (o : List ℕ × List ℕ).
          Finishes (at base rows between [] spilled) (o.0, spilled ++ o.1) 0)
        (done_inj run) (rw (append-nil spilled) halted),
  )
  band_slice-Finishes (k ∷ keys) base rows spilled out run =
      let st : ℕ = start (ribbon_hash k seed) num_starts in
      elim (Bool-cases (leb base st)) [
        | inr e ↦ absurd (ground (arith, rw e at run))
        | inl e ↦
            let (found, loop, next) = done-bind _ _ out (rw e at run) in
            let (rest, slice, end) = done-bind _ _ out next in
            let (n, f) =
              loop-Finishes base keys k (rest.0, spilled ++ ((settle k rows found).1 ++ rest.1))
                (suc (length rows)) rows (st - base) (coeff_row (ribbon_hash k seed)) spilled found
                loop
                (settled-Finishes base rows keys k spilled found rest (λ spilled'.
                  band_slice-Finishes keys base (settle k rows found).0 spilled' rest slice)) in
            (
              suc n,
              subst
                  (λ (o : List ℕ × List ℕ).
                    Finishes (at base rows between (k ∷ keys) spilled) (o.0, spilled ++ o.1)
                      (suc n))
                  (done_inj end) (more (rw e refl) f),
            )
      ]
