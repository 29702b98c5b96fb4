-- ===== src/Banding128/Seed.antt =====
-- `find_seed` and `find_seed_pleated` of src/banding128.rs, against the ordinals whose equations
-- have a solution.
use native.Mathlib.Decide.{ℕ_discrete}
use mathlib.Core.List.{Perm}
use mathlib.Core.List.Perm
use mathlib.Core.Bool.{Bool-set}
use pleat.Common.{
  ℕ, zero, suc, ◌+◌, ◌-◌, ◌%◌, ◌^◌, ◌≤◌, ◌<◌, ◌≡◌, refl, sym, ap, subst, ◌∙◌, arith, true, false,
  Bool, ◌⊎◌, ◌↔◌, inl, inr, List, length, length-perm, length-replicate, replicate, lt→ltb, All,
  All-perm, Option, some, none, done,
}
use pleat.Hash.{ribbon_hash, start, ordinal_to_raw_seed}
use pleat.Hash.Bounds.{ribbon_hash-lt, start-lt}
use pleat.Pleat
use pleat.Pleat.Order.{pleat_into-perm}
use pleat.Banding128.{
  Banding128, reset, add_while, seed_loop, seed_count, find_seed, seed_loop_pleated,
  find_seed_pleated,
}
use pleat.Banding128.Add.{IsMatrix}
use pleat.Banding128.Build.{HasShape, BandSolves, Accepts, Extends, Clashes}
use pleat.Banding128.While.{add_while-Ran, IsFresh, reset-IsFresh, new-HasShape}

-- The columns `x` solve the equations of all keys, under the seed of an ordinal.
abbrev pub SolvesAll : ℕ → ℕ → List ℕ → (ℕ → ℕ → Bool) → Type 0
SolvesAll num_starts ordinal keys x =
    (j : ℕ) → j < 32 → All (Accepts num_starts (ordinal_to_raw_seed ordinal) j (x j)) keys

abbrev pub Unsolvable : ℕ → ℕ → List ℕ → Type 0
Unsolvable num_starts ordinal keys = (x : ℕ → ℕ → Bool) → SolvesAll num_starts ordinal keys x → ⊥

-- A matrix whose solutions, column by column, are those of the equations of the keys.
pub record Solved (num_starts : ℕ) (keys : List ℕ) (b : Banding128) : Type 0 where
  pub shape : HasShape (num_starts + 127) b
  pub matrix : IsMatrix b.coeff_rows b.result_rows
  pub same_starts : b.num_starts ≡ num_starts
  pub seed : b.raw_seed ≡ ordinal_to_raw_seed b.ordinal_seed
  pub accepts :
      (j : ℕ) (x : ℕ → Bool)
      → BandSolves b j x
      → All (Accepts num_starts (ordinal_to_raw_seed b.ordinal_seed) j x) keys
  pub only :
      (j : ℕ) (x : ℕ → Bool)
      → All (Accepts num_starts (ordinal_to_raw_seed b.ordinal_seed) j x) keys
      → BandSolves b j x

-- What the search over the ordinals `lo .. hi` finds: nothing, if none of them has a solution, or
-- the matrix of the first that has one.
abbrev pub Search : ℕ → List ℕ → ℕ → ℕ → Option Banding128 → Type 0
Search num_starts keys lo hi out =
    ((out ≡ none) × ((o : ℕ) → lo ≤ o → o < hi → Unsolvable num_starts o keys))
    ⊎ ((b : Banding128) × (out ≡ some b)
        × Solved num_starts keys b
        × (lo ≤ b.ordinal_seed)
        × (b.ordinal_seed < hi)
        × ((o : ℕ) → lo ≤ o → o < b.ordinal_seed → Unsolvable num_starts o keys))

pub Search-later :
    (num_starts : ℕ) (keys : List ℕ) (lo hi : ℕ) (out : Option Banding128)
    → Unsolvable num_starts lo keys
    → Search num_starts keys (suc lo) hi out
    → Search num_starts keys lo hi out
Search-later num_starts keys lo hi out u (inl (e, h)) = inl (
  e,
  λ o p q. elim (ℕ_discrete lo o) [ yes f ↦ λ x s. u x (rw f s) | no ne ↦ h o (omega arith) q ],
)
Search-later num_starts keys lo hi out u (inr (b, e, s, l, m, h)) = inr (
  b,
  e,
  s,
  omega arith,
  m,
  λ o p q. elim (ℕ_discrete lo o) [ yes f ↦ λ x s. u x (rw f s) | no ne ↦ h o (omega arith) q ],
)

-- What one run over the keys shows of the ordinal.
module _ (num_starts ordinal : ℕ) (keys : List ℕ) {b : Banding128}
    (f : IsFresh (num_starts + 127) num_starts ordinal b) where
  pub Extends-Solved :
      {b' : Banding128} → Extends (num_starts + 127) b keys b' → Solved num_starts keys b'
  Extends-Solved {b'} e =
      let o : b'.ordinal_seed ≡ ordinal = e.same_ordinal ∙ f.ordinal_is in
      record {
        shape = e.shape;
        matrix = e.matrix;
        same_starts = e.same_starts ∙ f.same_starts;
        seed = e.same_seed ∙ f.seed ∙ ap ordinal_to_raw_seed (sym o);
        accepts = λ j x s. rw o (rw (f.same_starts, f.seed) at (e.accepts j x s));
        only = λ j x q. e.only j x (f.free j x) (rw (f.same_starts, f.seed) (rw o at q));
      }

  pub Clashes-Unsolvable : Clashes b keys → Unsolvable num_starts ordinal keys
  Clashes-Unsolvable k x q = k x (λ j p. f.free j (x j)) (λ j p. rw (f.same_starts, f.seed) (q j p))

-- The keys are those that the loop adds, in any order.
pub Solved-same :
    (num_starts : ℕ) (keys keys' : List ℕ) (b : Banding128)
    → ((P : ℕ → Type 0) → ((k : ℕ) → IsProp (P k)) → All P keys ↔ All P keys')
    → Solved num_starts keys b
    → Solved num_starts keys' b
Solved-same num_starts keys keys' b f s = record {
  shape = s.shape;
  matrix = s.matrix;
  same_starts = s.same_starts;
  seed = s.seed;
  accepts = λ j x t. (f _ (λ k. Bool-set _ _)).0 (s.accepts j x t);
  only = λ j x q. s.only j x ((f _ (λ k. Bool-set _ _)).1 q);
}

Solved-perm :
    (num_starts : ℕ) (keys keys' : List ℕ) (b : Banding128)
    → Perm keys keys'
    → Solved num_starts keys b
    → Solved num_starts keys' b
Solved-perm num_starts keys keys' b p s =
    Solved-same num_starts keys keys' b
      (λ P prop. (All-perm P prop p, All-perm P prop (Perm.symm p))) s

Unsolvable-perm :
    (num_starts o : ℕ) (keys keys' : List ℕ)
    → Perm keys keys'
    → Unsolvable num_starts o keys
    → Unsolvable num_starts o keys'
Unsolvable-perm num_starts o keys keys' p u x q =
    u x (λ j l. All-perm (Accepts num_starts _ j (x j)) (λ k. Bool-set _ _) (Perm.symm p) (q j l))

-- The order of the keys does not matter to the search.
pub Search-perm :
    (num_starts lo hi : ℕ) (keys keys' : List ℕ) (out : Option Banding128)
    → Perm keys keys'
    → Search num_starts keys lo hi out
    → Search num_starts keys' lo hi out
Search-perm num_starts lo hi keys keys' out p (inl (e, h)) =
    inl (e, λ o l q. Unsolvable-perm num_starts o keys keys' p (h o l q))
Search-perm num_starts lo hi keys keys' out p (inr (b, e, s, l, m, h)) = inr (
  b,
  e,
  Solved-perm num_starts keys keys' b p s,
  l,
  m,
  λ o l' q. Unsolvable-perm num_starts o keys keys' p (h o l' q),
)

-- One round of the search, on any order of the keys: the matrix is solved, or the ordinal has no
-- solution and the matrix can be reset again.
abbrev pub Tried : ℕ → ℕ → List ℕ → Banding128 × Bool → Type 0
Tried num_starts ordinal keys out =
    ((out.1 ≡ true) × Solved num_starts keys out.0 × (out.0.ordinal_seed ≡ ordinal))
    ⊎ ((out.1 ≡ false)
        × HasShape (num_starts + 127) out.0
        × (out.0.num_starts ≡ num_starts)
        × Unsolvable num_starts ordinal keys)

attempt :
    (num_starts ordinal : ℕ) (keys keys' : List ℕ) (b : Banding128)
    → HasShape (num_starts + 127) b
    → b.num_starts ≡ num_starts
    → Perm keys' keys
    → (out : Banding128 × Bool) × (add_while (reset b ordinal) keys' ≡ done out)
      × Tried num_starts ordinal keys out
attempt num_starts ordinal keys keys' b v e p =
    let f : IsFresh (num_starts + 127) num_starts ordinal (reset b ordinal) =
      reset-IsFresh (num_starts + 127) num_starts b ordinal v e in
    let (out, run, ran) =
      add_while-Ran (num_starts + 127) (reset b ordinal) keys' f.shape f.matrix in
    (
      out,
      run,
      elim ran [
        | inl (ok, t) ↦ inl (
          ok,
          Solved-perm num_starts keys' keys out.0 p (Extends-Solved num_starts ordinal keys' f t),
          t.same_ordinal ∙ f.ordinal_is,
        )
        | inr (ok, s, d, k) ↦ inr (
          ok,
          s,
          d ∙ f.same_starts,
          Unsolvable-perm num_starts ordinal keys' keys p
              (Clashes-Unsolvable num_starts ordinal keys' f k),
        )
      ],
    )

pub Search-first :
    (num_starts ordinal n : ℕ) (keys : List ℕ) (b : Banding128)
    → Solved num_starts keys b
    → b.ordinal_seed ≡ ordinal
    → Search num_starts keys ordinal (ordinal + suc n) (some b)
Search-first num_starts ordinal n keys b s o =
    inr (b, refl, s, omega (arith, o), omega (arith, o), λ i p q. absurd (omega (arith, o)))

seed_loop-Search :
    (num_starts n ordinal : ℕ) (b : Banding128) (keys : List ℕ)
    → HasShape (num_starts + 127) b
    → b.num_starts ≡ num_starts
    → (out : Option Banding128) × (seed_loop n ordinal b keys ≡ done out)
      × Search num_starts keys ordinal (ordinal + n) out
unfolding seed_loop
seed_loop-Search num_starts zero ordinal b keys v e =
    (none, refl, inl (refl, λ o p q. absurd (omega arith)))
seed_loop-Search num_starts (suc n) ordinal b keys v e =
    let (r, run, t) = attempt num_starts ordinal keys keys b v e (Perm.refl keys) in
    elim t [
      | inl (ok, s, o) ↦
          (some r.0, rw (run, ok) refl, Search-first num_starts ordinal n keys r.0 s o)
      | inr (ok, s, d, u) ↦
          let (out, run', h) = seed_loop-Search num_starts n (suc ordinal) r.0 keys s d in
          let hi : suc ordinal + n ≡ ordinal + suc n = omega arith in
          (
            out,
            rw (run, ok) run',
            Search-later num_starts keys ordinal (ordinal + suc n) out u (rw hi at h),
          )
    ]

seed_loop_pleated-Search :
    (num_starts window_shift n ordinal : ℕ) (b : Banding128) (keys scratch : List ℕ)
    → window_shift < 64
    → num_starts < 2 ^ 64
    → HasShape (num_starts + 127) b
    → b.num_starts ≡ num_starts
    → length keys ≡ length scratch
    → (out : Option Banding128) × (seed_loop_pleated n ordinal b keys scratch num_starts
          window_shift
        ≡ done out)
      × Search num_starts keys ordinal (ordinal + n) out
unfolding seed_loop_pleated Pleat.new
seed_loop_pleated-Search num_starts window_shift zero ordinal b keys scratch sh lt v e len =
    (none, refl, inl (refl, λ o p q. absurd (omega arith)))
seed_loop_pleated-Search num_starts window_shift (suc n) ordinal b keys scratch sh lt v e len =
    let starts : 0 < num_starts = omega (arith, v.starts, e) in
    let (p, run, ordered) =
      pleat_into-perm (record { num_starts = num_starts; shift = window_shift })
        (λ k. start (ribbon_hash k (reset b ordinal).raw_seed) num_starts) keys scratch
        (λ k.
          start-lt (ribbon_hash k (reset b ordinal).raw_seed) num_starts
            (ribbon_hash-lt k (reset b ordinal).raw_seed) starts lt)
        len in
    let (r, run', t) = attempt num_starts ordinal keys p.0 b v e ordered in
    elim t [
      | inl (ok, s, o) ↦ (
        some r.0,
        rw (lt→ltb window_shift 64 sh, run, run', ok) refl,
        Search-first num_starts ordinal n keys r.0 s o,
      )
      | inr (ok, s, d, u) ↦
          let (out, rest, h) =
            seed_loop_pleated-Search num_starts window_shift n (suc ordinal) r.0 keys p.0 sh lt s d
              (sym (length-perm ordered)) in
          let hi : suc ordinal + n ≡ ordinal + suc n = omega arith in
          (
            out,
            rw (lt→ltb window_shift 64 sh, run, run', ok) rest,
            Search-later num_starts keys ordinal (ordinal + suc n) out u (rw hi at h),
          )
    ]

module _ (num_slots : ℕ) (m : num_slots % 128 ≡ 0) (pos : 0 < num_slots)
    (lt : num_slots < 2 ^ 64) where
  -- For a positive multiple of 128 slots below 2 ^ 64, the seed search returns: nothing, and then
  -- no ordinal seed below 64 has columns that solve all the keys' equations, or a matrix under an
  -- ordinal below 64, all smaller ones having none, that is in echelon form and that, column by
  -- column, is solved by exactly what solves the keys' equations.
  pub find_seed-Search :
      (keys : List ℕ)
      → (out : Option Banding128) × (find_seed num_slots keys ≡ done out)
        × Search (num_slots - 127) keys 0 64 out
  unfolding find_seed
  find_seed-Search keys =
      let (b, run, v, e) = new-HasShape num_slots m pos lt in
      let n : num_slots ≡ num_slots - 127 + 127 = omega arith in
      let (out, run', h) =
        seed_loop-Search (num_slots - 127) seed_count 0 b keys (subst (λ k. HasShape k b) n v) e in
      (out, rw run run', h)

  -- The pleated search returns the matrix of the same ordinal, whatever the windows are.
  pub find_seed_pleated-Search :
      (keys : List ℕ) (window_shift : ℕ)
      → window_shift < 64
      → (out : Option Banding128) × (find_seed_pleated num_slots keys window_shift ≡ done out)
        × Search (num_slots - 127) keys 0 64 out
  unfolding find_seed_pleated
  find_seed_pleated-Search keys window_shift sh =
      let (b, run, v, e) = new-HasShape num_slots m pos lt in
      let n : num_slots ≡ num_slots - 127 + 127 = omega arith in
      let (out, run', h) =
        seed_loop_pleated-Search (num_slots - 127) window_shift seed_count 0 b keys
          (replicate (length keys) 0) sh (omega arith) (subst (λ k. HasShape k b) n v) e
          (sym (length-replicate {A = ℕ} (length keys) 0)) in
      (
        out,
        rw run (
            ap
              (λ (k : ℕ).
                seed_loop_pleated seed_count 0 b keys (replicate (length keys) 0) k window_shift)
              e
            ∙ run'),
        h,
      )
