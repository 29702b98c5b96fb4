-- ===== src/Filter/Parallel/StdRibbon/Trial.antt =====
-- What a part of a parallel round of src/banding128.rs has done to the matrix: the keys it was
-- given, those it spilled, and whether it met an inconsistent key.
use pleat.Common.{
  ℕ, ◌<◌, ◌≡◌, ◌↔◌, arith, ◌⊎◌, inl, inr, Bool, true, false, ◌&&◌, List, ◌++◌, All, All-append,
  append-All,
}
use pleat.Banding128.{Banding128}
use pleat.Banding128.Add.{IsMatrix}
use pleat.Banding128.Build.{HasShape, BandSolves, Accepts, Extends}
use pleat.Banding128.While.{Extends-append}
use mathlib.Core.Bool.{Bool-set}

-- A collection of keys, as what it is for all of them to have a property.
abbrev pub Keys : Type 1
Keys = (ℕ → Type 0) → Type 0

-- No choice of columns solves both `b` and the equations of the keys.
abbrev pub ClashesOn : Banding128 → Keys → Type 0
ClashesOn b have =
    (x : ℕ → ℕ → Bool)
    → ((j : ℕ) → j < 32 → BandSolves b j (x j))
    → ((j : ℕ) → j < 32 → have (Accepts b.num_starts b.raw_seed j (x j)))
    → ⊥

module _ (n : ℕ) where
  -- The keys of `have` are those that were added and those of `spill`.
  pub record Spills (b : Banding128) (have spill : Keys) (b' : Banding128) : Type 1 where
    pub kept_keys : List ℕ
    pub added : Extends n b kept_keys b'
    pub same_keys :
        (P : ℕ → Type 0) → ((k : ℕ) → IsProp (P k)) → (All P kept_keys × spill P) ↔ have P

  -- Some of the keys of `have` were added, and they are inconsistent.
  pub record Fails (b : Banding128) (have : Keys) (b' : Banding128) : Type 1 where
    pub kept_keys : List ℕ
    pub added : Extends n b kept_keys b'
    pub part : (P : ℕ → Type 0) → ((k : ℕ) → IsProp (P k)) → have P → All P kept_keys
    pub clash : ClashesOn b have

  abbrev pub Trial : Banding128 → Keys → Keys → Banding128 → Bool → Type 1
  Trial b have spill b' ok =
      ((ok ≡ true) × Spills b have spill b') ⊎ ((ok ≡ false) × Fails b have b')

  -- Whichever way it went, the matrix is well formed.
  pub Trial-after :
      (b b' : Banding128) (have spill : Keys) (ok : Bool)
      → Trial b have spill b' ok
      → HasShape n b' × IsMatrix b'.coeff_rows b'.result_rows
  Trial-after b b' have spill ok (inl (e, s)) = (s.added.shape, s.added.matrix)
  Trial-after b b' have spill ok (inr (e, s)) = (s.added.shape, s.added.matrix)

  module _ (b b' b'' : Banding128) (have spill more more_spill : Keys) where
    Spills-Spills :
        Spills b have spill b'
        → Spills b' more more_spill b''
        → Spills b (λ P. have P × more P) (λ P. spill P × more_spill P) b''
    Spills-Spills s t = record {
      kept_keys = s.kept_keys ++ t.kept_keys;
      added = Extends-append s.added t.added;
      same_keys = λ P prop. (
        λ h.
            let (a, c) = append-All P s.kept_keys t.kept_keys h.0 in
            ((s.same_keys P prop).0 (a, h.1.0), (t.same_keys P prop).0 (c, h.1.1)),
        λ h.
            let a = (s.same_keys P prop).1 h.0 in
            let c = (t.same_keys P prop).1 h.1 in
            (All-append P s.kept_keys t.kept_keys a.0 c.0, (a.1, c.1)),
      );
    }

    Spills-Fails : Spills b have spill b' → Fails b' more b'' → Fails b (λ P. have P × more P) b''
    Spills-Fails s t = record {
      kept_keys = s.kept_keys ++ t.kept_keys;
      added = Extends-append s.added t.added;
      part = λ P prop h.
          All-append P s.kept_keys t.kept_keys ((s.same_keys P prop).1 h.0).0 (t.part P prop h.1);
      clash = λ x q h.
          t.clash x
            (λ j p.
              s.added.only j (x j) (q j p)
                ((s.same_keys (Accepts b.num_starts b.raw_seed j (x j)) (λ k. Bool-set _ _)).1
                  (h j p).0).0)
            (λ j p. rw (s.added.same_starts, s.added.same_seed) (h j p).1);
    }

    Fails-Spills :
        Fails b have b' → Spills b' more more_spill b'' → Fails b (λ P. have P × more P) b''
    Fails-Spills s t = record {
      kept_keys = s.kept_keys ++ t.kept_keys;
      added = Extends-append s.added t.added;
      part = λ P prop h.
          All-append P s.kept_keys t.kept_keys (s.part P prop h.0) ((t.same_keys P prop).1 h.1).0;
      clash = λ x q h. s.clash x q (λ j p. (h j p).0);
    }

    Fails-Fails : Fails b have b' → Fails b' more b'' → Fails b (λ P. have P × more P) b''
    Fails-Fails s t = record {
      kept_keys = s.kept_keys ++ t.kept_keys;
      added = Extends-append s.added t.added;
      part =
          λ P prop h. All-append P s.kept_keys t.kept_keys (s.part P prop h.0) (t.part P prop h.1);
      clash = λ x q h. s.clash x q (λ j p. (h j p).0);
    }

    -- One part after the other.
    pub Trial-trans :
        (ok ok' : Bool)
        → Trial b have spill b' ok
        → Trial b' more more_spill b'' ok'
        → Trial b (λ P. have P × more P) (λ P. spill P × more_spill P) b'' (ok && ok')
    Trial-trans ok ok' (inl (e, s)) (inl (e', t)) = inl (ground arith, Spills-Spills s t)
    Trial-trans ok ok' (inl (e, s)) (inr (e', t)) = inr (ground arith, Spills-Fails s t)
    Trial-trans ok ok' (inr (e, s)) (inl (e', t)) = inr (ground arith, Fails-Spills s t)
    Trial-trans ok ok' (inr (e, s)) (inr (e', t)) = inr (ground arith, Fails-Fails s t)

  -- The same keys, in other words.
  pub Trial-cong :
      (b b' : Banding128) (have spill have' spill' : Keys) (ok : Bool)
      → ((P : ℕ → Type 0) → have P ↔ have' P)
      → (ok ≡ true → (P : ℕ → Type 0) → spill P ↔ spill' P)
      → Trial b have spill b' ok
      → Trial b have' spill' b' ok
  Trial-cong b b' have spill have' spill' ok f g (inl (e, s)) = inl (
    e,
    record {
      kept_keys = s.kept_keys;
      added = s.added;
      same_keys = λ P prop. (
        λ h. (f P).0 ((s.same_keys P prop).0 (h.0, (g e P).1 h.1)),
        λ h. let a = (s.same_keys P prop).1 ((f P).1 h) in (a.0, (g e P).0 a.1),
      );
    },
  )
  Trial-cong b b' have spill have' spill' ok f g (inr (e, s)) = inr (
    e,
    record {
      kept_keys = s.kept_keys;
      added = s.added;
      part = λ P prop h. s.part P prop ((f P).1 h);
      clash = λ x q h. s.clash x q (λ j p. (f _).1 (h j p));
    },
  )
