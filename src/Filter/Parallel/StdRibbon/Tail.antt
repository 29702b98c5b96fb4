-- ===== src/Filter/Parallel/StdRibbon/Tail.antt =====
-- The sequential tail of `build_std128_parallel` of src/banding128.rs: the deferred keys and the
-- spilled ones, on the whole matrix.
use mathlib.Core.Bool.{Bool-set}
use pleat.Common.{
  ℕ, ◌<◌, ◌≡◌, refl, ◌∙◌, Bool, true, false, ◌⊎◌, inl, inr, List, [], ◌∷◌, ◌++◌, All, All-append,
  append-All, Option, some, none, Run, done, ◌>>=◌, if◌then◌else◌,
}
use pleat.Banding128.{Banding128, add_while}
use pleat.Banding128.Add.{IsMatrix}
use pleat.Banding128.Build.{HasShape, Accepts, Ran}
use pleat.Banding128.While.{add_while-Ran, Extends-refl, Extends-append}
use pleat.Filter.Parallel.StdRibbon.{tail_loop}
use pleat.Filter.Parallel.StdRibbon.Trial.{Keys, ClashesOn, Spills}
use pleat.Filter.Parallel.StdRibbon.Thread.{spill_of}
use pleat.Filter.Parallel.StdRibbon.Threads.{spills_of}

abbrev pub nothing : Keys
nothing P = Unit

module _ (n : ℕ) where
  -- What a run over all the keys of `have` ends in.
  abbrev pub RanOn : Banding128 → Keys → Banding128 × Bool → Type 1
  RanOn b have out =
      ((out.1 ≡ true) × Spills n b have nothing out.0)
      ⊎ ((out.1 ≡ false) × HasShape n out.0 × (out.0.num_starts ≡ b.num_starts) × ClashesOn b have)

  -- The spilled keys are added afterwards.
  pub absorb :
      (b b' : Banding128) (have spill : Keys) (out : Banding128 × Bool)
      → Spills n b have spill b'
      → RanOn b' spill out
      → RanOn b have out
  absorb b b' have spill out s (inl (ok, t)) = inl (
    ok,
    record {
      kept_keys = s.kept_keys ++ t.kept_keys;
      added = Extends-append s.added t.added;
      same_keys = λ P prop. (
        λ h.
            let (a, c) = append-All P s.kept_keys t.kept_keys h.0 in
            (s.same_keys P prop).0 (a, (t.same_keys P prop).0 (c, tt)),
        λ h.
            let a = (s.same_keys P prop).1 h in
            (All-append P s.kept_keys t.kept_keys a.0 ((t.same_keys P prop).1 a.1).0, tt),
      );
    },
  )
  absorb b b' have spill out s (inr (ok, v, e, k)) = inr (
    ok,
    v,
    e ∙ s.added.same_starts,
    λ x q h.
        let split = λ (j : ℕ) (p : j < 32).
          (s.same_keys (Accepts b.num_starts b.raw_seed j (x j)) (λ k. Bool-set _ _)).1 (h j p) in
        k x (λ j p. s.added.only j (x j) (q j p) (split j p).0)
          (λ j p. rw (s.added.same_starts, s.added.same_seed) (split j p).1),
  )

  -- One run after another.
  and_then :
      (b b' : Banding128) (have more : Keys) (out : Banding128 × Bool)
      → Spills n b have nothing b'
      → RanOn b' more out
      → RanOn b (λ P. have P × more P) out
  and_then b b' have more out s t =
      absorb b b' (λ P. have P × more P) more out
        (record {
          kept_keys = s.kept_keys;
          added = s.added;
          same_keys = λ P prop. (
            λ h. ((s.same_keys P prop).0 (h.0, tt), h.1),
            λ h. (((s.same_keys P prop).1 h.0).0, h.1),
          );
        })
        t

  Ran-RanOn :
      (b : Banding128) (keys : List ℕ) (out : Banding128 × Bool)
      → Ran n b keys out
      → RanOn b (λ P. All P keys) out
  Ran-RanOn b keys out (inl (ok, e)) =
      inl
        (ok, record { kept_keys = keys; added = e; same_keys = λ P prop. (λ h. h.0, λ h. (h, tt)) })
  Ran-RanOn b keys out (inr (ok, v, e, k)) = inr (ok, v, e, k)

  -- `add` over these keys, and then, unless it has failed, what comes next.
  while-RanOn :
      (b : Banding128) (keys : List ℕ) (more : Keys) (next : Banding128 → Run (Banding128 × Bool))
      → HasShape n b
      → IsMatrix b.coeff_rows b.result_rows
      → ((b' : Banding128)
          → HasShape n b'
          → IsMatrix b'.coeff_rows b'.result_rows
          → (out : Banding128 × Bool) × (next b' ≡ done out) × RanOn b' more out)
      → (out : Banding128 × Bool) × ((add_while b keys >>= λ r. if r.1 then next r.0 else done r)
          ≡ done out)
        × RanOn b (λ P. All P keys × more P) out
  while-RanOn b keys more next v m rest =
      let (r, run, ran) = add_while-Ran n b keys v m in
      elim (Ran-RanOn b keys r ran) [
        | inl (ok, s) ↦
            let (out, run', t) = rest r.0 s.added.shape s.added.matrix in
            (out, rw (run, ok) run', and_then b r.0 _ more out s t)
        | inr (ok, w, e, k) ↦
            (r, rw (run, ok) refl, inr (ok, w, e, λ x q h. k x q (λ j p. (h j p).0)))
      ]

  tail_loop-RanOn :
      (b : Banding128) (outs : List (Option (List ℕ)))
      → HasShape n b
      → IsMatrix b.coeff_rows b.result_rows
      → (out : Banding128 × Bool) × (tail_loop b outs ≡ done out) × RanOn b (spills_of outs) out
  unfolding tail_loop spills_of spill_of
  tail_loop-RanOn b [] v m = (
    (b, true),
    refl,
    inl (
      refl,
      record {
        kept_keys = [];
        added = Extends-refl n b v m;
        same_keys = λ P prop. (λ h. tt, λ h. (tt, tt));
      },
    ),
  )
  tail_loop-RanOn b (none ∷ outs) v m =
      let (out, run, t) = tail_loop-RanOn b outs v m in
      (
        out,
        run,
        elim t [
          | inl (ok, s) ↦ inl (
            ok,
            record {
              kept_keys = s.kept_keys;
              added = s.added;
              same_keys =
                  λ P prop. (λ h. (tt, (s.same_keys P prop).0 h), λ h. (s.same_keys P prop).1 h.1);
            },
          )
          | inr (ok, w, e, k) ↦ inr (ok, w, e, λ x q h. k x q (λ j p. (h j p).1))
        ],
      )
  tail_loop-RanOn b (some keys ∷ outs) v m =
      while-RanOn b keys (spills_of outs) (λ b'. tail_loop b' outs) v m
        (λ b' v' m'. tail_loop-RanOn b' outs v' m')

  -- The whole tail.
  pub tail-RanOn :
      (b : Banding128) (deferred : List ℕ) (outs : List (Option (List ℕ)))
      → HasShape n b
      → IsMatrix b.coeff_rows b.result_rows
      → (out : Banding128 × Bool) × ((add_while b deferred >>= λ r.
            if r.1 then tail_loop r.0 outs else done r)
          ≡ done out)
        × RanOn b (λ P. All P deferred × spills_of outs P) out
  tail-RanOn b deferred outs v m =
      while-RanOn b deferred (spills_of outs) (λ b'. tail_loop b' outs) v m
        (λ b' v' m'. tail_loop-RanOn b' outs v' m')
