-- ===== src/Pleat/Count.antt =====
-- The counting pass and the prefix sums of `PleatPlan::pleat_into` of src/lib.rs.
use native.Mathlib.Decide.{ℕ_discrete}
use pleat.Common.{
  ℕ, zero, suc, ◌+◌, ◌≤◌, ◌<◌, ◌==◌, ◌≡◌, refl, sym, ap, ◌∙◌, arith, if◌then◌else◌, List, [], ◌∷◌,
  length, length-set, get_or, get_elem?-eq-get_or, get_or-set_self, get_or-set_ne, set, done,
}
use pleat.Pleat.{bump, count_loop, prefix_loop}
use pleat.Pleat.Windows.{in_window, tally, below, below-suc}

bump-done :
    (counts : List ℕ) (w n : ℕ)
    → w < length counts
    → bump counts w n ≡ done (set counts w (get_or counts w 0 + n))
bump-done counts w n p = rw (get_elem?-eq-get_or counts w 0 p)

module _ (window : ℕ → ℕ) where
  -- The counts with the keys added, one place up.
  pub record Counts (keys counts counts' : List ℕ) : Type 0 where
    pub same_length : length counts' ≡ length counts
    pub first : get_or counts' 0 0 ≡ get_or counts 0 0
    pub counted : (w : ℕ) → get_or counts' (suc w) 0 ≡ get_or counts (suc w) 0 + tally window w keys

  tally-cons :
      (w k : ℕ) (keys : List ℕ)
      → tally window w (k ∷ keys) ≡ (if window k == w then 1 else 0) + tally window w keys
  unfolding in_window
  tally-cons w k keys = ground arith

  pub count_loop-Counts :
      (keys counts : List ℕ) (nw : ℕ)
      → ((k : ℕ) → window k < nw)
      → length counts ≡ nw + 1
      → (counts' : List ℕ) × (count_loop window keys counts ≡ done counts')
        × Counts keys counts counts'
  unfolding count_loop
  count_loop-Counts [] counts nw h len = (
    counts,
    refl,
    record { same_length = refl; first = refl; counted = λ w. unfold in_window in omega arith },
  )
  count_loop-Counts (k ∷ keys) counts nw h len =
      let at : ℕ = window k + 1 in
      let counts1 : List ℕ = set counts at (get_or counts at 0 + 1) in
      let (counts', run, c) =
        count_loop-Counts keys counts1 nw h (length-set counts at (get_or counts at 0 + 1) ∙ len) in
      (
        counts',
        rw (bump-done counts at 1 (omega (arith, h k))) run,
        record {
          same_length = c.same_length ∙ length-set counts at (get_or counts at 0 + 1);
          first = c.first ∙ get_or-set_ne counts at 0 (get_or counts at 0 + 1) 0 (omega arith);
          counted = λ w. elim (ℕ_discrete (window k) w) [
            | yes e ↦ ground (
              arith,
              c.counted w,
              tally-cons w k keys,
              get_or-set_self counts (suc w) (get_or counts at 0 + 1) 0 (omega (arith, h k)),
              ap (λ (i : ℕ). get_or (set counts i (get_or counts i 0 + 1)) (suc w) 0)
                  (let f : at ≡ suc w = omega arith in f),
              get_or-set_self counts (suc w) (get_or counts (suc w) 0 + 1) 0 (omega (arith, h k)),
            )
            | no ne ↦ ground (
              arith,
              c.counted w,
              tally-cons w k keys,
              get_or-set_ne counts at (suc w) (get_or counts at 0 + 1) 0 (omega arith),
            )
          ];
        },
      )

  -- The first `p` sums are there, and the rest are still counts.
  pub prefix_loop-below :
      (keys : List ℕ) (n p nw : ℕ) (counts : List ℕ)
      → p + n ≡ nw
      → length counts ≡ nw + 1
      → ((v : ℕ) → v ≤ p → get_or counts v 0 ≡ below window v keys)
      → ((v : ℕ) → p ≤ v → get_or counts (suc v) 0 ≡ tally window v keys)
      → (counts' : List ℕ) × (prefix_loop n p counts ≡ done counts')
        × (length counts' ≡ nw + 1)
        × ((v : ℕ) → v ≤ nw → get_or counts' v 0 ≡ below window v keys)
  unfolding prefix_loop
  prefix_loop-below keys zero p nw counts e len lo hi =
      (counts, refl, len, λ v q. lo v (omega arith))
  prefix_loop-below keys (suc n) p nw counts e len lo hi =
      let new : ℕ = get_or counts (suc p) 0 + get_or counts p 0 in
      let (counts', run, len', sums) =
        prefix_loop-below keys n (suc p) nw (set counts (suc p) new) (omega arith)
          (length-set counts (suc p) new ∙ len)
          (λ v q. elim (ℕ_discrete (suc p) v) [
            | yes f ↦
                ap (λ (i : ℕ). get_or (set counts (suc p) new) i 0) (sym f)
                ∙ get_or-set_self counts (suc p) new 0 (omega arith)
                ∙ omega (arith, lo p (omega arith), hi p (omega arith), below-suc window p keys)
                ∙ ap (λ (i : ℕ). below window i keys) f
            | no ne ↦ get_or-set_ne counts (suc p) v new 0 ne ∙ lo v (omega arith)
          ])
          (λ v q. get_or-set_ne counts (suc p) (suc v) new 0 (omega arith) ∙ hi v (omega arith)) in
      (
        counts',
        rw
            (
              get_elem?-eq-get_or counts p 0 (omega arith),
              get_elem?-eq-get_or counts (suc p) 0 (omega arith),
            )
            run,
        len',
        sums,
      )
