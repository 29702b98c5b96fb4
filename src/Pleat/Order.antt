-- ===== src/Pleat/Order.antt =====
-- `PleatPlan::pleat_into` of src/lib.rs as a whole, against the order of the windows.
use native.Mathlib.Decide.{dec_lt}
use native.Mathlib.Nat.{div-lt_iff_lt-mul, one-le-pow, div-add-mod', mod-lt}
use mathlib.Core.List.{Perm}
use pleat.Common.{
  ℕ, zero, suc, ◌+◌, ◌-◌, ◌/◌, ◌^◌, ◌≤◌, ◌<◌, ==_iff, ◌≡◌, refl, sym, ap, ◌∙◌, arith, List, [],
  length, length-replicate, length-take, get_or, get_or-take, get_or-replicate, get_or_ext,
  get_or-append_left, get_or-append_right, replicate, take, done,
}
use pleat.Word.{shr}
use pleat.Pleat.{PleatPlan, num_windows, pleat_into}
use pleat.Pleat.Windows.{in_window, windows, tally, below, below-suc, below-eq-length, windows-perm}
use pleat.Pleat.Count.{count_loop-Counts, prefix_loop-below}
use pleat.Pleat.Scatter.{scatter_loop-Placed}

-- What stands at the places of each window is that window's keys, so the whole is the windows in
-- turn.
module _ (window : ℕ → ℕ) (nw : ℕ) (keys out : List ℕ)
    (at : (w t : ℕ)
      → w < nw
      → t < tally window w keys
      → get_or out (below window w keys + t) 0 ≡ get_or (in_window window w keys) t 0) where
  out_at :
      (n p : ℕ)
      → n ≤ nw
      → p < below window n keys
      → get_or out p 0 ≡ get_or (windows window n keys) p 0
  out_at zero p le h = absurd (unfold windows in omega arith)
  out_at (suc n) p le h = elim (dec_lt p (below window n keys)) [
    | yes q ↦
        out_at n p (omega arith) q
        ∙ sym (get_or-append_left (windows window n keys) (in_window window n keys) p 0 q)
        ∙ (unfold windows in refl)
    | no q ↦
        let t : ℕ = p - below window n keys in
        ap (λ (i : ℕ). get_or out i 0) (omega arith)
        ∙ at n t (omega arith) (omega (arith, below-suc window n keys))
        ∙ sym (
            get_or-append_right (windows window n keys) (in_window window n keys) p t 0
              (omega arith))
        ∙ (unfold windows in refl)
  ]

module _ (plan : PleatPlan) (start_of : ℕ → ℕ) where
  -- The window of a key.
  abbrev pub window : ℕ → ℕ
  window k = shr (start_of k) plan.shift

  window-lt : ((k : ℕ) → start_of k < plan.num_starts) → (k : ℕ) → window k < num_windows plan
  unfolding num_windows
  window-lt h k =
      let m : ℕ = 2 ^ plan.shift in
      let q : start_of k / m < plan.num_starts / m + 1 =
        (div-lt_iff_lt-mul (one-le-pow plan.shift 2 (omega arith))).1 (
          omega (
            arith,
            h k,
            div-add-mod' plan.num_starts m,
            mod-lt plan.num_starts {m = m} (one-le-pow plan.shift 2 (omega arith)),
          )) in
      omega arith

  none_yet : (keys : List ℕ) (w : ℕ) → below window w keys ≡ below window w keys + tally window w []
  unfolding in_window
  none_yet keys w = omega arith

  -- Where every start is below the number of starts and the output is as long as the keys,
  -- pleating does not panic. It writes the keys of each window in turn, those of one window in
  -- their order of arrival, and returns for each window, and for the end, how many keys lie in
  -- the windows below.
  pub pleat_into-windows :
      (keys out : List ℕ)
      → ((k : ℕ) → start_of k < plan.num_starts)
      → length keys ≡ length out
      → (offsets : List ℕ) × (pleat_into plan keys start_of out
          ≡ done (windows window (num_windows plan) keys, offsets))
        × (length offsets ≡ num_windows plan + 1)
        × ((v : ℕ) → v ≤ num_windows plan → get_or offsets v 0 ≡ below window v keys)
  pleat_into-windows keys out h len =
      let nw : ℕ = num_windows plan in
      let inside : (k : ℕ) → window k < nw = window-lt h in
      let (counts, run, c) =
        count_loop-Counts window keys (replicate (nw + 1) 0) nw inside
          (length-replicate {A = ℕ} (nw + 1) 0) in
      let (offsets, run', len', sums) =
        prefix_loop-below window keys nw 0 nw counts (omega arith)
          (c.same_length ∙ length-replicate {A = ℕ} (nw + 1) 0)
          (λ v q.
            let f : v ≡ 0 = omega arith in
            rw f (c.first ∙ get_or-replicate {A = ℕ} (nw + 1) 0 0 ∙ (unfold windows in refl)))
          (λ v q. omega (arith, c.counted v, get_or-replicate {A = ℕ} (nw + 1) (suc v) 0)) in
      let (ordered, run'', len'', at) =
        scatter_loop-Placed window nw inside keys keys [] (take nw offsets) out refl (record {
          cursors = length-take nw offsets (omega arith);
          next = λ w p. get_or-take nw offsets w 0 p ∙ sums w (omega arith) ∙ none_yet keys w;
          room = sym len;
          keys = λ w t p q. absurd (unfold in_window in omega arith);
        }) in
      let whole : ordered ≡ windows window nw keys =
        get_or_ext 0 ordered (windows window nw keys)
          (len'' ∙ sym (below-eq-length window nw keys inside))
          (λ i p.
            out_at window nw keys ordered at nw i (omega arith)
              (omega (arith, below-eq-length window nw keys inside, len''))) in
      (
        offsets,
        unfold pleat_into in
            rw ((==_iff (length keys) (length out)).1 len, run, run', run'', whole) refl,
        len',
        sums,
      )

  -- Where every start is below the number of starts and the output is as long as the keys,
  -- pleating does not panic, and what it writes is a permutation of the keys.
  pub pleat_into-perm :
      (keys out : List ℕ)
      → ((k : ℕ) → start_of k < plan.num_starts)
      → length keys ≡ length out
      → (r : List ℕ × List ℕ) × (pleat_into plan keys start_of out ≡ done r) × Perm r.0 keys
  pleat_into-perm keys out h len =
      let (offsets, run, _, _) = pleat_into-windows keys out h len in
      (
        (windows window (num_windows plan) keys, offsets),
        run,
        windows-perm window (num_windows plan) keys (window-lt h),
      )
