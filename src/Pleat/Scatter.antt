-- ===== src/Pleat/Scatter.antt =====
-- The scatter pass of `PleatPlan::pleat_into` of src/lib.rs.
use native.Mathlib.Decide.{ℕ_discrete, dec_lt}
use pleat.Common.{
  ℕ, ◌+◌, ◌≤◌, ◌<◌, lt→ltb, ◌≡◌, ◌≢◌, refl, sym, ap, ◌∙◌, subst, arith, List, [], ◌∷◌, ◌++◌,
  append_assoc, append-nil, length, length-set, length-append, get_or, get_elem?-eq-get_or,
  get_or-set_self, get_or-set_ne, get_or-append_left, get_or-append_right, set, done,
}
use pleat.Pleat.{scatter_loop}
use pleat.Pleat.Windows.{in_window, in_window-append, tally, below, below_mono, below-eq-length}

module _ (window : ℕ → ℕ) (nw : ℕ) (inside : (k : ℕ) → window k < nw) (all : List ℕ) where
  -- After the keys `ps`: each cursor is past the keys of its window, and these stand in order.
  pub record Placed (ps cursor out : List ℕ) : Type 0 where
    pub cursors : length cursor ≡ nw
    pub next : (w : ℕ) → w < nw → get_or cursor w 0 ≡ below window w all + tally window w ps
    pub room : length out ≡ length all
    pub keys :
        (w t : ℕ)
        → w < nw
        → t < tally window w ps
        → get_or out (below window w all + t) 0 ≡ get_or (in_window window w ps) t 0

  last_here :
      (ps : List ℕ) (k : ℕ)
      → in_window window (window k) (ps ++ (k ∷ [])) ≡ in_window window (window k) ps ++ (k ∷ [])
  last_here ps k =
      in_window-append window (window k) ps (k ∷ []) ∙ (unfold in_window in ground arith)

  last_elsewhere :
      (ps : List ℕ) (k w : ℕ)
      → window k ≢ w
      → in_window window w (ps ++ (k ∷ [])) ≡ in_window window w ps
  last_elsewhere ps k w ne =
      in_window-append window w ps (k ∷ [])
      ∙ (unfold in_window in ground (arith, append-nil (in_window window w ps)))

  tally-le : (ps ks : List ℕ) (w : ℕ) → ps ++ ks ≡ all → tally window w ps ≤ tally window w all
  tally-le ps ks w e = omega (
    arith,
    ap (λ (xs : List ℕ). tally window w xs) e,
    ap length (in_window-append window w ps ks),
    length-append (in_window window w ps) (in_window window w ks),
  )

  module _ (ps ks : List ℕ) (k : ℕ) (e : (ps ++ (k ∷ [])) ++ ks ≡ all) where
    tally_room : tally window (window k) ps < tally window (window k) all
    tally_room = omega (
      arith,
      tally-le (ps ++ (k ∷ [])) ks (window k) e,
      ap length (last_here ps k),
      length-append (in_window window (window k) ps) (k ∷ []),
    )

    place-lt : below window (window k) all + tally window (window k) ps < length all
    place-lt = omega (
      arith,
      tally_room,
      below_mono window (window k) nw all (inside k),
      below-eq-length window nw all inside,
    )

    -- Places of two windows do not meet.
    places_apart :
        (w t : ℕ)
        → window k ≢ w
        → t < tally window w ps
        → below window (window k) all + tally window (window k) ps ≢ below window w all + t
    places_apart w t ne p = elim (dec_lt (window k) w) [
      | yes q ↦ omega (arith, tally_room, below_mono window (window k) w all q)
      | no q ↦ omega (
        arith,
        below_mono window w (window k) all (omega arith),
        tally-le (ps ++ (k ∷ [])) ks w e,
        ap length (last_elsewhere ps k w ne),
      )
    ]

    keys_here :
        (cursor out : List ℕ)
        → Placed ps cursor out
        → (t : ℕ) → t < tally window (window k) (ps ++ (k ∷ []))
        → let at = below window (window k) all + tally window (window k) ps in
          get_or (set out at k) (below window (window k) all + t) 0
          ≡ get_or (in_window window (window k) (ps ++ (k ∷ []))) t 0
    keys_here cursor out v t q = elim (ℕ_discrete t (tally window (window k) ps)) [
      | yes f ↦
          ap (λ (i : ℕ). get_or (set out at k) i 0)
            (ap (λ (i : ℕ). below window (window k) all + i) f)
          ∙ get_or-set_self out at k 0 (omega (arith, place-lt, v.room))
          ∙ sym (get_or-append_right mine (k ∷ []) t 0 0 (omega arith))
          ∙ ap (λ (xs : List ℕ). get_or xs t 0) (sym (last_here ps k))
      | no ne ↦
          let q' : t < tally window (window k) ps =
            omega (arith, ap length (last_here ps k), length-append mine (k ∷ [])) in
          get_or-set_ne out at (below window (window k) all + t) k 0 (omega arith)
          ∙ v.keys (window k) t (inside k) q'
          ∙ sym (get_or-append_left mine (k ∷ []) t 0 q')
          ∙ ap (λ (xs : List ℕ). get_or xs t 0) (sym (last_here ps k))
    ]
      where
        at : ℕ
        at = below window (window k) all + tally window (window k) ps

        mine : List ℕ
        mine = in_window window (window k) ps

    place-Placed :
        (cursor out : List ℕ)
        → Placed ps cursor out
        → let at = below window (window k) all + tally window (window k) ps in
          Placed (ps ++ (k ∷ [])) (set cursor (window k) (at + 1)) (set out at k)
    place-Placed cursor out v =
        let at : ℕ = below window (window k) all + tally window (window k) ps in
        record {
          cursors = length-set cursor (window k) (at + 1) ∙ v.cursors;
          next = λ w p. elim (ℕ_discrete (window k) w) [
            | yes f ↦
                ap (λ (i : ℕ). get_or (set cursor (window k) (at + 1)) i 0) (sym f)
                ∙ get_or-set_self cursor (window k) (at + 1) 0 (omega (arith, v.cursors, inside k))
                ∙ omega (
                  arith,
                  ap length (last_here ps k),
                  length-append (in_window window (window k) ps) (k ∷ []),
                )
                ∙ ap (λ (i : ℕ). below window i all + tally window i (ps ++ (k ∷ []))) f
            | no ne ↦
                get_or-set_ne cursor (window k) w (at + 1) 0 ne
                ∙ v.next w p
                ∙ ap (λ (xs : List ℕ). below window w all + length xs)
                    (sym (last_elsewhere ps k w ne))
          ];
          room = length-set out at k ∙ v.room;
          keys = λ w t p q. elim (ℕ_discrete (window k) w) [
            | yes f ↦
                subst
                  (λ (i : ℕ).
                    t < tally window i (ps ++ (k ∷ []))
                    → get_or (set out at k) (below window i all + t) 0
                      ≡ get_or (in_window window i (ps ++ (k ∷ []))) t 0)
                  f (keys_here cursor out v t) q
            | no ne ↦
                let q' : t < tally window w ps =
                  omega (arith, ap length (last_elsewhere ps k w ne)) in
                get_or-set_ne out at (below window w all + t) k 0 (places_apart w t ne q')
                ∙ v.keys w t p q'
                ∙ ap (λ (xs : List ℕ). get_or xs t 0) (sym (last_elsewhere ps k w ne))
          ];
        }

  pub scatter_loop-Placed :
      (ks ps cursor out : List ℕ)
      → ps ++ ks ≡ all
      → Placed ps cursor out
      → (out' : List ℕ) × (scatter_loop window ks cursor out ≡ done out')
        × (length out' ≡ length all)
        × ((w t : ℕ)
            → w < nw
            → t < tally window w all
            → get_or out' (below window w all + t) 0 ≡ get_or (in_window window w all) t 0)
  unfolding scatter_loop
  scatter_loop-Placed [] ps cursor out e v = (
    out,
    refl,
    v.room,
    subst
        (λ (xs : List ℕ).
          (w t : ℕ)
          → w < nw
          → t < tally window w xs
          → get_or out (below window w all + t) 0 ≡ get_or (in_window window w xs) t 0)
        (sym (append-nil ps) ∙ e) v.keys,
  )
  scatter_loop-Placed (k ∷ ks) ps cursor out e v =
      let e' : (ps ++ (k ∷ [])) ++ ks ≡ all = append_assoc ps (k ∷ []) ks ∙ e in
      let at : ℕ = below window (window k) all + tally window (window k) ps in
      let (out', run, len, keys) =
        scatter_loop-Placed ks (ps ++ (k ∷ [])) (set cursor (window k) (at + 1)) (set out at k) e'
          (place-Placed ps ks k e' cursor out v) in
      (
        out',
        rw
            (
              get_elem?-eq-get_or cursor (window k) 0 (omega (arith, v.cursors, inside k)),
              v.next (window k) (inside k),
              lt→ltb at (length out) (omega (arith, place-lt ps ks k e', v.room)),
            )
            run,
        len,
        keys,
      )
