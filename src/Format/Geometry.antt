-- ===== src/Format/Geometry.antt =====
-- The checks of the geometry in `decode` of src/format.rs.
use native.Mathlib.Nat.{div-add-mod', le-mul_of_pos_right, mul-div_cancel, mul-mod_left}
use native.Mathlib.Decide.{dec_lt}
use pleat.Common.{
  ℕ, ◌+◌, ◌-◌, ◌*◌, ◌/◌, ◌%◌, ◌^◌, ◌==◌, ◌≤◌, ◌<◌, ◌≡◌, refl, sym, ap, ◌∙◌, arith, ltb, lt→ltb,
  le→ltb, Bool, true, false, not, ◌||◌, ok, and_then, ok_or, OnOk, OnOk-and_then, ok_inj, err≢ok,
}
use pleat.Format.{DecodeError, bad_geometry, header_len, checksum_len, checked, reject, geometry}

-- A payload of `n` bytes holds `r` words of `elem_size` bytes for each block of `w` slots, the slots
-- are two blocks at least, and each row that begins at a start lies in them.
pub record Fits (r elem_size w num_starts n : ℕ) : Type 0 where
  pub blocks : ℕ
  pub starts : 0 < num_starts
  pub slots : num_starts + (w - 1) ≡ blocks * w
  pub two_blocks : 2 * w ≤ num_starts + (w - 1)
  pub slots_u64 : num_starts + (w - 1) < 2 ^ 64
  pub bytes : n ≡ blocks * r * elem_size

checked-ok : (x : ℕ) (e : DecodeError) (a : ℕ) → ok_or (checked x) e ≡ ok a → (a ≡ x) × (x < 2 ^ 64)
checked-ok x e a = elim (dec_lt x (2 ^ 64)) [
  | yes lt ↦ λ h. (sym (ok_inj (rw (lt→ltb x (2 ^ 64) lt) at h)), lt)
  | no ge ↦ λ h. absurd (err≢ok (rw (le→ltb x (2 ^ 64) (omega arith)) at h))
]

reject-ok : (b : Bool) (e : DecodeError) (u : Unit {0}) → reject b e ≡ ok u → b ≡ false
reject-ok true e u h = absurd (err≢ok h)
reject-ok false e u h = refl

abbrev pub Passed : ℕ → ℕ → ℕ → ℕ → ℕ → ℕ → ℕ → Type 0
Passed r elem_size w num_starts segment_count len n =
    (f : Fits r elem_size w num_starts n) × (32 + n + 8 ≡ len) × (segment_count ≡ f.blocks * r)

-- What passes the checks fits.
pub geometry-Fits :
    (r elem_size w num_starts segment_count len : ℕ)
    → 0 < w
    → OnOk
        (Passed r elem_size w num_starts segment_count len)
        (geometry r elem_size w num_starts segment_count len)
unfolding geometry OnOk
geometry-Fits r elem_size w num_starts segment_count len pos =
    OnOk-and_then (Passed r elem_size w num_starts segment_count len) _ _ λ s es.
      OnOk-and_then (Passed r elem_size w num_starts segment_count len) _ _ λ _ g.
        OnOk-and_then (Passed r elem_size w num_starts segment_count len) _ _ λ x ex.
          OnOk-and_then (Passed r elem_size w num_starts segment_count len) _ _ λ _ c.
            OnOk-and_then (Passed r elem_size w num_starts segment_count len) _ _ λ p ep.
              OnOk-and_then (Passed r elem_size w num_starts segment_count len) _ _ λ h eh.
                OnOk-and_then (Passed r elem_size w num_starts segment_count len) _ _ λ t et.
                  OnOk-and_then (Passed r elem_size w num_starts segment_count len) _ _ λ _ l.
                    let (s_is, s_lt) = checked-ok (num_starts + (w - 1)) bad_geometry s es in
                    let (x_is, _) = checked-ok (s / w * r) bad_geometry x ex in
                    let (p_is, _) = checked-ok (segment_count * elem_size) bad_geometry p ep in
                    let (h_is, _) = checked-ok (header_len + p) bad_geometry h eh in
                    let (t_is, _) = checked-ok (h + checksum_len) bad_geometry t et in
                    let g' : ((num_starts == 0) || not (s % w == 0) || ltb s (2 * w)) ≡ false =
                      reject-ok _ _ _ g in
                    let c' : not (segment_count == x) ≡ false = reject-ok _ _ _ c in
                    let l' : not (t == len) ≡ false = reject-ok _ _ _ l in
                    let count : segment_count ≡ x = ground (arith, c') in
                    let rest : s % w ≡ 0 = ground (arith, g') in
                    (
                      record {
                        blocks = s / w;
                        starts = ground (arith, g');
                        slots = omega (arith, s_is, rest, div-add-mod' s w);
                        two_blocks = ground (arith, g', s_is);
                        slots_u64 = s_lt;
                        bytes = p_is ∙ ap (λ (k : ℕ). k * elem_size) (count ∙ x_is);
                      },
                      ground (arith, l', t_is, h_is),
                      count ∙ x_is,
                    )

checked_small : (x : ℕ) (e : DecodeError) → x < 2 ^ 64 → ok_or (checked x) e ≡ ok x
checked_small x e h = rw (lt→ltb x (2 ^ 64) h)

-- What fits, in a buffer of its length, passes the checks.
pub Fits-geometry :
    (r elem_size w num_starts n : ℕ) (f : Fits r elem_size w num_starts n)
    → 0 < w
    → 0 < elem_size
    → n + 40 < 2 ^ 64
    → geometry r elem_size w num_starts (f.blocks * r) (n + 40) ≡ ok n
unfolding geometry and_then
Fits-geometry r elem_size w num_starts n f pos size lt =
    let words : f.blocks * r ≤ f.blocks * r * elem_size = le-mul_of_pos_right (f.blocks * r) size in
    let whole : f.blocks * w / w ≡ f.blocks = mul-div_cancel f.blocks pos in
    let same : f.blocks * r * elem_size ≡ n = sym f.bytes in
    let sane : ((num_starts == 0) || not (f.blocks * w % w == 0) || ltb (f.blocks * w) (2 * w))
        ≡ false =
      ground (arith, f.starts, f.slots, f.two_blocks, mul-mod_left f.blocks w) in
    let count : (f.blocks * r == f.blocks * r) ≡ true = ground arith in
    let total : (header_len + n + checksum_len == n + 40) ≡ true = ground arith in
    rw
      (
        checked_small (num_starts + (w - 1)) bad_geometry f.slots_u64,
        f.slots,
        sane,
        whole,
        checked_small (f.blocks * r) bad_geometry (omega (arith, words, f.bytes)),
        count,
        same,
        checked_small n bad_geometry (omega arith),
        checked_small (header_len + n) bad_geometry (omega arith),
        checked_small (header_len + n + checksum_len) bad_geometry (omega arith),
        total,
      )
      refl
