-- ===== src/Filter/Parallel/Bounds.antt =====
-- The bounds of the ranges of src/filter/parallel.rs: `t * per * window`, cut off at the number of
-- slots, without repetitions.
use native.Mathlib.Decide.{ℕ_discrete, dec_lt}
use native.Mathlib.Nat
use pleat.Common.{
  ℕ, zero, suc, ◌+◌, ◌-◌, ◌*◌, ◌/◌, ◌^◌, ◌≤◌, ◌<◌, ◌≡◌, refl, sym, subst, ap, ◌∙◌, arith, min, List,
  [], ◌∷◌, length,
}
use pleat.Filter.{div_ceil}
use pleat.Filter.Parallel.{bounds_from, dedup, saturating_mul}

-- From `x` the bounds do not fall, and the last is `n`.
unfoldable pub Rising : ℕ → List ℕ → ℕ → Type 0
Rising x [] n = x ≡ n
Rising x (y ∷ ys) n = (x ≤ y) × Rising y ys n

pub Rising-le : (x : ℕ) (ys : List ℕ) (n : ℕ) → Rising x ys n → x ≤ n
unfolding Rising
Rising-le x [] n h = omega (arith, h)
Rising-le x (y ∷ ys) n h = omega (arith, h.0, Rising-le y ys n h.1)

pub some_range : (ys : List ℕ) (n : ℕ) → Rising 0 ys n → 0 < n → 0 < length ys
unfolding Rising
some_range [] n up pos = absurd (omega (arith, up))
some_range (y ∷ ys) n up pos = omega arith

dedup-Rising :
    (x : ℕ) (ys : List ℕ) (n : ℕ)
    → Rising x ys n
    → (ys' : List ℕ) × (dedup (x ∷ ys) ≡ x ∷ ys') × Rising x ys' n
unfolding Rising dedup
dedup-Rising x [] n h = ([], refl, h)
dedup-Rising x (y ∷ ys) n h =
    let (ys', e, k) = dedup-Rising y ys n h.1 in
    elim (ℕ_discrete x y) [
      | yes p ↦ (ys', rw e (ground (arith, p)), subst (λ (k : ℕ). Rising k ys' n) (sym p) k)
      | no p ↦ (y ∷ ys', rw e (ground (arith, p)), (h.0, k))
    ]

pub div_ceil-mul : (a b : ℕ) → 0 < b → a ≤ div_ceil a b * b
div_ceil-mul a b p =
    let lt : a + b - 1 < b * ((a + b - 1) / b + 1) = Nat.lt-mul-div-succ (a + b - 1) p in
    let d : b * ((a + b - 1) / b + 1) ≡ (a + b - 1) / b * b + b = grind arith in omega arith

pub div_ceil-pos : (a b : ℕ) → 0 < a → 0 < b → 0 < div_ceil a b
div_ceil-pos a b p q = elim (ℕ_discrete (div_ceil a b) 0) [
  | yes e ↦
      let zeroth : div_ceil a b * b ≡ 0 = ap (λ (k : ℕ). k * b) e ∙ Nat.zero-mul b in
      absurd (omega (arith, div_ceil-mul a b q))
  | no ne ↦ omega arith
]

module _ (per window n : ℕ) where
  -- The bound `t`.
  abbrev bound : ℕ → ℕ
  bound t = min (saturating_mul (saturating_mul t per) window) n

  bound-suc : (t : ℕ) → bound t ≤ bound (suc t)
  bound-suc t =
      let p : t * per ≤ suc t * per = Nat.mul-le-mul_right per (omega arith) in
      let q : saturating_mul t per * window ≤ saturating_mul (suc t) per * window =
        Nat.mul-le-mul_right window (ground arith) in
      ground arith

  -- With enough windows to a range the last bound is the end.
  bound-last : (t : ℕ) → 0 < window → n < 2 ^ 64 → n ≤ t * per * window → bound t ≡ n
  bound-last t pos lt e = elim (dec_lt (t * per) (2 ^ 64)) [
    | yes p ↦ let f : saturating_mul t per ≡ t * per = ground arith in rw f (ground arith)
    | no p ↦
        let f : saturating_mul t per ≡ 2 ^ 64 - 1 = ground arith in
        let g : 2 ^ 64 - 1 ≤ (2 ^ 64 - 1) * window = Nat.le-mul_of_pos_right (2 ^ 64 - 1) pos in
        rw f (ground arith)
  ]

  bounds_from-Rising :
      (k t : ℕ) → bound (t + k) ≡ n → Rising (bound t) (bounds_from per window n k (suc t)) n
  unfolding Rising bounds_from
  bounds_from-Rising zero t e = let p : t ≡ t + 0 = omega arith in ap bound p ∙ e
  bounds_from-Rising (suc k) t e =
      let p : suc t + k ≡ t + suc k = omega arith in
      (bound-suc t, bounds_from-Rising k (suc t) (ap bound p ∙ e))

-- The bounds of the build: from zero, not falling, up to the number of slots.
pub bounds-Rising :
    (window n threads : ℕ)
    → 0 < window
    → 0 < threads
    → n < 2 ^ 64
    → (ys : List ℕ) × (dedup
          (bounds_from (div_ceil (div_ceil n window) threads) window n (suc threads) 0)
        ≡ 0 ∷ ys)
      × Rising 0 ys n
unfolding bounds_from
bounds-Rising window n threads pw pt lt =
    let per : ℕ = div_ceil (div_ceil n window) threads in
    let windows : n ≤ div_ceil n window * window = div_ceil-mul n window pw in
    let ranges : div_ceil n window * window ≤ per * threads * window =
      Nat.mul-le-mul_right window (div_ceil-mul (div_ceil n window) threads pt) in
    let enough : n ≤ threads * per * window = grind arith in
    let none : 0 * per ≡ 0 = omega arith in
    let zeroth : bound per window n 0 ≡ 0 = rw none (ground arith) in
    let last : bound per window n (0 + threads) ≡ n =
      ap (bound per window n) (omega arith) ∙ bound-last per window n threads pw lt enough in
    let (ys, e, h) =
      dedup-Rising (bound per window n 0) (bounds_from per window n threads 1) n
        (bounds_from-Rising per window n threads 0 last) in
    (ys, e ∙ ap (λ (k : ℕ). k ∷ ys) zeroth, subst (λ (k : ℕ). Rising k ys n) zeroth h)
