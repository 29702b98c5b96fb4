-- ===== src/Filter/Parallel/Threads/Simulate.antt =====
-- The scope of threads of src/filter/parallel.rs on one matrix: with ranges that lie side by side, it
-- takes the steps of threads that have their rows to themselves, and no others.
use mathlib.Core.Option
use native.Mathlib.Decide.{ℕ_discrete}
use pleat.Common.{
  ℕ, ◌+◌, ◌==◌, ◌≡◌, refl, sym, subst, ap, ap₂, ◌∙◌, arith, leb, Bool-cases, true, false, inl, inr,
  List, [], ◌∷◌, ◌++◌, append_assoc, length, length-append, length-set, get_or, bit_xor, Option,
  some, none,
}
use pleat.Hash.{ribbon_hash, start}
use pleat.Filter.Parallel.Threads.{
  Phase, between, reducing, Worker, reduce_at, advance_in, advance, Step, here, there, Schedule,
  stop, after,
}
use pleat.Filter.Parallel.Threads.Together.{joined, AllHalted}
use pleat.Filter.Parallel.Threads.Shared.{
  Borrower, step, Steps, this, other, Interleaving, rest, next, AllDone, spills,
}
use pleat.Filter.Parallel.Threads.Apart.{lend, lend_all, around, step-around}

-- The slices lie side by side, from slot `n` on.
unfoldable pub Apart : ℕ → List Worker → Type 0
Apart n [] = Unit
Apart n (t ∷ ts) = (t.base ≡ n) × Apart (n + length t.rows) ts

-- A step keeps the range of the thread.
abbrev Keeps : Worker → Option Worker → Type 0
Keeps t none = Unit
Keeps t (some t') = (t'.base ≡ t.base) × (length t'.rows ≡ length t.rows)

map-some {ℓ κ} :
    {A : Type ℓ} {B : Type κ} (f : A → B) (o : Option A) (b : B)
    → Option.map f o ≡ some b
    → (a : A) × (o ≡ some a) × (f a ≡ b)
map-some f none b e = absurd (cc e)
map-some f (some a) b e = (a, refl, Option.some-injective _ _ e)

reduce_at-Keeps : (t : Worker) (k i cr c : ℕ) → Keeps t (some (reduce_at t k i cr c))
unfolding reduce_at
reduce_at-Keeps t k i cr c = elim (ℕ_discrete c 0) [
  | yes z ↦ let e : (c == 0) ≡ true = ground arith in rw e (refl, length-set t.rows i cr)
  | no nz ↦
      let e : (c == 0) ≡ false = ground arith in
      elim (Bool-cases (bit_xor cr c == 0)) [
        | inl s ↦ rw (e, s) (refl, refl)
        | inr s ↦ rw (e, s) (refl, refl)
      ]
]

module _ (num_starts seed : ℕ) where
  advance_in-Keeps :
      (t : Worker) (phase : Phase) (keys : List ℕ)
      → Keeps t (advance_in num_starts seed t phase keys)
  unfolding advance_in
  advance_in-Keeps t between [] = tt
  advance_in-Keeps t between (k ∷ keys) =
      elim (Bool-cases (leb t.base (start (ribbon_hash k seed) num_starts))) [
        | inl b ↦ rw b (refl, refl)
        | inr b ↦ rw b tt
      ]
  advance_in-Keeps t (reducing k i cr) keys = elim (Bool-cases (leb (length t.rows) i)) [
    | inl b ↦ rw b (refl, refl)
    | inr b ↦ rw b (reduce_at-Keeps t k i cr (get_or t.rows i 0))
  ]

  advance-Keeps : (t t' : Worker) → advance num_starts seed t ≡ some t' → Keeps t (some t')
  unfolding advance
  advance-Keeps t t' e = subst (Keeps t) e (advance_in-Keeps t t.phase t.keys)

  -- The matrix with the rows of the threads in it.
  abbrev matrix : List ℕ → List Worker → List ℕ → List ℕ
  matrix pre ts post = pre ++ ((joined ts).0 ++ post)

  first :
      (pre post : List ℕ) (t : Worker) (ts : List Worker)
      → matrix pre (t ∷ ts) post ≡ pre ++ (t.rows ++ ((joined ts).0 ++ post))
  unfolding joined
  first pre post t ts = ap (λ l. pre ++ l) (append_assoc t.rows (joined ts).0 post)

  others :
      (pre post : List ℕ) (t : Worker) (ts : List Worker)
      → matrix pre (t ∷ ts) post ≡ matrix (pre ++ t.rows) ts post
  others pre post t ts = first pre post t ts ∙ sym (append_assoc pre t.rows ((joined ts).0 ++ post))

  -- What a step on the matrix comes to, for the threads on their own.
  Followed : List ℕ → List ℕ → List Worker → List ℕ → List Borrower → Type 0
  Followed pre post ts rows' bs' =
      (ts' : List Worker) × Step num_starts seed ts ts'
      × (rows' ≡ matrix pre ts' post)
      × (bs' ≡ lend_all ts')
      × Apart (length pre) ts'

  Steps-Followed :
      (pre post : List ℕ) (ts : List Worker) {rows : List ℕ} {bs : List Borrower} {rows' : List ℕ}
      {bs' : List Borrower}
      → rows ≡ matrix pre ts post
      → bs ≡ lend_all ts
      → Apart (length pre) ts
      → Steps num_starts seed rows bs rows' bs'
      → Followed pre post ts rows' bs'
  unfolding Followed Apart
  Steps-Followed pre post [] e f apart (this s) = absurd (cc f)
  Steps-Followed pre post [] e f apart (other s) = absurd (cc f)
  Steps-Followed pre post (t ∷ ts) e f apart (this {rows} {rows'} {t = b} {t' = b'} {ts = bs} s) =
      let behind : List ℕ = (joined ts).0 ++ post in
      let head : b ≡ lend t = cc f in
      let tail : bs ≡ lend_all ts = cc f in
      let run : step num_starts seed (pre ++ (t.rows ++ behind)) (lend t) ≡ some (rows', b') =
        sym (ap₂ (step num_starts seed) (e ∙ first pre post t ts) head) ∙ s in
      let (t', took, end) =
        map-some (around pre behind) (advance num_starts seed t) (rows', b')
          (sym (step-around num_starts seed pre behind t apart.0) ∙ run) in
      let kept : Keeps t (some t') = advance-Keeps t t' took in
      (
        t' ∷ ts,
        here took,
        sym (ap (λ o. o.0) end) ∙ sym (first pre post t' ts),
        ap₂ ◌∷◌ (sym (ap (λ o. o.1) end)) tail,
        (
          kept.0 ∙ apart.0,
          subst (λ (n : ℕ). Apart n ts) (ap (λ (n : ℕ). length pre + n) (sym kept.1)) apart.1,
        ),
      )
  Steps-Followed pre post (t ∷ ts) e f apart
        (other {rows} {rows'} {t = b} {ts = bs} {ts' = bs'} s) =
      let head : b ≡ lend t = cc f in
      let tail : bs ≡ lend_all ts = cc f in
      let size : length (pre ++ t.rows) ≡ length pre + length t.rows = length-append pre t.rows in
      let (ts', took, rows_are, bs_are, apart') =
        Steps-Followed (pre ++ t.rows) post ts (e ∙ others pre post t ts) tail
          (subst (λ (n : ℕ). Apart n ts) (sym size) apart.1) s in
      (
        t ∷ ts',
        there took,
        rows_are ∙ sym (others pre post t ts'),
        ap₂ ◌∷◌ head bs_are,
        (apart.0, subst (λ (n : ℕ). Apart n ts') size apart'),
      )

  Step-Steps :
      (pre post : List ℕ) {ts ts' : List Worker}
      → Apart (length pre) ts
      → Step num_starts seed ts ts'
      → (rows' : List ℕ) × (bs' : List Borrower) × Steps num_starts seed
          (matrix pre ts post)
          (lend_all ts)
          rows'
          bs'
  unfolding Apart
  Step-Steps pre post apart (here {t} {t'} {ts} e) =
      let took : step num_starts seed (pre ++ (t.rows ++ ((joined ts).0 ++ post))) (lend t)
          ≡ some (around pre ((joined ts).0 ++ post) t') =
        step-around num_starts seed pre ((joined ts).0 ++ post) t apart.0
        ∙ ap (Option.map (around pre ((joined ts).0 ++ post))) e in
      (
        _,
        _,
        subst
            (λ l.
              Steps num_starts seed l (lend t ∷ lend_all ts)
                (pre ++ (t'.rows ++ ((joined ts).0 ++ post))) (lend t' ∷ lend_all ts))
            (sym (first pre post t ts)) (this took),
      )
  Step-Steps pre post apart (there {t} {ts} {ts'} s) =
      let (rows', bs', r) =
        Step-Steps (pre ++ t.rows) post
          (subst (λ (n : ℕ). Apart n ts) (sym (length-append pre t.rows)) apart.1) s in
      (
        rows',
        lend t ∷ bs',
        subst (λ l. Steps num_starts seed l (lend t ∷ lend_all ts) rows' (lend t ∷ bs'))
            (sym (others pre post t ts)) (other r),
      )

  -- An interleaving on the matrix is a schedule of the threads on their own.
  pub Interleaving-Schedule :
      {k : ℕ} (post : List ℕ) (ts : List Worker) {rows : List ℕ} {bs : List Borrower}
      {rows' : List ℕ} {bs' : List Borrower}
      → rows ≡ (joined ts).0 ++ post
      → bs ≡ lend_all ts
      → Apart 0 ts
      → Interleaving num_starts seed k rows bs rows' bs'
      → (ts' : List Worker) × Schedule num_starts seed k ts ts'
        × (rows' ≡ (joined ts').0 ++ post)
        × (bs' ≡ lend_all ts')
        × Apart 0 ts'
  unfolding Followed
  Interleaving-Schedule post ts e f apart rest = (ts, stop, e, f, apart)
  Interleaving-Schedule post ts e f apart (next s r) =
      let (ts', took, e', f', apart') = Steps-Followed [] post ts e f apart s in
      let (ts'', more, e'', f'', apart'') = Interleaving-Schedule post ts' e' f' apart' r in
      (ts'', after took more, e'', f'', apart'')

  -- A step of a thread on its own is one on the matrix.
  pub Step-goes :
      (post : List ℕ) (ts ts' : List Worker) (rows : List ℕ) (bs : List Borrower)
      → rows ≡ (joined ts).0 ++ post
      → bs ≡ lend_all ts
      → Apart 0 ts
      → Step num_starts seed ts ts'
      → (rows' : List ℕ) × (bs' : List Borrower) × Steps num_starts seed rows bs rows' bs'
  Step-goes post ts ts' rows bs e f apart s =
      let (rows', bs', r) = Step-Steps [] post apart s in
      (
        rows',
        bs',
        subst (λ l. Steps num_starts seed l bs rows' bs') (sym e)
            (subst (λ l. Steps num_starts seed ((joined ts).0 ++ post) l rows' bs') (sym f) r),
      )

pub lend_all-AllDone : (ts : List Worker) → AllHalted ts → AllDone (lend_all ts)
unfolding AllHalted AllDone
lend_all-AllDone [] h = tt
lend_all-AllDone (t ∷ ts) (a, b, h) = (a, b, lend_all-AllDone ts h)

pub spills-lend_all : (ts : List Worker) → spills (lend_all ts) ≡ (joined ts).1
unfolding spills joined
spills-lend_all [] = refl
spills-lend_all (t ∷ ts) = ap (λ l. t.spilled ∷ l) (spills-lend_all ts)
