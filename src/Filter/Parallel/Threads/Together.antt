-- ===== src/Filter/Parallel/Threads/Together.antt =====
-- The threads of src/filter/parallel.rs together: what any schedule comes to.
use mathlib.Core.Option
use pleat.Common.{
  ℕ, zero, suc, ◌+◌, ◌<◌, ◌≡◌, ◌⊎◌, inl, inr, refl, sym, subst, ◌∙◌, arith, List, [], ◌∷◌, ◌++◌,
  some, done, done_inj, done-bind,
}
use pleat.Filter.Parallel.Ribbon.{band_slices}
use pleat.Filter.Parallel.Threads.{
  between, Worker, advance_in, advance, Step, here, there, Schedule, stop, after, spawn,
}
use pleat.Filter.Parallel.Threads.Alone.{Finishes, halted, more, band_slice-Finishes}

-- The rows of all threads, one slice after the other, and the keys that each has spilled.
unfoldable pub joined : List Worker → List ℕ × List (List ℕ)
joined [] = ([], [])
joined (t ∷ ts) = let rest = joined ts in (t.rows ++ rest.0, t.spilled ∷ rest.1)

-- Every thread is at the end of its keys.
unfoldable pub AllHalted : List Worker → Type 0
AllHalted [] = Unit
AllHalted (t ∷ ts) = (t.phase ≡ between) × (t.keys ≡ []) × AllHalted ts

module _ (num_starts seed : ℕ) where
  -- Each thread finishes on its own, in `n` steps together, with these rows and spilled keys.
  Finish : List Worker → List ℕ × List (List ℕ) → ℕ → Type 0
  Finish [] out n = (out ≡ ([], [])) × (n ≡ 0)
  Finish (t ∷ ts) out n =
      (o : List ℕ × List ℕ) × (a : ℕ) × Finishes num_starts seed t o a
      × (rest : List ℕ × List (List ℕ)) × (b : ℕ) × Finish ts rest b
      × (out ≡ (o.0 ++ rest.0, o.1 ∷ rest.1))
      × (n ≡ a + b)

  -- A thread that finishes has one step only to take.
  step_one :
      {t t' : Worker} {o : List ℕ × List ℕ} {n : ℕ}
      → Finishes num_starts seed t o n
      → advance num_starts seed t ≡ some t'
      → (m : ℕ) × (n ≡ suc m) × Finishes num_starts seed t' o m
  unfolding advance advance_in
  step_one halted e = absurd (cc e)
  step_one {o} (more {n} f g) e = (
    n,
    refl,
    subst (λ t. Finishes num_starts seed t o n) (Option.some-injective _ _ (sym f ∙ e)) g,
  )

  Step-Finish :
      {ts ts' : List Worker} (out : List ℕ × List (List ℕ)) (n : ℕ)
      → Step num_starts seed ts ts'
      → Finish ts out n
      → (m : ℕ) × (n ≡ suc m) × Finish ts' out m
  unfolding Finish
  Step-Finish out n (here e) (o, a, f, rest, b, g, eq, count) =
      let (m, p, f') = step_one f e in (m + b, omega arith, (o, m, f', rest, b, g, eq, refl))
  Step-Finish out n (there s) (o, a, f, rest, b, g, eq, count) =
      let (m, p, g') = Step-Finish rest b s g in
      (a + m, omega arith, (o, a, f, rest, m, g', eq, refl))

  Schedule-Finish :
      {k : ℕ} {ts ts' : List Worker} (out : List ℕ × List (List ℕ)) (n : ℕ)
      → Schedule num_starts seed k ts ts'
      → Finish ts out n
      → (m : ℕ) × (n ≡ k + m) × Finish ts' out m
  Schedule-Finish out n stop f = (n, omega arith, f)
  Schedule-Finish out n (after s r) f =
      let (m, p, g) = Step-Finish out n s f in
      let (l, q, h) = Schedule-Finish out m r g in (l, omega arith, h)

  -- While steps are left, a thread has one.
  Finish-Step :
      (ts : List Worker) (out : List ℕ × List (List ℕ)) (n : ℕ)
      → Finish ts out (suc n)
      → (ts' : List Worker) × Step num_starts seed ts ts'
  unfolding Finish
  Finish-Step [] out n (eq, count) = absurd (omega (arith, count))
  Finish-Step (t ∷ ts) out n (o, a, more {t'} e f, rest, b, g, eq, count) = (t' ∷ ts, here e)
  Finish-Step (t ∷ ts) out n (o, a, halted, rest, zero, g, eq, count) =
      absurd (omega (arith, count))
  Finish-Step (t ∷ ts) out n (o, a, halted, rest, suc b, g, eq, count) =
      let (ts', s) = Finish-Step ts rest b g in (t ∷ ts', there s)

  -- Where none is left, all have come to their end.
  Finish-joined :
      (ts : List Worker) (out : List ℕ × List (List ℕ))
      → Finish ts out 0
      → AllHalted ts × (joined ts ≡ out)
  unfolding Finish AllHalted joined
  Finish-joined [] out (eq, count) = (tt, sym eq)
  Finish-joined (t ∷ ts) out (o, a, more e f, rest, b, g, eq, count) = absurd (omega (arith, count))
  Finish-joined (t ∷ ts) out (o, a, halted, rest, b, g, eq, count) =
      let none_left : b ≡ 0 = omega (arith, count) in
      let (h, j) = Finish-joined ts rest (rw none_left at g) in ((refl, refl, h), rw j (sym eq))

  spawn-Finish :
      (slices : List (ℕ × List ℕ)) (buckets : List (List ℕ)) (out : List ℕ × List (List ℕ))
      → band_slices num_starts seed slices buckets ≡ done out
      → (n : ℕ) × Finish (spawn slices buckets) out n
  unfolding Finish spawn band_slices
  spawn-Finish [] buckets out run = (0, (sym (done_inj run), refl))
  spawn-Finish (s ∷ slices) [] out run = (0, (sym (done_inj run), refl))
  spawn-Finish (s ∷ slices) (bucket ∷ buckets) out run =
      let (o, slice, next) = done-bind _ _ out run in
      let (rest, others, end) = done-bind _ _ out next in
      let (a, f) = band_slice-Finishes num_starts seed bucket s.0 s.1 [] o slice in
      let (b, g) = spawn-Finish slices buckets rest others in
      (a + b, (o, a, f, rest, b, g, sym (done_inj end), refl))

  -- Where the threads, run one after the other, return, there is a number of steps such that a
  -- schedule of the same threads can go on while it has fewer, and otherwise has as many, all threads
  -- at the end of their keys, and the same rows and spilled keys.
  pub Schedule-joined :
      (slices : List (ℕ × List ℕ)) (buckets : List (List ℕ)) (out : List ℕ × List (List ℕ))
      → band_slices num_starts seed slices buckets ≡ done out
      → (n : ℕ) × ((k : ℕ) (ts : List Worker)
          → Schedule num_starts seed k (spawn slices buckets) ts
          → ((k < n) × (ts' : List Worker) × Step num_starts seed ts ts')
            ⊎ ((k ≡ n) × AllHalted ts × (joined ts ≡ out)))
  Schedule-joined slices buckets out run =
      let (n, f) = spawn-Finish slices buckets out run in
      (n, λ k ts r. let (m, p, g) = Schedule-Finish out n r f in left ts out n k m p g)
    where
      left :
          (ts : List Worker) (out : List ℕ × List (List ℕ)) (n k m : ℕ)
          → n ≡ k + m
          → Finish ts out m
          → ((k < n) × (ts' : List Worker) × Step num_starts seed ts ts')
            ⊎ ((k ≡ n) × AllHalted ts × (joined ts ≡ out))
      left ts out n k zero p g = let (h, j) = Finish-joined ts out g in inr (omega arith, h, j)
      left ts out n k (suc m) p g =
          let (ts', s) = Finish-Step ts out m g in inl (omega arith, ts', s)
