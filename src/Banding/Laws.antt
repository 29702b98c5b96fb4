-- ===== src/Banding/Laws.antt =====
-- The homogeneous filter of src/banding.rs from its keys to its solution: `new`, `add_all`, `solve`
-- and `contains` together.
use pleat.Common.{
  ℕ, ◌-◌, ◌*◌, ◌/◌, ◌%◌, ◌^◌, ◌<◌, ◌≡◌, refl, sym, ap, ◌∙◌, arith, Bool, true, List, length, All,
  All-map, All-forall, Run, done, ◌>>=◌,
}
use pleat.System.Unique.{solution_unique}
use pleat.Interleaved.Words.{Stores-unique}
use pleat.Banding.Add.{coef, zeros}
use pleat.Interleaved.Agree.{none_from_iff}
use pleat.Banding.{Banding, Solution, new, add_all, solve, back_substitute, contains, w}
use pleat.Banding.Build.{IsBand, BandSolves, Accepts, add_all-Extends, new-IsBand}
use pleat.Banding.Back.{
  free, back_substitute-IsWord, column, column-BandSolves, back_substitute-Stores,
  length-back_substitute,
}
use pleat.Banding.Query.{IsSolution, fails, contains-none_from}

-- A solved matrix is a solution that queries can read.
pub solve-IsSolution :
    (r blocks : ℕ) (b : Banding)
    → IsBand b
    → blocks * 64 ≡ length b.coeff_rows
    → IsSolution r (solve r b) (column b.coeff_rows)
unfolding solve
solve-IsSolution r blocks b v whole = record {
  blocks = blocks;
  starts = v.starts;
  starts_u64 = v.starts_u64;
  slots = v.slots ∙ sym whole;
  words = length-back_substitute r blocks b whole;
  stores = back_substitute-Stores r blocks b whole;
}

-- Solving a well-formed homogeneous matrix of whole blocks gives a solution whose segments store,
-- for each column, values at all slots that solve every row of the matrix, and which covers each
-- row that begins at a start.
pub solve-BandSolves :
    (r blocks : ℕ) (b : Banding)
    → IsBand b
    → blocks * 64 ≡ length b.coeff_rows
    → (x : ℕ → ℕ → Bool) × IsSolution r (solve r b) x × ((j : ℕ) → BandSolves b (x j))
solve-BandSolves r blocks b v whole =
    (column b.coeff_rows, solve-IsSolution r blocks b v whole, λ j. column-BandSolves b j v)

-- Two well-formed matrices with the same sizes and the same solutions have the same result.
pub solve-same :
    (r blocks : ℕ) (b b' : Banding)
    → IsBand b
    → IsBand b'
    → blocks * 64 ≡ length b.coeff_rows
    → length b.coeff_rows ≡ length b'.coeff_rows
    → b.num_starts ≡ b'.num_starts
    → b.raw_seed ≡ b'.raw_seed
    → ((x : ℕ → Bool) → BandSolves b x → BandSolves b' x)
    → ((x : ℕ → Bool) → BandSolves b' x → BandSolves b x)
    → solve r b ≡ solve r b'
unfolding solve
solve-same r blocks b b' v v' whole same starts seed to back =
    λ i. record { segments = segments i; num_starts = starts i; raw_seed = seed i }
  where
    columns : (j i : ℕ) → column b.coeff_rows j i ≡ column b'.coeff_rows j i
    columns j i =
        unfold column in
        (rw same (
          solution_unique w (length b'.coeff_rows) (omega arith) (coef b.coeff_rows)
            (coef b'.coeff_rows) zeros zeros (rw same at v.echelon) v'.echelon (λ k e. refl)
            (λ k e. refl) to back (free j) i))

    segments : back_substitute r b ≡ back_substitute r b'
    segments =
        Stores-unique w r blocks _ _ (column b.coeff_rows) (column b'.coeff_rows) (omega arith)
          (length-back_substitute r blocks b whole)
          (length-back_substitute r blocks b' (whole ∙ same)) (back_substitute-IsWord r b)
          (back_substitute-IsWord r b') (back_substitute-Stores r blocks b whole)
          (back_substitute-Stores r blocks b' (whole ∙ same)) columns

-- The whole build: a new matrix, the keys added in order, and the solution.
unfoldable pub build : ℕ → ℕ → ℕ → List ℕ → Run Solution
build r num_slots raw_seed keys = do
  b ← new num_slots raw_seed
  b' ← add_all b keys
  done (solve r b')

-- What `build` reaches: the solution of a matrix that the equations of the keys, and nothing else,
-- have shaped.
pub record Built (r num_slots raw_seed : ℕ) (keys : List ℕ) : Type 0 where
  pub matrix : Banding
  pub result : build r num_slots raw_seed keys ≡ done (solve r matrix)
  pub band : IsBand matrix
  pub slots : length matrix.coeff_rows ≡ num_slots
  pub starts : matrix.num_starts ≡ num_slots - 63
  pub seed : matrix.raw_seed ≡ raw_seed
  pub accepts :
      (x : ℕ → Bool) → BandSolves matrix x → All (Accepts (num_slots - 63) raw_seed x) keys
  pub only : (x : ℕ → Bool) → All (Accepts (num_slots - 63) raw_seed x) keys → BandSolves matrix x

module _ (r num_slots raw_seed : ℕ) where
  module _ (m : num_slots % 64 ≡ 0) (pos : 0 < num_slots) (lt : num_slots < 2 ^ 64) where
    -- The build does not panic, and its matrix has the solutions of the keys' equations.
    pub built : (keys : List ℕ) → Built r num_slots raw_seed keys
    unfolding build
    built keys =
        let (b, run, v, slots, starts, seed, empty) = new-IsBand num_slots raw_seed m pos lt in
        let (b', run', e) = add_all-Extends b keys v in
        record {
          matrix = b';
          result = rw (run, run');
          band = e.band;
          slots = e.same_length ∙ slots;
          starts = e.same_starts ∙ starts;
          seed = e.same_seed ∙ seed;
          accepts = λ x s. rw (starts, seed) at (e.accepts x s);
          only = λ x q. e.only x (empty x) (rw (starts, seed) q);
        }

    -- The build does not panic, and its result is a solution that answers `true` for every key.
    pub build-contains :
        (keys : List ℕ)
        → (s : Solution) × (build r num_slots raw_seed keys ≡ done s)
          × All (λ k. contains r s k ≡ done true) keys
    build-contains keys =
        (solve r t.matrix, t.result, All-map keys (λ k. member k) (All-forall _ keys accepted))
      where
        t : Built r num_slots raw_seed keys
        t = built keys

        accepted :
            (j : ℕ) → All (Accepts (num_slots - 63) raw_seed (column t.matrix.coeff_rows j)) keys
        accepted j = t.accepts (column t.matrix.coeff_rows j) (column-BandSolves t.matrix j t.band)

        member :
            (k : ℕ)
            → ((j : ℕ) → Accepts (num_slots - 63) raw_seed (column t.matrix.coeff_rows j) k)
            → contains r (solve r t.matrix) k ≡ done true
        member k h =
            contains-none_from r (solve r t.matrix) (column t.matrix.coeff_rows)
              (solve-IsSolution r (num_slots / 64) t.matrix t.band (omega (arith, t.slots))) k
            ∙ ap done (
                (none_from_iff (fails (solve r t.matrix) (column t.matrix.coeff_rows) k) r).1
                  (λ j p. unfold solve in rw (t.starts, t.seed) (h j)))

    -- Two lists whose equations have the same solutions give the same result, bit for bit.
    pub build-same :
        (keys keys' : List ℕ)
        → ((x : ℕ → Bool)
            → All (Accepts (num_slots - 63) raw_seed x) keys
            → All (Accepts (num_slots - 63) raw_seed x) keys')
        → ((x : ℕ → Bool)
            → All (Accepts (num_slots - 63) raw_seed x) keys'
            → All (Accepts (num_slots - 63) raw_seed x) keys)
        → build r num_slots raw_seed keys ≡ build r num_slots raw_seed keys'
    build-same keys keys' to back =
        let t : Built r num_slots raw_seed keys = built keys in
        let t' : Built r num_slots raw_seed keys' = built keys' in
        t.result
        ∙ ap done (
            solve-same r (num_slots / 64) t.matrix t'.matrix t.band t'.band (omega (arith, t.slots))
              (t.slots ∙ sym t'.slots) (t.starts ∙ sym t'.starts) (t.seed ∙ sym t'.seed)
              (λ x q. t'.only x (to x (t.accepts x q))) (λ x q. t.only x (back x (t'.accepts x q))))
        ∙ sym t'.result
