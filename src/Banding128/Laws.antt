-- ===== src/Banding128/Laws.antt =====
-- The standard solution of src/banding128.rs from its keys: `build_std128` and
-- `build_std128_pleated`.
use native.Mathlib.Decide.{ℕ_discrete, dec_lt}
use mathlib.Core.List.{Perm}
use mathlib.Core.List.Perm
use mathlib.Core.Option
use pleat.Common.{
  ℕ, ◌+◌, ◌-◌, ◌*◌, ◌/◌, ◌%◌, ◌^◌, ◌≤◌, ◌<◌, ◌≡◌, sym, ap, ◌∙◌, arith, Bool, true, lt→ltb, ◌⊎◌, inl,
  inr, xor_self, List, length, length-perm, All, All-map, All-forall, Option, some, none, done,
}
use pleat.Word.Bits.{bit}
use pleat.Hash.{ribbon_hash, result_row, ordinal_to_raw_seed}
use pleat.Interleaved.Agree.{none_from_iff}
use pleat.Interleaved.Words.{IsWord}
use pleat.Filter.{num_slots_for_128, window_size}
use pleat.Filter.Slots.{num_slots_for_128_blocks, num_slots_for_128_bounds}
use pleat.Banding128.{
  Banding128, Solution128, w128, into_solution, contains, build_std128, build_std128_pleated,
}
use pleat.Banding128.Build.{Accepts}
use pleat.Banding128.Seed.{
  SolvesAll, Unsolvable, Solved, Search, Search-perm, find_seed-Search, find_seed_pleated-Search,
}
use pleat.Banding128.Back.{
  column, column-BandSolves, back_substitute-Stores, back_substitute-IsWord, length-back_substitute,
  Solved-unique,
}
use pleat.Banding128.Query.{IsSolution, fails, contains-none_from_128}

module _ (num_starts : ℕ) (keys : List ℕ) where
  module _ (b : Banding128) (s : Solved num_starts keys b) where
    -- The columns of the matrix solve the equations of all keys.
    column-SolvesAll : SolvesAll num_starts b.ordinal_seed keys (column b.coeff_rows b.result_rows)
    column-SolvesAll j p =
        s.accepts j (column b.coeff_rows b.result_rows j) (column-BandSolves b j s.matrix)

    -- A solved matrix is a solution that queries can read.
    pub into_solution-IsSolution :
        (r blocks : ℕ)
        → blocks * 128 ≡ num_starts + 127
        → IsSolution r (into_solution r b) (column b.coeff_rows b.result_rows)
    unfolding into_solution
    into_solution-IsSolution r blocks whole =
        let e : blocks * 128 ≡ length b.coeff_rows = whole ∙ sym s.shape.rows in
        record {
          blocks = blocks;
          starts = s.shape.starts;
          starts_u64 = s.shape.starts_u64;
          slots = s.shape.slots ∙ sym whole;
          words = length-back_substitute r blocks b e;
          stores = back_substitute-Stores r blocks b e s.matrix;
        }

    -- Solving gives segments that hold columns which solve, for every key, the key's equation.
    pub into_solution-SolvesAll :
        (r blocks : ℕ)
        → blocks * 128 ≡ num_starts + 127
        → (x : ℕ → ℕ → Bool) × IsSolution r (into_solution r b) x
          × SolvesAll num_starts b.ordinal_seed keys x
    into_solution-SolvesAll r blocks whole = (
      column b.coeff_rows b.result_rows,
      into_solution-IsSolution r blocks whole,
      column-SolvesAll,
    )

    -- It answers `true` for every key.
    into_solution-contains :
        (r blocks : ℕ)
        → r ≤ 32
        → blocks * 128 ≡ num_starts + 127
        → All (λ k. contains r (into_solution r b) k ≡ done true) keys
    into_solution-contains r blocks width whole =
        All-map keys (λ k h. member k h) (All-forall _ keys accepted)
      where
        x : ℕ → ℕ → Bool
        x = column b.coeff_rows b.result_rows

        accepted :
            (j : ℕ) → All (Accepts num_starts (ordinal_to_raw_seed b.ordinal_seed) j (x j)) keys
        accepted j = s.accepts j (x j) (column-BandSolves b j s.matrix)

        member :
            (k : ℕ)
            → ((j : ℕ) → Accepts num_starts (ordinal_to_raw_seed b.ordinal_seed) j (x j) k)
            → contains r (into_solution r b) k ≡ done true
        member k h =
            contains-none_from_128 r (into_solution r b) x (into_solution-IsSolution r blocks whole)
              k
            ∙ ap done (
                (none_from_iff (fails (into_solution r b) x k) r).1 (λ j p.
                  unfold into_solution in
                  rw (s.same_starts, s.seed, h j)
                    (xor_self
                      (bit j (result_row (ribbon_hash k (ordinal_to_raw_seed b.ordinal_seed)))))))

  -- Two searches over the same ordinals find the same solution.
  pub Search-unique :
      (r blocks : ℕ) (out out' : Option Banding128)
      → blocks * 128 ≡ num_starts + 127
      → Search num_starts keys 0 64 out
      → Search num_starts keys 0 64 out'
      → Option.map (into_solution r) out ≡ Option.map (into_solution r) out'
  Search-unique r blocks out out' whole (inl (e, h)) (inl (e', h')) = rw (e, e')
  Search-unique r blocks out out' whole (inl (e, h)) (inr (b, e', s, lo, hi, before)) =
      absurd (
        h b.ordinal_seed (omega arith) hi (column b.coeff_rows b.result_rows)
          (column-SolvesAll b s))
  Search-unique r blocks out out' whole (inr (b, e, s, lo, hi, before)) (inl (e', h')) = absurd (
      h' b.ordinal_seed (omega arith) hi (column b.coeff_rows b.result_rows) (column-SolvesAll b s))
  Search-unique r blocks out out' whole (inr (b, e, s, lo, hi, before))
        (inr (b', e', s', lo', hi', before')) =
      rw (e, e')
        (ap some (
          Solved-unique r blocks num_starts keys b b' whole s s'
            (elim (ℕ_discrete b.ordinal_seed b'.ordinal_seed) [
              | yes eq ↦ eq
              | no ne ↦ elim (dec_lt b.ordinal_seed b'.ordinal_seed) [
                | yes lt ↦ absurd (
                    before' b.ordinal_seed (omega arith) lt (column b.coeff_rows b.result_rows)
                      (column-SolvesAll b s))
                | no ge ↦ absurd (
                    before b'.ordinal_seed (omega arith) (omega arith)
                      (column b'.coeff_rows b'.result_rows) (column-SolvesAll b' s'))
              ]
            ])))

-- The solution under the least ordinal that solves the equations of the keys: it answers `true` for
-- each key, and its segments are a word of 128 bits for each block and column.
pub record Found (r num_starts : ℕ) (keys : List ℕ) (s : Solution128) : Type 0 where
  pub answers : All (λ k. contains r s k ≡ done true) keys
  pub starts : s.num_starts ≡ num_starts
  pub seed : s.raw_seed ≡ ordinal_to_raw_seed s.ordinal_seed
  pub ordinal : s.ordinal_seed < 64
  pub first : (o : ℕ) → o < s.ordinal_seed → Unsolvable num_starts o keys
  pub size : length s.segments ≡ (num_starts + 127) / 128 * r
  pub words : All (IsWord w128) s.segments

-- What a build of the standard solution ends in: nothing, if no ordinal below 64 has a solution, or
-- that solution.
abbrev pub Finds : ℕ → ℕ → List ℕ → Option Solution128 → Type 0
Finds r num_starts keys out =
    ((out ≡ none) × ((o : ℕ) → o < 64 → Unsolvable num_starts o keys))
    ⊎ ((s : Solution128) × (out ≡ some s) × Found r num_starts keys s)

Search-Finds :
    (r blocks num_starts : ℕ) (keys : List ℕ) (out : Option Banding128)
    → r ≤ 32
    → blocks * 128 ≡ num_starts + 127
    → Search num_starts keys 0 64 out
    → Finds r num_starts keys (Option.map (into_solution r) out)
unfolding into_solution
Search-Finds r blocks num_starts keys out width whole (inl (e, h)) =
    inl (rw e, λ o p. h o (omega arith) p)
Search-Finds r blocks num_starts keys out width whole (inr (b, e, s, lo, hi, before)) = inr (
  into_solution r b,
  rw e,
  record {
    answers = into_solution-contains num_starts keys b s r blocks width whole;
    starts = s.same_starts;
    seed = s.seed;
    ordinal = hi;
    first = λ o p. before o (omega arith) p;
    size =
        length-back_substitute r blocks b (whole ∙ sym s.shape.rows)
        ∙ (let n : blocks ≡ (num_starts + 127) / 128 = omega (arith, whole) in
            ap (λ (k : ℕ). k * r) n);
    words = back_substitute-IsWord r b;
  },
)

module _ (r : ℕ) (width : r ≤ 32) where
  -- The build in order of arrival does not panic. It returns a solution, which answers `true` for
  -- each key, exactly if an ordinal below 64 solves the equations of the keys, and the solution is
  -- under the least such ordinal.
  pub build_std128-Finds :
      (keys : List ℕ)
      → length keys < 2 ^ 43
      → (out : Option Solution128) × (build_std128 r keys ≡ done out)
        × Finds r (num_slots_for_128 (length keys) r - 127) keys out
  unfolding build_std128
  build_std128-Finds keys few =
      let n : ℕ = num_slots_for_128 (length keys) r in
      let m : n % 128 ≡ 0 = num_slots_for_128_blocks (length keys) r in
      let (_, lo, _, hi) = num_slots_for_128_bounds (length keys) r width few in
      let (out, run, h) = find_seed-Search n m (omega arith) (omega arith) keys in
      (
        Option.map (into_solution r) out,
        rw run,
        Search-Finds r (n / 128) (n - 127) keys out width (omega arith) h,
      )

  -- For at most 32 columns, fewer than 2 ^ 43 keys and a window shift below 64, the pleated
  -- standard build gives the same solution under the same seed as the build in order of arrival,
  -- or fails where that fails.
  pub build_std128_pleated-eq :
      (keys : List ℕ) (window_shift : ℕ)
      → length keys < 2 ^ 43
      → window_shift < 64
      → build_std128_pleated r keys window_shift ≡ build_std128 r keys
  unfolding build_std128 build_std128_pleated window_size
  build_std128_pleated-eq keys window_shift few shift =
      let n : ℕ = num_slots_for_128 (length keys) r in
      let m : n % 128 ≡ 0 = num_slots_for_128_blocks (length keys) r in
      let (_, lo, _, hi) = num_slots_for_128_bounds (length keys) r width few in
      let (out, run, h) = find_seed-Search n m (omega arith) (omega arith) keys in
      let (out', run', h') =
        find_seed_pleated-Search n m (omega arith) (omega arith) keys window_shift shift in
      rw (lt→ltb window_shift 64 shift, run, run')
        (ap done (Search-unique (n - 127) keys r (n / 128) out' out (omega arith) h' h))

  -- For at most 32 columns and fewer than 2 ^ 43 keys, the standard build gives the same solution
  -- under the same seed, or fails, alike for any permutation of the keys.
  pub build_std128-perm :
      (keys keys' : List ℕ)
      → length keys < 2 ^ 43
      → Perm keys keys'
      → build_std128 r keys ≡ build_std128 r keys'
  unfolding build_std128
  build_std128-perm keys keys' few p =
      let n : ℕ = num_slots_for_128 (length keys) r in
      let m : n % 128 ≡ 0 = num_slots_for_128_blocks (length keys) r in
      let (_, lo, _, hi) = num_slots_for_128_bounds (length keys) r width few in
      let (out, run, h) = find_seed-Search n m (omega arith) (omega arith) keys in
      let (out', run', h') = find_seed-Search n m (omega arith) (omega arith) keys' in
      rw (sym (length-perm p), run, run')
        (ap done (
          Search-unique (n - 127) keys r (n / 128) out out' (omega arith) h
            (Search-perm (n - 127) 0 64 keys' keys out' (Perm.symm p) h')))
