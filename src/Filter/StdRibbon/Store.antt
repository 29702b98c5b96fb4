-- ===== src/Filter/StdRibbon/Store.antt =====
-- `to_bytes` and `from_bytes` of `StdRibbon<R>` of src/filter.rs.
use pleat.Common.{
  ℕ, ◌+◌, ◌-◌, ◌*◌, ◌/◌, ◌%◌, ◌^◌, ◌≤◌, ◌<◌, ◌≡◌, sym, ap, ◌∙◌, arith, Bool, false, List, length,
  get_or, All, done, inl, inr, Bool-cases, leb, Result, ok, err, and_then, OnOk, Returns,
}
use pleat.Word.{cast}
use pleat.Word.Bits.{bit}
use pleat.Interleaved.Stores.{Stores}
use pleat.Interleaved.Agree.{none_from}
use pleat.Interleaved.Words.{IsWord}
use pleat.Hash.{ordinal_to_raw_seed}
use pleat.Banding128.{Solution128, w128, seed_count, from_parts}
use pleat.Banding128.Query.{IsSolution, fails, contains-none_from_128}
use pleat.Format.{
  DecodeError, Header, decode, family_std, extend_segments, read_chunks, read_segments,
}
use pleat.Format.Bytes.{length-extend_segments, read_chunks-extend_segments, length-read_chunks}
use pleat.Format.Geometry.{Fits}
use pleat.Format.Decode.{Accepted, decode-Returns}
use pleat.Format.RoundTrip.{decode-finish}
use pleat.Filter.{BuildError, no_solving_seed, num_slots_for_128}
use pleat.Filter.Slots.{num_slots_for_128_blocks, num_slots_for_128_bounds}
use pleat.Filter.StdRibbon.{StdRibbon, from_keys, contains, checked_seed, to_bytes, from_bytes}
use pleat.Filter.StdRibbon.Laws.{from_keys-Built}

-- The values that segments of `r` columns hold.
abbrev pub held : ℕ → List ℕ → ℕ → ℕ → Bool
held r segments j i = bit (i % w128) (get_or segments (i / w128 * r + j) 0)

pub held-Stores :
    (r blocks : ℕ) (segments : List ℕ) → Stores w128 r blocks segments (held r segments)
held-Stores r blocks segments blk j b lo p jr bw =
    let e : (blk * w128 + b) / w128 ≡ blk = omega arith in
    let f : (blk * w128 + b) % w128 ≡ b = omega arith in rw (e, f)

-- A filter that `from_bytes` accepts: its segments cover every row that begins at a start.
Fits-IsSolution :
    (r seed num_starts : ℕ) (p : List ℕ)
    → Fits r 16 w128 num_starts (length p)
    → IsSolution r (from_parts num_starts seed (read_segments 16 p)) (held r (read_segments 16 p))
Fits-IsSolution r seed num_starts p f = record {
  blocks = f.blocks;
  starts = f.starts;
  starts_u64 = omega (arith, f.slots_u64);
  slots = f.slots;
  words =
      length-read_chunks 16 (length p / 16) p
      ∙ (let e : length p / 16 ≡ f.blocks * r = omega (arith, f.bytes) in e);
  stores = held-Stores r f.blocks (read_segments 16 p);
}

queries_return :
    (r : ℕ) (d : Result DecodeError (Header × List ℕ))
    → Accepted r 16 w128 d
    → OnOk
        (λ f. (key : ℕ) → Returns (λ (b : Bool). Unit {0}) (contains r f key))
        (and_then d checked_seed)
unfolding OnOk and_then contains checked_seed
queries_return r (err x) a = tt
queries_return r (ok (h, p)) a = elim (Bool-cases (leb seed_count h.seed)) [
  | inl e ↦ rw e tt
  | inr e ↦ rw e (
      let s : Solution128 = from_parts h.num_starts h.seed (read_segments 16 p) in
      λ key. (
        none_from (fails s (held r (read_segments 16 p)) key) 0 r,
        contains-none_from_128 r s (held r (read_segments 16 p))
            (Fits-IsSolution r h.seed h.num_starts p a) key,
        tt,
      ))
]

module _ (r : ℕ) (width : r ≤ 32) where
  -- For at most 32 columns, the standard `from_bytes` returns for all bytes without a panic: an
  -- error, or a filter on which a query returns without a panic for every key.
  pub from_bytes-Returns_std :
      (bytes : List ℕ)
      → Returns
          (OnOk (λ f. (key : ℕ) → Returns (λ (b : Bool). Unit {0}) (contains r f key)))
          (from_bytes r bytes)
  unfolding from_bytes
  from_bytes-Returns_std bytes =
      let e : cast 8 r ≡ r = omega arith in
      let (d, run, a) = decode-Returns bytes family_std r 16 w128 (omega arith) in
      let run' : decode bytes family_std (cast 8 r) 16 w128 ≡ done d =
        ap (λ (k : ℕ). decode bytes family_std k 16 w128) e ∙ run in
      (and_then d checked_seed, rw run', queries_return r d a)

  -- A filter whose fields are words and whose segments fit is read back as it was written.
  from_bytes-to_bytes :
      (f : StdRibbon) (blocks : ℕ)
      → f.soln.ordinal_seed < 64
      → f.soln.raw_seed ≡ ordinal_to_raw_seed f.soln.ordinal_seed
      → 0 < f.soln.num_starts
      → f.soln.num_starts + 127 ≡ blocks * 128
      → 2 ≤ blocks
      → blocks < 2 ^ 40
      → length f.soln.segments ≡ blocks * r
      → All (IsWord w128) f.soln.segments
      → from_bytes r (to_bytes r f) ≡ done (ok f)
  unfolding from_bytes to_bytes and_then checked_seed
  from_bytes-to_bytes f blocks ordinal seed starts slots two few len words =
      let e : cast 8 r ≡ r = omega arith in
      let bound : blocks * r ≤ blocks * 32 = grind arith in
      let c : cast 64 (length f.soln.segments) ≡ length f.soln.segments = omega (arith, len) in
      let p : List ℕ = extend_segments 16 f.soln.segments in
      let size : length p ≡ length f.soln.segments * 16 =
        length-extend_segments 16 f.soln.segments in
      let fits : Fits r 16 w128 f.soln.num_starts (length p) = record {
        blocks = blocks;
        starts = starts;
        slots = slots;
        two_blocks = omega arith;
        slots_u64 = omega arith;
        bytes = size ∙ ap (λ (k : ℕ). k * 16) len;
      } in
      let chunks : length p / 16 ≡ length f.soln.segments = omega (arith, size) in
      let low : leb seed_count f.soln.ordinal_seed ≡ false = ground arith in
      let back : read_segments 16 p ≡ f.soln.segments =
        ap (λ (k : ℕ). read_chunks 16 k p) chunks
        ∙ read_chunks-extend_segments 16 f.soln.segments words in
      rw
        (
          e,
          c,
          decode-finish family_std r 16 w128 f.soln.ordinal_seed f.soln.num_starts
              (length f.soln.segments) p fits (omega arith) (omega arith) (omega (arith, size, len))
              (omega arith) (omega arith) len,
          low,
          back,
        )
        (ap
          (λ (x : ℕ). done (
            ok (record {
              soln = record {
                segments = f.soln.segments;
                num_starts = f.soln.num_starts;
                raw_seed = x;
                ordinal_seed = f.soln.ordinal_seed;
              };
            })))
          (sym seed))

  -- For at most 32 columns and fewer than 2 ^ 43 keys, the standard build ends in a result, and
  -- where that is a filter, `from_bytes` reads it back, as it was, from what `to_bytes` writes.
  pub from_keys-from_bytes :
      (keys : List ℕ)
      → length keys < 2 ^ 43
      → (out : Result BuildError StdRibbon) × (from_keys r keys ≡ done out)
        × OnOk (λ f. from_bytes r (to_bytes r f) ≡ done (ok f)) out
  unfolding OnOk
  from_keys-from_bytes keys few =
      let n : ℕ = num_slots_for_128 (length keys) r in
      let m : n % 128 ≡ 0 = num_slots_for_128_blocks (length keys) r in
      let (_, lo, _, hi) = num_slots_for_128_bounds (length keys) r width few in
      let size : (n - 127 + 127) / 128 ≡ n / 128 = omega arith in
      let (out, run, h) = from_keys-Built r width keys few in
      elim h [
        | inl (bad, u) ↦ (err no_solving_seed, run ∙ ap done bad, tt)
        | inr (f, good, t) ↦ (
          ok f,
          run ∙ ap done good,
          from_bytes-to_bytes f (n / 128) t.ordinal t.seed (omega (arith, t.starts))
              (omega (arith, t.starts)) (omega arith) (omega arith)
              (t.size ∙ ap (λ (k : ℕ). k * r) size) t.words,
        )
      ]
