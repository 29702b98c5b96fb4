-- ===== src/Filter/Ribbon/Store.antt =====
-- `to_bytes` and `from_bytes` of `Ribbon<R>` of src/filter.rs.
use pleat.Common.{
  ℕ, ◌+◌, ◌*◌, ◌/◌, ◌%◌, ◌^◌, ◌≤◌, ◌<◌, ◌≡◌, refl, ap, ◌∙◌, arith, Bool, List, length, get_or, All,
  done, ◌>>=◌, Result, ok, err, and_then, OnOk, Returns,
}
use pleat.Word.{cast}
use pleat.Word.Bits.{bit}
use pleat.Interleaved.Stores.{Stores}
use pleat.Interleaved.Agree.{none_from}
use pleat.Interleaved.Words.{IsWord}
use pleat.Banding.{Solution, w, from_parts, solve}
use pleat.Banding.Back.{back_substitute-IsWord, length-back_substitute}
use pleat.Banding.Query.{IsSolution, fails, contains-none_from}
use pleat.Banding.Laws.{Built, built}
use pleat.Format.{
  DecodeError, Header, decode, family_homog, extend_segments, read_chunks, read_segments,
}
use pleat.Format.Bytes.{length-extend_segments, read_chunks-extend_segments, length-read_chunks}
use pleat.Format.Geometry.{Fits}
use pleat.Format.Decode.{Accepted, decode-Returns}
use pleat.Format.RoundTrip.{decode-finish}
use pleat.Filter.{num_slots_for}
use pleat.Filter.Slots.{num_slots_for_blocks, num_slots_for_bounds}
use pleat.Filter.Ribbon.{Ribbon, from_keys_seeded, contains, to_bytes, from_bytes}
use pleat.Filter.Ribbon.Laws.{from_keys_seeded-build, wrap}

-- The values that segments of `r` columns hold.
abbrev pub held : ℕ → List ℕ → ℕ → ℕ → Bool
held r segments j i = bit (i % w) (get_or segments (i / w * r + j) 0)

pub held-Stores : (r blocks : ℕ) (segments : List ℕ) → Stores w r blocks segments (held r segments)
held-Stores r blocks segments blk j b lo p jr bw =
    let e : (blk * w + b) / w ≡ blk = omega arith in
    let f : (blk * w + b) % w ≡ b = omega arith in rw (e, f)

-- A filter that `from_bytes` accepts: its segments cover every row that begins at a start.
Fits-IsSolution :
    (r seed num_starts : ℕ) (p : List ℕ)
    → Fits r 8 w num_starts (length p)
    → IsSolution r (from_parts num_starts seed (read_segments 8 p)) (held r (read_segments 8 p))
Fits-IsSolution r seed num_starts p f = record {
  blocks = f.blocks;
  starts = f.starts;
  starts_u64 = omega (arith, f.slots_u64);
  slots = f.slots;
  words =
      length-read_chunks 8 (length p / 8) p
      ∙ (let e : length p / 8 ≡ f.blocks * r = omega (arith, f.bytes) in e);
  stores = held-Stores r f.blocks (read_segments 8 p);
}

queries_return :
    (r : ℕ) (d : Result DecodeError (Header × List ℕ))
    → Accepted r 8 w d
    → OnOk
        (λ f. (key : ℕ) → Returns (λ (b : Bool). Unit {0}) (contains r f key))
        (and_then d
          (λ d. ok (record { soln = from_parts d.0.num_starts d.0.seed (read_segments 8 d.1) })))
unfolding OnOk and_then contains
queries_return r (err x) a = tt
queries_return r (ok (h, p)) a =
    let s : Solution = from_parts h.num_starts h.seed (read_segments 8 p) in
    λ key. (
      none_from (fails s (held r (read_segments 8 p)) key) 0 r,
      contains-none_from r s (held r (read_segments 8 p))
          (Fits-IsSolution r h.seed h.num_starts p a) key,
      tt,
    )

module _ (r : ℕ) (width : r ≤ 32) where
  -- For at most 32 columns, the homogeneous `from_bytes` returns for all bytes without a panic:
  -- an error, or a filter on which a query returns without a panic for every key.
  pub from_bytes-Returns :
      (bytes : List ℕ)
      → Returns
          (OnOk (λ f. (key : ℕ) → Returns (λ (b : Bool). Unit {0}) (contains r f key)))
          (from_bytes r bytes)
  unfolding from_bytes
  from_bytes-Returns bytes =
      let e : cast 8 r ≡ r = omega arith in
      let (d, run, a) = decode-Returns bytes family_homog r 8 w (omega arith) in
      let run' : decode bytes family_homog (cast 8 r) 8 w ≡ done d =
        ap (λ (k : ℕ). decode bytes family_homog k 8 w) e ∙ run in
      (
        and_then d
            (λ d. ok (record { soln = from_parts d.0.num_starts d.0.seed (read_segments 8 d.1) })),
        rw run',
        queries_return r d a,
      )

  -- A filter whose fields are words and whose segments fit is read back as it was written.
  from_bytes-to_bytes :
      (f : Ribbon) (blocks : ℕ)
      → f.soln.raw_seed < 2 ^ 64
      → 0 < f.soln.num_starts
      → f.soln.num_starts + 63 ≡ blocks * 64
      → 2 ≤ blocks
      → blocks < 2 ^ 40
      → length f.soln.segments ≡ blocks * r
      → All (IsWord w) f.soln.segments
      → from_bytes r (to_bytes r f) ≡ done (ok f)
  unfolding from_bytes to_bytes and_then
  from_bytes-to_bytes f blocks seed starts slots two few len words =
      let e : cast 8 r ≡ r = omega arith in
      let bound : blocks * r ≤ blocks * 32 = grind arith in
      let c : cast 64 (length f.soln.segments) ≡ length f.soln.segments = omega (arith, len) in
      let p : List ℕ = extend_segments 8 f.soln.segments in
      let size : length p ≡ length f.soln.segments * 8 = length-extend_segments 8 f.soln.segments in
      let fits : Fits r 8 w f.soln.num_starts (length p) = record {
        blocks = blocks;
        starts = starts;
        slots = slots;
        two_blocks = omega arith;
        slots_u64 = omega arith;
        bytes = size ∙ ap (λ (k : ℕ). k * 8) len;
      } in
      let chunks : length p / 8 ≡ length f.soln.segments = omega (arith, size) in
      let back : read_segments 8 p ≡ f.soln.segments =
        ap (λ (k : ℕ). read_chunks 8 k p) chunks
        ∙ read_chunks-extend_segments 8 f.soln.segments words in
      rw
        (
          e,
          c,
          decode-finish family_homog r 8 w f.soln.raw_seed f.soln.num_starts
              (length f.soln.segments) p fits (omega arith) (omega arith) (omega (arith, size, len))
              seed (omega arith) len,
          back,
        )
        refl

  -- For at most 32 columns, fewer than 2 ^ 44 keys and a seed of 64 bits, the homogeneous build
  -- gives a filter that `from_bytes` reads back, as it was, from what `to_bytes` writes.
  pub from_keys_seeded-from_bytes :
      (keys : List ℕ) (seed : ℕ)
      → length keys < 2 ^ 44
      → seed < 2 ^ 64
      → (f : Ribbon) × (from_keys_seeded r keys seed ≡ done f)
        × (from_bytes r (to_bytes r f) ≡ done (ok f))
  from_keys_seeded-from_bytes keys seed few u64 =
      let n : ℕ = num_slots_for (length keys) r in
      let m : n % 64 ≡ 0 = num_slots_for_blocks (length keys) r in
      let (lo, _, hi) = num_slots_for_bounds (length keys) r width few in
      let t : Built r n seed keys = built r n seed m (omega arith) (omega arith) keys in
      let f : Ribbon = record { soln = solve r t.matrix } in
      let whole : n / 64 * 64 ≡ length t.matrix.coeff_rows = omega (arith, t.slots) in
      (
        f,
        from_keys_seeded-build r keys seed ∙ ap (λ b. b >>= wrap) t.result,
        unfold solve in
            from_bytes-to_bytes f (n / 64) (omega (arith, t.seed)) (omega (arith, t.starts))
              (omega (arith, t.starts)) (omega arith) (omega arith)
              (length-back_substitute r (n / 64) t.matrix whole)
              (back_substitute-IsWord r t.matrix),
      )
