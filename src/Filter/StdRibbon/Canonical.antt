-- ===== src/Filter/StdRibbon/Canonical.antt =====
-- `from_bytes` and `to_bytes` of `StdRibbon<R>` of src/filter.rs, from any bytes.
use pleat.Common.{
  ℕ, ◌≤◌, ◌≡◌, sym, ap, ◌∙◌, arith, List, ◌++◌, leb, Bool-cases, inl, inr, length, All, done,
  done_inj, Result, ok, ok_inj, err, err≢ok, and_then,
}
use pleat.Word.{cast}
use pleat.Banding128.{w128, seed_count}
use pleat.Format.{
  DecodeError, Header, decode, family_std, finish, write_header, extend_segments, read_segments,
}
use pleat.Format.Checksum.{IsByte}
use pleat.Format.Decode.{decode-Returns}
use pleat.Format.Canonical.{decode-finish_segments}
use pleat.Filter.StdRibbon.{StdRibbon, checked_seed, to_bytes, from_bytes}

to_bytes-read_std :
    (r : ℕ) (bytes : List ℕ) (d : Result DecodeError (Header × List ℕ)) (f : StdRibbon)
    → r ≤ 32
    → All IsByte bytes
    → decode bytes family_std r 16 w128 ≡ done d
    → and_then d checked_seed ≡ ok f
    → to_bytes r f ≡ bytes
unfolding to_bytes and_then checked_seed
to_bytes-read_std r bytes (err e) f width all run h = absurd (err≢ok h)
to_bytes-read_std r bytes (ok a) f width all run h = elim (Bool-cases (leb seed_count a.0.seed)) [
  | inl bad ↦ absurd (err≢ok (rw bad at h))
  | inr good ↦
      let e : cast 8 r ≡ r = omega arith in
      ap (to_bytes r) (sym (ok_inj (rw good at h)))
      ∙ ap
          (λ k. finish (
            write_header family_std k a.0.seed a.0.num_starts
              (cast 64 (length (read_segments 16 a.1)))
            ++ extend_segments 16 (read_segments 16 a.1)))
          e
      ∙ decode-finish_segments bytes all family_std r 16 w128 (omega arith) a (omega arith)
          (omega arith) run
]

-- For at most 32 columns, whatever bytes the standard `from_bytes` accepts, `to_bytes` writes the
-- same bytes for the filter that it returns.
pub to_bytes-from_bytes_std :
    (r : ℕ) (bytes : List ℕ) (f : StdRibbon)
    → r ≤ 32
    → All IsByte bytes
    → from_bytes r bytes ≡ done (ok f)
    → to_bytes r f ≡ bytes
unfolding from_bytes
to_bytes-from_bytes_std r bytes f width all run =
    let e : cast 8 r ≡ r = omega arith in
    let (d, run_d, _) = decode-Returns bytes family_std r 16 w128 (omega arith) in
    to_bytes-read_std r bytes d f width all run_d (done_inj (rw (e, run_d) at run))
