-- ===== src/Filter/Ribbon/Canonical.antt =====
-- `from_bytes` and `to_bytes` of `Ribbon<R>` of src/filter.rs, from any bytes.
use pleat.Common.{
  ℕ, ◌≤◌, ◌≡◌, sym, ap, ◌∙◌, arith, List, ◌++◌, length, All, done, done_inj, Result, ok, ok_inj,
  err, err≢ok, and_then,
}
use pleat.Word.{cast}
use pleat.Banding.{w, from_parts}
use pleat.Format.{
  DecodeError, Header, decode, family_homog, finish, write_header, extend_segments, read_segments,
}
use pleat.Format.Checksum.{IsByte}
use pleat.Format.Decode.{decode-Returns}
use pleat.Format.Canonical.{decode-finish_segments}
use pleat.Filter.Ribbon.{Ribbon, to_bytes, from_bytes}

to_bytes-read :
    (r : ℕ) (bytes : List ℕ) (d : Result DecodeError (Header × List ℕ)) (f : Ribbon)
    → r ≤ 32
    → All IsByte bytes
    → decode bytes family_homog r 8 w ≡ done d
    → and_then d
        (λ d. ok (record { soln = from_parts d.0.num_starts d.0.seed (read_segments 8 d.1) }))
      ≡ ok f
    → to_bytes r f ≡ bytes
unfolding to_bytes and_then
to_bytes-read r bytes (err e) f width all run h = absurd (err≢ok h)
to_bytes-read r bytes (ok a) f width all run h =
    let e : cast 8 r ≡ r = omega arith in
    ap (to_bytes r) (sym (ok_inj h))
    ∙ ap
        (λ k. finish (
          write_header family_homog k a.0.seed a.0.num_starts
            (cast 64 (length (read_segments 8 a.1)))
          ++ extend_segments 8 (read_segments 8 a.1)))
        e
    ∙ decode-finish_segments bytes all family_homog r 8 w (omega arith) a (omega arith)
        (omega arith) run

-- For at most 32 columns, whatever bytes the homogeneous `from_bytes` accepts, `to_bytes` writes
-- the same bytes for the filter that it returns.
pub to_bytes-from_bytes :
    (r : ℕ) (bytes : List ℕ) (f : Ribbon)
    → r ≤ 32
    → All IsByte bytes
    → from_bytes r bytes ≡ done (ok f)
    → to_bytes r f ≡ bytes
unfolding from_bytes
to_bytes-from_bytes r bytes f width all run =
    let e : cast 8 r ≡ r = omega arith in
    let (d, run_d, _) = decode-Returns bytes family_homog r 8 w (omega arith) in
    to_bytes-read r bytes d f width all run_d (done_inj (rw (e, run_d) at run))
