-- ===== src/Tests/Prefetch.antt =====
-- The prefetch of src/banding.rs and src/banding128.rs at concrete keys.
use native.Mathlib.Omega.{arith}
use pleat.Common.{ℕ, ◌+◌, ◌*◌, ◌/◌, ◌%◌, ◌==◌, ◌≡◌, refl, if◌then◌else◌, false}
use pleat.Hash.{start, ribbon_hash}
use pleat.Banding.{solve, w}
use pleat.Banding.Back.{column}
use pleat.Banding.Laws.{solve-IsSolution}
use pleat.Banding128.{w128}
use pleat.Prefetch.{prefetch, prefetch_128}
use pleat.Prefetch.Lines.{Loads}
use pleat.Prefetch.Loaded.{prefetch-Loads, prefetch_128-Loads}
use pleat.Tests.{empty_band, empty_band-IsBand, flat, flat-IsSolution}

start_64 : start (ribbon_hash 1 0) 65 ≡ 45
unfolding start ribbon_hash
start_64 = refl

start_128 : start (ribbon_hash 1 0) 129 ≡ 90
unfolding start ribbon_hash
start_128 = refl

prefetch-Loads_example :
    (let st = start (ribbon_hash 1 0) 65 in
      let maybe : ℕ = if st % w == 0 then 0 else 7 in
      Loads 8 3 (st / w * 7 + 6) (prefetch 7 (solve 7 empty_band) 1)
      × Loads 8 3 (st / w * 7 + maybe + 6) (prefetch 7 (solve 7 empty_band) 1))
unfolding solve
prefetch-Loads_example =
    prefetch-Loads 7 (solve 7 empty_band) (column empty_band.coeff_rows)
      (solve-IsSolution 7 2 empty_band empty_band-IsBand refl) 1 3 6 (omega (arith, start_64))
      (omega arith)

prefetch_128-Loads_example :
    (let st = start (ribbon_hash 1 0) 129 in
      let maybe : ℕ = if st % w128 == 0 then 0 else 7 in
      Loads 4 1 (st / w128 * 7 + 6) (prefetch_128 7 flat 1)
      × Loads 4 1 (st / w128 * 7 + maybe + 6) (prefetch_128 7 flat 1))
prefetch_128-Loads_example =
    prefetch_128-Loads 7 flat (λ j i. false) flat-IsSolution 1 1 6 (omega (arith, start_128))
      (omega arith)
