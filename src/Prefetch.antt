-- ===== src/Prefetch.antt =====
-- `Solution::prefetch` of src/banding.rs and `Solution128::prefetch` of src/banding128.rs: which
-- segments they touch. `prefetch_read` of src/lib.rs changes nothing, so a prefetch is the list of
-- its addresses.
pub mod Lines
pub mod Loaded
use pleat.Common.{ℕ, zero, suc, ◌+◌, ◌-◌, ◌*◌, ◌/◌, ltb, if◌then◌else◌, List, [], ◌∷◌, ◌++◌, length}
use pleat.Hash.{ribbon_hash, start}
use pleat.Banding.{Solution, w}
use pleat.Banding128.{Solution128, w128}

-- `(i..last).step_by(line)`, on fuel for the segments from `i` to `last`.
unfoldable pub step_by : ℕ → ℕ → ℕ → ℕ → List ℕ
step_by line zero i last = []
step_by line (suc fuel) i last =
    let rest = step_by line fuel (i + line) last in if ltb i last then i ∷ rest else []

-- Those that `segments.get(i)` finds.
unfoldable pub touch : ℕ → List ℕ → List ℕ
touch len [] = []
touch len (i ∷ indices) = let rest = touch len indices in if ltb i len then i ∷ rest else rest

unfoldable pub prefetch : ℕ → Solution → ℕ → List ℕ
prefetch r s key =
    let seg = start (ribbon_hash key s.raw_seed) s.num_starts / w * r in
    let last = seg + 2 * r - 1 in
    touch (length s.segments) (step_by 8 (2 * r) seg last ++ (last ∷ []))

unfoldable pub prefetch_128 : ℕ → Solution128 → ℕ → List ℕ
prefetch_128 r s key =
    let seg = start (ribbon_hash key s.raw_seed) s.num_starts / w128 * r in
    let last = seg + 2 * r - 1 in
    touch (length s.segments) (step_by 4 (2 * r) seg last ++ (last ∷ []))
