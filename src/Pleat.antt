-- ===== src/Pleat.antt =====
-- `PleatPlan` of src/lib.rs: one counting pass that folds a stream of keys into the order of the
-- table's windows.
pub mod Windows
pub mod Count
pub mod Scatter
pub mod Order
use pleat.Common.{
  ℕ, zero, suc, ◌+◌, ◌/◌, ◌^◌, ◌==◌, ltb, List, [], ◌∷◌, length, get_elem?, set, replicate, take,
  Run, done, ◌>>=◌, ◌>>◌, assert, unwrap,
}
use pleat.Word.{shr}

pub record PleatPlan : Type 0 where
  pub num_starts : ℕ
  pub shift : ℕ

-- `usize::BITS` of a 64-bit target.
abbrev pub usize_bits : ℕ
usize_bits = 64

unfoldable pub new : ℕ → ℕ → Run PleatPlan
new num_starts shift = do
  assert (ltb shift usize_bits)
  done (record { num_starts = num_starts; shift = shift })

unfoldable pub num_windows : PleatPlan → ℕ
num_windows plan = shr plan.num_starts plan.shift + 2

-- `counts[w] += n`.
abbrev pub bump : List ℕ → ℕ → ℕ → Run (List ℕ)
bump counts w n = do c ← unwrap (get_elem? counts w); done (set counts w (c + n))

module _ (window : ℕ → ℕ) where
  -- `for &k in keys { counts[window(k) + 1] += 1; }`.
  unfoldable pub count_loop : List ℕ → List ℕ → Run (List ℕ)
  count_loop [] counts = done counts
  count_loop (k ∷ keys) counts = bump counts (window k + 1) 1 >>= λ counts'. count_loop keys counts'

  -- `out[cursor[w]] = k; cursor[w] += 1;` for each key.
  unfoldable pub scatter_loop : List ℕ → List ℕ → List ℕ → Run (List ℕ)
  scatter_loop [] cursor out = done out
  scatter_loop (k ∷ keys) cursor out = do
    let w = window k
    at ← unwrap (get_elem? cursor w)
    assert (ltb at (length out))
    scatter_loop keys (set cursor w (at + 1)) (set out at k)

-- `for w in w..w + n { counts[w] += counts[w - 1]; }`, with `p` for `w - 1`.
unfoldable pub prefix_loop : ℕ → ℕ → List ℕ → Run (List ℕ)
prefix_loop zero p counts = done counts
prefix_loop (suc n) p counts = do
  c ← unwrap (get_elem? counts p)
  counts' ← bump counts (suc p) c
  prefix_loop n (suc p) counts'

-- The permuted keys and the offsets of the windows; `start_of` is the caller's closure.
unfoldable pub pleat_into : PleatPlan → List ℕ → (ℕ → ℕ) → List ℕ → Run (List ℕ × List ℕ)
pleat_into plan keys start_of out = do
  assert (length keys == length out)
  let nw = num_windows plan
  let window = λ (k : ℕ). shr (start_of k) plan.shift
  counts ← count_loop window keys (replicate (nw + 1) 0)
  offsets ← prefix_loop nw 0 counts
  ordered ← scatter_loop window keys (take nw offsets) out
  done (ordered, offsets)

unfoldable pub fold : PleatPlan → List ℕ → (ℕ → ℕ) → Run (List ℕ × List ℕ)
fold plan keys start_of = pleat_into plan keys start_of (replicate (length keys) 0)
