-- ===== src/Filter/Slots.antt =====
-- The numbers of slots of src/filter.rs and src/banding128.rs.
use pleat.Common.{ℕ, ◌+◌, ◌*◌, ◌%◌, ◌^◌, ◌≤◌, ◌<◌, ◌≡◌, arith}
use pleat.Filter.{num_slots_for, num_slots_for_128}

module _ (n r : ℕ) where
  pub num_slots_for_blocks : num_slots_for n r % 64 ≡ 0
  unfolding num_slots_for
  num_slots_for_blocks = ground arith

  -- For at most 32 columns and fewer than 2 ^ 44 keys, the homogeneous filter has at least two
  -- blocks and at least a slot for each key, and fewer than 2 ^ 46 slots.
  pub num_slots_for_bounds :
      r ≤ 32
      → n < 2 ^ 44
      → (128 ≤ num_slots_for n r) × (n ≤ num_slots_for n r) × (num_slots_for n r < 2 ^ 46)
  unfolding num_slots_for
  num_slots_for_bounds hr hn =
      let p : n * r ≤ n * 32 = grind arith in (ground arith, ground arith, ground arith)

  pub num_slots_for_128_blocks : num_slots_for_128 n r % 128 ≡ 0
  unfolding num_slots_for_128
  num_slots_for_128_blocks = ground arith

  -- For at most 32 columns and fewer than 2 ^ 43 keys, the product that the slot count rounds is
  -- below 2 ^ 53 before its division by 512, so that an `f64` holds it, and the standard filter
  -- has at least two blocks and at least a slot for each key, and fewer than 2 ^ 46 slots.
  pub num_slots_for_128_bounds :
      r ≤ 32
      → n < 2 ^ 43
      → ((528 + r) * n < 2 ^ 53)
        × (256 ≤ num_slots_for_128 n r)
        × (n ≤ num_slots_for_128 n r)
        × (num_slots_for_128 n r < 2 ^ 46)
  unfolding num_slots_for_128
  num_slots_for_128_bounds hr hn =
      let p : n * r ≤ n * 32 = grind arith in
      let exact : (528 + r) * n < 2 ^ 53 = grind arith in
      (exact, ground arith, ground arith, ground arith)
