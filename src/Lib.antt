-- ===== src/Lib.antt =====
-- Verification of pleat, a library of ribbon filters (src/*.rs of the repository).
--
-- A ribbon filter is a linear system over GF(2). Each key gives one equation: a row of w
-- coefficients that begins at the key's start slot, and a right-hand side. Banding reduces the
-- equations to a matrix with at most one row for each slot, back-substitution solves it, and a query
-- tests the equation of a key on the solution. The homogeneous family (w = 64) has zero on the right
-- and never fails; the standard family (w = 128) has the bits of a result row and searches for a
-- seed under which the system has a solution. Pleating sorts the keys by windows of slots before
-- banding. A filter is stored as a header, its segments and a checksum.
--
-- The modules:
--   Common           lists over the native numbers, outcomes of a run, results, slices, permutations
--   Word             the operations of Rust's unsigned integers; digits, parities, shifts
--   System           linear systems over GF(2): echelon form, reduction, solutions, uniqueness
--   Hash             src/hash.rs and src/hash128.rs
--   Pleat            `PleatPlan` of src/lib.rs; `fold` is `PleatPlan::pleat`
--   Interleaved      the loops of `back_substitute`, which src/banding.rs and src/banding128.rs
--                    write out for w = 64 and w = 128
--   Banding          src/banding.rs: `Banding` and `Solution`
--   Banding128       src/banding128.rs: `Banding128`, the seed search, `Solution128`
--   Format           src/format.rs
--   Filter           src/filter.rs: sizes and batch queries; Filter.Ribbon and Filter.StdRibbon are
--                    the two public types
--   Tests            the properties at concrete inputs
--
-- Words are native numbers with the wrap-around written out. `usize` has 64 bits. A const parameter
-- `R` is the argument `r` of the operations. A function that can panic returns a `Run`: `done`,
-- `panic`, or `out_of_fuel` for a loop on fuel. The loops of `add` run on one more step than there are
-- slots, which is enough since each step moves up at least one slot; the chunks of a batch run on as
-- many steps as there are keys. A method that changes its object returns the new one. `debug`
-- semantics are taken for the subtraction in `new`, which panics where it would wrap.
--
-- The factors of `overhead` and `overhead128` are the rationals (272 + r) / 256 and (528 + r) / 512.
-- The model computes their products with the number of keys exactly, as the `f64` does while the
-- product with the numerator is below 2 ^ 53. With at most 32 columns that is so for fewer than
-- 2 ^ 44 keys in the homogeneous family and for fewer than 2 ^ 43 keys in the standard family, where
-- the `f64` may round up beyond; hence the bounds on the keys of a build. `check_width`, a check at
-- compile time, is the hypothesis on the number of columns.
--
-- The parallel builds (Filter.Parallel, for src/filter/parallel.rs and `build_std128_parallel`) lend
-- each thread a part of the matrix by `split_at_mut`, and the model bands the parts one after the
-- other, as separate lists. Filter.Parallel.Threads.Shared steps the threads of the homogeneous build
-- in any order instead, an iteration of a loop at a time, on one matrix of which each has a range.
-- Filter.Parallel.Threads has such threads with their rows to themselves, to which
-- Filter.Parallel.Threads.Simulate relates the former. The inner loop of a thread runs on one more
-- step than its slice has slots.
--
-- Prefetch has the segments that the two `prefetch` touch, Fuzz the two targets of
-- fuzz/fuzz_targets, and Fingerprint the two `solution_fnv`.
--
-- Not modelled: `prefetch_read`, which only hints to the processor, diagnostics in `f64`, `Debug` and
-- `Display`, the unit tests, and the hash behind `hash_key`, which is a parameter. Allocation does not
-- fail.
pub mod Common
pub mod Word
pub mod System
pub mod Tests
pub mod Hash
pub mod Interleaved
pub mod Pleat
pub mod Banding
pub mod Filter
pub mod Format
pub mod Fuzz
pub mod Fingerprint
pub mod Prefetch
pub mod Banding128
