-- ===== src/Common.antt =====
-- The names that the modules of this library share: those of the libraries, passed on, and those of
-- the children on tests, lists, outcomes of a run, results, slices and permutations.
mod Tests
mod Lists
mod Outcome
mod Xor
mod Copy
mod Everywhere
mod Perms
mod Results
mod Slices
pub use Tests.*
pub use Lists.*
pub use Outcome.*
pub use Xor.*
pub use Copy.*
pub use Everywhere.*
pub use Perms.*
unfoldable pub use Results.*
pub use Slices.*
pub use Prim.Native.Nat.{ℕ, zero, suc, ◌+◌, ◌-◌, ◌*◌, ◌/◌, ◌%◌, ◌^◌, ◌≤◌, ◌<◌, min, max}
pub use Prim.Native.Nat.{bit_and, bit_or, bit_xor}
pub use mathlib.Core.Path.{◌≡◌, refl, sym, ap, ap₂, ◌∙◌, subst, fun_ext, ◌≡⟨◌⟩◌, ◌∎}
pub use mathlib.Core.Logic.{◌≢◌, ◌↔◌, ◌⊎◌, inl, inr}
pub use mathlib.Core.Bool.{Bool, true, false, not, ◌&&◌, ◌||◌}
pub use mathlib.Core.Option.{Option, none, some}
pub use mathlib.Core.List.{List, [], ◌∷◌, ◌++◌, map, append-nil, append_assoc, map-append}
pub use native.Mathlib.Omega.{arith}
