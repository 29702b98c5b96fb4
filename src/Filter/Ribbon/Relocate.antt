-- ===== src/Filter/Ribbon/Relocate.antt =====
-- `Ribbon::relocate_storage` of src/filter.rs.
use native.Mathlib.Decide.{ℕ_discrete}
use pleat.Common.{
  ℕ, ◌==◌, ◌≡◌, ◌≢◌, refl, ◌∙◌, arith, Bool, true, false, ◌⊎◌, inl, inr, List, length, done, panic,
  Returns,
}
use pleat.Interleaved.Agree.{none_from}
use pleat.Banding
use pleat.Banding.Query.{IsSolution, fails, contains-none_from}
use pleat.Filter.Ribbon.{Ribbon, contains, relocate_storage}
use pleat.Filter.Ribbon.Store.{held, held-Stores}

-- For any function on storages, relocating the storage of a homogeneous filter of whole blocks
-- either returns a filter with what the function gives as its segments, on which a query returns
-- without a panic for every key, or panics, the latter exactly if the function changes the
-- length.
pub relocate_storage-contains :
    (r : ℕ) (f : Ribbon) (x : ℕ → ℕ → Bool) (relocate : List ℕ → List ℕ)
    → IsSolution r f.soln x
    → ((length (relocate f.soln.segments) ≡ length f.soln.segments)
        × (f' : Ribbon) × (relocate_storage relocate f ≡ done f')
        × (f'.soln.segments ≡ relocate f.soln.segments)
        × ((key : ℕ) → Returns (λ (b : Bool). Unit {0}) (contains r f' key)))
      ⊎ ((length (relocate f.soln.segments) ≢ length f.soln.segments)
          × (relocate_storage relocate f ≡ panic))
unfolding relocate_storage Banding.relocate_storage contains
relocate_storage-contains r f x relocate v =
    let moved : List ℕ = relocate f.soln.segments in
    elim (ℕ_discrete (length moved) (length f.soln.segments)) [
      | no ne ↦
          let e : (length moved == length f.soln.segments) ≡ false = ground (arith, ne) in
          inr (ne, rw e refl)
      | yes same ↦
          let e : (length moved == length f.soln.segments) ≡ true = ground (arith, same) in
          let s : Banding.Solution = record f.soln { segments = moved } in
          let v' : IsSolution r s (held r moved) = record {
            blocks = v.blocks;
            starts = v.starts;
            starts_u64 = v.starts_u64;
            slots = v.slots;
            words = same ∙ v.words;
            stores = held-Stores r v.blocks moved;
          } in
          inl (
            same,
            record { soln = s },
            rw e refl,
            refl,
            λ key. (
              none_from (fails s (held r moved) key) 0 r,
              contains-none_from r s (held r moved) v' key,
              tt,
            ),
          )
    ]
