-- ===== src/Fuzz.antt =====
-- The fuzz targets of fuzz/fuzz_targets/*.rs, each as a run that ends, or panics where an assertion
-- of the target fails.
pub mod Laws
use pleat.Common.{
  ℕ, ◌==◌, ltb, if◌then◌else◌, Bool, true, false, ◌||◌, ◌&&◌, List, [], ◌∷◌, length, replicate, Run,
  done, panic, ◌>>=◌, ◌>>◌, assert, Result, ok, err,
}
use pleat.Filter.{BuildError}
use pleat.Filter.Ribbon
use pleat.Filter.Ribbon.{Ribbon}
use pleat.Filter.StdRibbon
use pleat.Filter.StdRibbon.{StdRibbon}

-- What a target does with a filter, if there is one.
unfoldable pub if_ok {ℓ κ} :
    {E : Type ℓ} {A : Type κ} → Result E A → (A → Run (Unit {0})) → Run (Unit {0})
if_ok (ok a) next = next a
if_ok (err e) next = done tt

-- `expect`.
unfoldable pub expect {ℓ κ} : {E : Type ℓ} {A : Type κ} → Result E A → Run A
expect (ok a) = done a
expect (err e) = panic

-- `for &k in &keys { assert!(..) }`.
unfoldable pub contains_all : (ℕ → Run Bool) → List ℕ → Run (Unit {0})
contains_all ask [] = done tt
contains_all ask (k ∷ keys) = ask k >>= λ b. assert b >> contains_all ask keys

-- `==` on byte vectors.
unfoldable pub bytes_eq : List ℕ → List ℕ → Bool
bytes_eq [] [] = true
bytes_eq [] (b ∷ bs) = false
bytes_eq (a ∷ as') [] = false
bytes_eq (a ∷ as') (b ∷ bs) = (a == b) && bytes_eq as' bs

-- A query and a batch query, whose answers are dropped.
unfoldable pub query : (ℕ → Run Bool) → (List ℕ → List Bool → Run (List Bool)) → Run (Unit {0})
query ask batch = do _ ← ask 0; _ ← batch (1 ∷ 2 ∷ 3 ∷ 4 ∷ []) (replicate 4 false); done tt

-- The target `decode`.
unfoldable pub decode : List ℕ → Run (Unit {0})
decode bytes = do
  f ← Ribbon.from_bytes 7 bytes
  if_ok f (λ f. query (Ribbon.contains 7 f) (Ribbon.contains_batch 7 f))
  _ ← Ribbon.from_bytes 10 bytes
  s ← StdRibbon.from_bytes 7 bytes
  if_ok s (λ s. query (StdRibbon.contains 7 s) (StdRibbon.contains_batch 7 s))
  _ ← StdRibbon.from_bytes 8 bytes
  done tt

-- The target `roundtrip`, on a list of keys that it does not skip: each of the two families.
unfoldable pub roundtrip_ribbon : List ℕ → Run (Unit {0})
roundtrip_ribbon keys = do
  f ← Ribbon.from_keys_pleated 7 keys
  decoded ← Ribbon.from_bytes 7 (Ribbon.to_bytes 7 f)
  g ← expect decoded
  contains_all (Ribbon.contains 7 g) keys
  assert (bytes_eq (Ribbon.to_bytes 7 f) (Ribbon.to_bytes 7 g))

unfoldable pub roundtrip_std : List ℕ → Run (Unit {0})
roundtrip_std keys = do
  built ← StdRibbon.from_keys_pleated 7 keys
  if_ok built (λ s. StdRibbon.from_bytes 7 (StdRibbon.to_bytes 7 s) >>= λ decoded.
      expect decoded >>= λ t. contains_all (StdRibbon.contains 7 t) keys)

unfoldable pub roundtrip : List ℕ → Run (Unit {0})
roundtrip keys =
    if (length keys == 0) || ltb 100000 (length keys)
    then done tt
    else roundtrip_ribbon keys >> roundtrip_std keys
