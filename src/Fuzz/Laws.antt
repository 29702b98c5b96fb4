-- ===== src/Fuzz/Laws.antt =====
-- What the fuzz targets of fuzz/fuzz_targets/*.rs end in.
use pleat.Common.{
  ℕ, ◌^◌, ◌<◌, ◌≡◌, refl, sym, ◌∙◌, arith, ◌==◌, ==_iff, ltb, Bool, Bool-cases, true, false, ◌||◌,
  inl, inr, List, [], ◌∷◌, length, replicate, map, All, All-always, Run, done, done_inj, Result, ok,
  err, OnOk, Returns,
}
use pleat.Filter
use pleat.Filter.{BuildError, default_window_shift}
use pleat.Filter.Batch.{contains_batch-map}
use pleat.Filter.Ribbon
use pleat.Filter.Ribbon.{Ribbon}
use pleat.Filter.Ribbon.Laws.{from_keys_seeded-contains, from_keys_pleated_seeded-eq}
use pleat.Filter.Ribbon.Store.{from_bytes-Returns, from_keys_seeded-from_bytes}
use pleat.Filter.StdRibbon
use pleat.Filter.StdRibbon.{StdRibbon}
use pleat.Filter.StdRibbon.Laws.{from_keys_pleated-eq, from_keys-Built}
use pleat.Filter.StdRibbon.Store.{from_bytes-Returns_std, from_keys-from_bytes}
use pleat.Fuzz.{
  if_ok, expect, contains_all, bytes_eq, query, decode, roundtrip_ribbon, roundtrip_std, roundtrip,
}

if_ok-done {ℓ κ} :
    {E : Type ℓ} {A : Type κ} (m : Result E A) (next : A → Run (Unit {0}))
    → OnOk (λ a. next a ≡ done tt) m
    → if_ok m next ≡ done tt
unfolding if_ok OnOk
if_ok-done (ok a) next h = h
if_ok-done (err e) next h = refl

OnOk-map {ℓ κ μ ν} :
    {E : Type ℓ} {A : Type κ} {P : A → Type μ} {Q : A → Type ν} (m : Result E A)
    → ((a : A) → P a → Q a)
    → OnOk P m
    → OnOk Q m
unfolding OnOk
OnOk-map (ok a) f h = f a h
OnOk-map (err e) f h = tt

-- Queries that return answers return them in a batch too.
query-done :
    (ask : ℕ → Run Bool)
    → ((key : ℕ) → Returns (λ (b : Bool). Unit {0}) (ask key))
    → query ask (Filter.contains_batch ask) ≡ done tt
unfolding query
query-done ask h =
    let batch : Filter.contains_batch ask (1 ∷ 2 ∷ 3 ∷ 4 ∷ []) (replicate 4 false)
        ≡ done (map (λ k. (h k).0) (1 ∷ 2 ∷ 3 ∷ 4 ∷ [])) =
      contains_batch-map ask (λ k. (h k).0) (1 ∷ 2 ∷ 3 ∷ 4 ∷ []) (replicate 4 false) refl
        (All-always (1 ∷ 2 ∷ 3 ∷ 4 ∷ []) (λ k. (h k).1)) in
    rw ((h 0).1, batch) refl

-- On any bytes the fuzz target `decode` ends without a panic: the decoders of both families
-- return, and a filter that they accept answers a query and a batch query.
pub fuzz_decode-done : (bytes : List ℕ) → decode bytes ≡ done tt
unfolding decode Ribbon.contains_batch StdRibbon.contains_batch
fuzz_decode-done bytes =
    let (f, run, h) = from_bytes-Returns 7 (omega arith) bytes in
    let (f', run', h') = from_bytes-Returns 10 (omega arith) bytes in
    let (s, run_s, hs) = from_bytes-Returns_std 7 (omega arith) bytes in
    let (s', run_s', hs') = from_bytes-Returns_std 8 (omega arith) bytes in
    let first : if_ok f
          (λ f. query (Ribbon.contains 7 f) (Filter.contains_batch (Ribbon.contains 7 f)))
        ≡ done tt =
      if_ok-done f _ (OnOk-map f (λ a k. query-done (Ribbon.contains 7 a) k) h) in
    let second : if_ok s
          (λ s. query (StdRibbon.contains 7 s) (Filter.contains_batch (StdRibbon.contains 7 s)))
        ≡ done tt =
      if_ok-done s _ (OnOk-map s (λ a k. query-done (StdRibbon.contains 7 a) k) hs) in
    rw (run, first, run', run_s, second, run_s') refl

contains_all-done :
    (ask : ℕ → Run Bool) (keys : List ℕ)
    → All (λ k. ask k ≡ done true) keys
    → contains_all ask keys ≡ done tt
unfolding contains_all
contains_all-done ask [] h = refl
contains_all-done ask (k ∷ keys) h = rw (h.0, contains_all-done ask keys h.1) refl

bytes_eq_self : (bs : List ℕ) → bytes_eq bs bs ≡ true
unfolding bytes_eq
bytes_eq_self [] = refl
bytes_eq_self (b ∷ bs) = rw ((==_iff b b).1 refl) (bytes_eq_self bs)

roundtrip_ribbon-done : (keys : List ℕ) → length keys < 2 ^ 44 → roundtrip_ribbon keys ≡ done tt
unfolding roundtrip_ribbon expect Ribbon.from_keys_pleated
roundtrip_ribbon-done keys few =
    let (f, run, all) = from_keys_seeded-contains 7 (omega arith) keys 0 few in
    let (g, run', back) = from_keys_seeded-from_bytes 7 (omega arith) keys 0 few (omega arith) in
    let same : Ribbon.from_keys_pleated_seeded 7 keys 0 default_window_shift ≡ done f =
      from_keys_pleated_seeded-eq 7 (omega arith) keys 0 default_window_shift few (omega arith)
      ∙ run in
    let e : g ≡ f = done_inj (sym run' ∙ run) in
    rw
      (
        same,
        rw e at back,
        contains_all-done (Ribbon.contains 7 f) keys all,
        bytes_eq_self (Ribbon.to_bytes 7 f),
      )
      refl

roundtrip_std-done : (keys : List ℕ) → length keys < 2 ^ 43 → roundtrip_std keys ≡ done tt
unfolding roundtrip_std if_ok expect OnOk StdRibbon.contains
roundtrip_std-done keys few =
    let (out, run, h) = from_keys-Built 7 (omega arith) keys few in
    let (out', run', back) = from_keys-from_bytes 7 (omega arith) keys few in
    let same : StdRibbon.from_keys_pleated 7 keys ≡ done out =
      from_keys_pleated-eq 7 (omega arith) keys few ∙ run in
    let e : out' ≡ out = done_inj (sym run' ∙ run) in
    let read : OnOk (λ f. StdRibbon.from_bytes 7 (StdRibbon.to_bytes 7 f) ≡ done (ok f)) out =
      rw e at back in
    elim h [
      | inl (bad, u) ↦ rw (same, bad) refl
      | inr (f, good, t) ↦
          let read_f : StdRibbon.from_bytes 7 (StdRibbon.to_bytes 7 f) ≡ done (ok f) =
            rw good at read in
          rw (same, good, read_f) (contains_all-done (StdRibbon.contains 7 f) keys t.answers)
    ]

-- On any keys the fuzz target `roundtrip` ends without a panic: neither family misses a key after
-- `to_bytes` and `from_bytes`, and the bytes of the homogeneous filter are stable.
pub fuzz_roundtrip-done : (keys : List ℕ) → roundtrip keys ≡ done tt
unfolding roundtrip
fuzz_roundtrip-done keys = elim (Bool-cases ((length keys == 0) || ltb 100000 (length keys))) [
  | inl e ↦ rw e refl
  | inr e ↦
      let few : length keys < 2 ^ 43 = ground arith in
      rw (e, roundtrip_ribbon-done keys (omega arith)) (roundtrip_std-done keys few)
]
