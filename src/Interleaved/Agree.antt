-- ===== src/Interleaved/Agree.antt =====
-- The early return of a query, column by column, and the columns as a whole.
use native.Mathlib.Decide.{ℕ_discrete}
use pleat.Common.{
  refl, ℕ, zero, suc, ◌+◌, ◌≤◌, ◌<◌, ◌≡◌, ◌↔◌, arith, Bool, true, false, if◌then◌else◌,
}

-- No column from `i` on, of the next `n`, fails the test.
unfoldable pub none_from : (ℕ → Bool) → ℕ → ℕ → Bool
none_from fails i zero = true
none_from fails i (suc n) = if fails i then false else none_from fails (suc i) n

none_from-all :
    (fails : ℕ → Bool) (i n j : ℕ)
    → none_from fails i n ≡ true
    → i ≤ j
    → j < i + n
    → fails j ≡ false
unfolding none_from
none_from-all fails i zero j h p q = absurd (omega arith)
none_from-all fails i (suc n) j h p q = elim (ℕ_discrete i j) [
  | yes e ↦ rw (← e) (ground arith)
  | no ne ↦ none_from-all fails (suc i) n j (ground arith) (omega arith) (omega arith)
]

all-none_from :
    (fails : ℕ → Bool) (i n : ℕ)
    → ((j : ℕ) → i ≤ j → j < i + n → fails j ≡ false)
    → none_from fails i n ≡ true
unfolding none_from
all-none_from fails i zero h = refl
all-none_from fails i (suc n) h =
    rw (h i (omega arith) (omega arith))
      (all-none_from fails (suc i) n (λ j p q. h j (omega arith) (omega arith)))

pub none_from_iff :
    (fails : ℕ → Bool) (n : ℕ) → (none_from fails 0 n ≡ true) ↔ ((j : ℕ) → j < n → fails j ≡ false)
none_from_iff fails n = (
  λ h j p. none_from-all fails 0 n j h (omega arith) (omega arith),
  λ h. all-none_from fails 0 n (λ j p q. h j (omega arith)),
)
