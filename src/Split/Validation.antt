-- ===== src/Split/Validation.antt =====
-- Which inputs a split accepts.
use astroid_api.Common.{
  ℕ, zero, suc, ◌<◌, String, ◌≡◌, refl, ◌≢◌, ◌⊎◌, inl, inr, List, [], ◌∷◌, map, arith, All, sum,
}
use astroid_api.Common.Results.{Result-cases, ok, err}
use astroid_api.Split.{
  Share, Allocation, BigInt, units, negative, Number, int, below, other, bad_basis_points, allocate,
  checked, checked_points, calculate, points,
}

abbrev pub share_of : String × ℕ → Share
share_of (r, b) = record { recipient = r; basis_points = int b }

checked_complete : (l : List (String × ℕ)) → All (λ s. 0 < s.1) l → checked (map share_of l) ≡ ok l
unfolding checked checked_points
checked_complete [] h = refl
checked_complete ((r, zero) ∷ l) (h, k) = absurd (omega arith)
checked_complete ((r, suc b) ∷ l) (h, k) = rw (checked_complete l k)

-- Any recipients with positive integer basis points that sum to 10000 are accepted, at any
-- non-negative total, and are allocated in one pass.
calculate_complete :
    (total : ℕ) (l : List (String × ℕ))
    → All (λ s. 0 < s.1) l
    → sum (map points l) ≡ 10000
    → calculate (units total) (map share_of l) ≡ ok (allocate total l)
unfolding calculate
calculate_complete total [] h full = absurd (omega arith)
calculate_complete total (s ∷ l) h full = rw (checked_complete (s ∷ l) h) (rw full refl)

-- Positive integer basis points.
abbrev pub IsPositive : Number → Type 0
IsPositive (int zero) = ⊥
IsPositive (int (suc n)) = Unit
IsPositive _ = ⊥

checked_points-IsPositive : (n : Number) → IsPositive n ⊎ (checked_points n ≡ err bad_basis_points)
unfolding checked_points
checked_points-IsPositive (int zero) = inr refl
checked_points-IsPositive (int (suc n)) = inl tt
checked_points-IsPositive (below n) = inr refl
checked_points-IsPositive other = inr refl

checked_sound :
    (shares : List Share) {l : List (String × ℕ)}
    → checked shares ≡ ok l
    → All (λ s. IsPositive s.basis_points) shares
unfolding checked
checked_sound [] h = tt
checked_sound (s ∷ rest) h = elim (Result-cases (checked rest)) [
  | inl (l, e) ↦ elim (checked_points-IsPositive s.basis_points) [
    | inl good ↦ (good, checked_sound rest e)
    | inr bad ↦ absurd (ground (arith, bad))
  ]
  | inr (x, e) ↦ absurd (ground (arith, e))
]

-- A split that succeeds had a non-negative total, and positive integer basis points throughout.
pub calculate_sound :
    (total : BigInt) (shares : List Share) {out : List Allocation}
    → calculate total shares ≡ ok out
    → ((n : ℕ) × (total ≡ units n)) × (shares ≢ []) × All (λ s. IsPositive s.basis_points) shares
unfolding calculate
calculate_sound (negative n) shares h = cc
calculate_sound (units n) [] h = cc
calculate_sound (units n) (s ∷ rest) h = elim (Result-cases (checked (s ∷ rest))) [
  | inl (l, e) ↦ ((n, refl), (λ p. cc), checked_sound (s ∷ rest) e)
  | inr (x, e) ↦ absurd (ground (arith, e))
]
