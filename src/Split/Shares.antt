-- ===== src/Split/Shares.antt =====
-- How a split treats each recipient: the floor of the exact share, or one unit more, and the units
-- left over go to the largest remainders.
use astroid_api.Common.Results.{ok}
use astroid_api.Common.{
  ℕ, zero, suc, ◌+◌, ◌-◌, ◌*◌, ◌/◌, ◌≤◌, ◌<◌, String, ◌≡◌, refl, ap, ◌∙◌, Bool, List, [], ◌∷◌, map,
  arith, ◌==◌, if◌then◌else◌, length, sum,
}
use astroid_api.Split.Conservation.{calculate_inv}
use astroid_api.Split.{
  amount, checked, units, calculate, Share, allocate, allocation, Allocation, Provisional,
  provisional, insert, by_remainder, bump, distribute,
}

abbrev pub one_if : Bool → ℕ
one_if b = if b then 1 else 0

-- How many of the references name the object at position `i`, and how many of the first `d` do.
unfoldable pub mentions : ℕ → List Provisional → ℕ
mentions i [] = 0
mentions i (p ∷ ps) = one_if (p.index == i) + mentions i ps

unfoldable pub handed : ℕ → List Provisional → ℕ → ℕ
handed i [] d = 0
handed i (p ∷ ps) zero = 0
handed i (p ∷ ps) (suc d) = one_if (p.index == i) + handed i ps d

handed-le-mentions : (i : ℕ) (ps : List Provisional) (d : ℕ) → handed i ps d ≤ mentions i ps
unfolding handed mentions
handed-le-mentions i [] d = omega arith
handed-le-mentions i (p ∷ ps) zero = omega arith
handed-le-mentions i (p ∷ ps) (suc d) = ground (arith, handed-le-mentions i ps d)

mentions-insert :
    (i : ℕ) (p : Provisional) (ps : List Provisional)
    → mentions i (insert p ps) ≡ mentions i (p ∷ ps)
unfolding mentions insert
mentions-insert i p [] = refl
mentions-insert i p (q ∷ qs) = ground (arith, mentions-insert i p qs)

mentions-cons :
    (i : ℕ) (p : Provisional) (ps qs : List Provisional)
    → mentions i ps ≡ mentions i qs
    → mentions i (p ∷ ps) ≡ mentions i (p ∷ qs)
unfolding mentions
mentions-cons i p ps qs h = ap (λ n. one_if (p.index == i) + n) h

pub mentions-by_remainder :
    (i : ℕ) (ps : List Provisional) → mentions i (by_remainder ps) ≡ mentions i ps
unfolding by_remainder
mentions-by_remainder i [] = refl
mentions-by_remainder i (p ∷ ps) =
    mentions-insert i p (by_remainder ps)
    ∙ mentions-cons i p (by_remainder ps) ps (mentions-by_remainder i ps)

mentions_early :
    (total i k : ℕ) (l : List (String × ℕ)) → i < k → mentions i (provisional total k l) ≡ 0
unfolding mentions provisional
mentions_early total i k [] h = refl
mentions_early total i k ((r, b) ∷ l) h = ground (arith, mentions_early total i (k + 1) l)

mentions_once : (total i k : ℕ) (l : List (String × ℕ)) → mentions i (provisional total k l) ≤ 1
unfolding mentions provisional
mentions_once total i k [] = omega arith
mentions_once total i k ((r, b) ∷ l) =
    ground (arith, mentions_once total i (k + 1) l, mentions_early total i (k + 1) l)

pub mentions_there :
    (total i k : ℕ) (l : List (String × ℕ))
    → k ≤ i
    → i < k + length l
    → mentions i (provisional total k l) ≡ 1
unfolding mentions provisional
mentions_there total i k [] h lt = absurd (omega arith)
mentions_there total i k ((r, b) ∷ l) h lt =
    ground (arith, mentions_there total i (k + 1) l, mentions_early total i (k + 1) l)

-- `heap'` is `heap` with `c k` units added at each position `k`, counted from `i`.
abbrev pub Grown : (ℕ → ℕ) → ℕ → List Provisional → List Provisional → Type 0
Grown c i [] [] = Unit
Grown c i [] (q ∷ qs) = ⊥
Grown c i (p ∷ ps) [] = ⊥
Grown c i (p ∷ ps) (q ∷ qs) =
    (q.recipient ≡ p.recipient)
    × (q.basis_points ≡ p.basis_points)
    × (q.amount_units ≡ p.amount_units + c i)
    × Grown c (i + 1) ps qs

Grown-refl :
    (c : ℕ → ℕ) (i : ℕ) (ps : List Provisional) → ((k : ℕ) → i ≤ k → c k ≡ 0) → Grown c i ps ps
Grown-refl c i [] h = tt
Grown-refl c i (p ∷ ps) h = (
  refl,
  refl,
  omega (arith, h i (omega arith)),
  Grown-refl c (i + 1) ps (λ k le. h k (omega arith)),
)

-- A write at position `j - i`, then the growth of the rest of the loop.
Grown-bump :
    (c d : ℕ → ℕ) (i j : ℕ) (ps qs : List Provisional)
    → ((k : ℕ) → d k ≡ one_if (i + j == k) + c k)
    → Grown c i (bump j ps) qs
    → Grown d i ps qs
unfolding bump
Grown-bump c d i j [] [] h g = tt
Grown-bump c d i j [] (q ∷ qs) h g = absurd g
Grown-bump c d i zero (p ∷ ps) (q ∷ qs) h (r, b, a, g) =
    (r, b, ground (arith, h i), Grown-weaken (i + 1) ps qs (λ k le. ground (arith, h k)) g)
  where
    Grown-weaken :
        (m : ℕ) (ps qs : List Provisional)
        → ((k : ℕ) → m ≤ k → d k ≡ c k)
        → Grown c m ps qs
        → Grown d m ps qs
    Grown-weaken m [] [] e g = tt
    Grown-weaken m [] (q ∷ qs) e g = absurd g
    Grown-weaken m (p ∷ ps) [] e g = absurd g
    Grown-weaken m (p ∷ ps) (q ∷ qs) e (r, b, a, g) = (
      r,
      b,
      omega (arith, e m (omega arith)),
      Grown-weaken (m + 1) ps qs (λ k le. e k (omega arith)) g,
    )
Grown-bump c d i zero (p ∷ ps) [] h g = absurd g
Grown-bump c d i (suc j) (p ∷ ps) (q ∷ qs) h (r, b, a, g) =
    (r, b, ground (arith, h i), Grown-bump c d (i + 1) j ps qs (λ k. ground (arith, h k)) g)
Grown-bump c d i (suc j) (p ∷ ps) [] h g = absurd g

pub Grown-distribute :
    (refs : List Provisional) (dust : ℕ) (heap : List Provisional)
    → Grown (λ i. handed i refs dust) 0 heap (distribute refs dust heap)
unfolding distribute handed
Grown-distribute [] dust heap = Grown-refl (λ i. 0) 0 heap (λ k le. refl)
Grown-distribute (p ∷ ps) zero heap = Grown-refl (λ i. 0) 0 heap (λ k le. refl)
Grown-distribute (p ∷ ps) (suc dust) heap =
    Grown-bump (λ i. handed i ps dust) (λ i. handed i (p ∷ ps) (suc dust)) 0 p.index heap
      (distribute ps dust (bump p.index heap)) (λ k. ground arith)
      (Grown-distribute ps dust (bump p.index heap))

-- One allocation for each validated share, in order, of its floor or of one unit more.
abbrev pub IsSplitOf : ℕ → List (String × ℕ) → List Allocation → Type 0
IsSplitOf total [] [] = Unit
IsSplitOf total [] (a ∷ out) = ⊥
IsSplitOf total (s ∷ l) [] = ⊥
IsSplitOf total ((r, b) ∷ l) (a ∷ out) =
    (a.recipient ≡ r)
    × (a.basis_points ≡ b)
    × (total * b / 10000 ≤ a.amount_units)
    × (a.amount_units ≤ total * b / 10000 + 1)
    × IsSplitOf total l out

Grown-IsSplitOf :
    (total i : ℕ) (c : ℕ → ℕ) (l : List (String × ℕ)) (heap : List Provisional)
    → ((k : ℕ) → c k ≤ 1)
    → Grown c i (provisional total i l) heap
    → IsSplitOf total l (map allocation heap)
unfolding provisional
Grown-IsSplitOf total i c [] [] h g = tt
Grown-IsSplitOf total i c [] (q ∷ qs) h g = absurd g
Grown-IsSplitOf total i c ((r, b) ∷ l) [] h g = absurd g
Grown-IsSplitOf total i c ((r, b) ∷ l) (q ∷ qs) h (same_r, same_b, a, g) = (
  same_r,
  same_b,
  omega (arith, h i),
  omega (arith, h i),
  Grown-IsSplitOf total (i + 1) c l qs h g,
)

pub handed-le-one :
    (total : ℕ) (l : List (String × ℕ)) (d k : ℕ)
    → handed k (by_remainder (provisional total 0 l)) d ≤ 1
handed-le-one total l d k = omega (
  arith,
  handed-le-mentions k (by_remainder (provisional total 0 l)) d,
  mentions-by_remainder k (provisional total 0 l),
  mentions_once total k 0 l,
)

-- A successful split lists the recipients in the order given, each with its own basis points and
-- with the floor of its exact share or one unit more.
calculate-IsSplitOf :
    (total : ℕ) (shares : List Share) {out : List Allocation}
    → calculate (units total) shares ≡ ok out
    → (l : List (String × ℕ)) × (checked shares ≡ ok l) × IsSplitOf total l out
unfolding allocate
calculate-IsSplitOf total shares h =
    let (l, valid, _, same) = calculate_inv total shares h in
    let ps = provisional total 0 l in
    let dust = total - sum (map amount ps) in
    (
      l,
      valid,
      rw same (
          Grown-IsSplitOf total 0 (λ i. handed i (by_remainder ps) dust) l
            (distribute (by_remainder ps) dust ps) (handed-le-one total l dust)
            (Grown-distribute (by_remainder ps) dust ps)),
    )
