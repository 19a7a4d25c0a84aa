-- ===== src/Split/Conservation.antt =====
-- Nothing of a split stream is lost or created: the allocations sum to the total.
use astroid_api.Common.{
  ℕ, zero, suc, ◌+◌, ◌-◌, ◌*◌, ◌/◌, ◌≤◌, ◌<◌, ◌≡◌, refl, ap, ◌∙◌, String, List, [], ◌∷◌, map, arith,
  inl, inr, ◌==◌, sum, length, All, Bool-cases,
}
use astroid_api.Common.Results.{Result-cases, ok}
use astroid_api.Split.{
  Share, Allocation, Provisional, units, provisional, insert, by_remainder, bump, distribute,
  amount, allocation, allocate, points, checked, calculate,
}

abbrev pub PointsBelow : ℕ → List Provisional → Type 0
PointsBelow n ps = All (λ p. p.index < n) ps

abbrev floors : ℕ → List (String × ℕ) → ℕ
floors total [] = 0
floors total ((r, bps) ∷ rest) = total * bps / 10000 + floors total rest

sum-provisional :
    (total i : ℕ) (l : List (String × ℕ))
    → sum (map amount (provisional total i l)) ≡ floors total l
unfolding provisional
sum-provisional total i [] = refl
sum-provisional total i ((r, bps) ∷ rest) =
    ap (λ k. total * bps / 10000 + k) (sum-provisional total (i + 1) rest)

pub length-provisional :
    (total i : ℕ) (l : List (String × ℕ)) → length (provisional total i l) ≡ length l
unfolding provisional
length-provisional total i [] = refl
length-provisional total i ((r, bps) ∷ rest) = ap suc (length-provisional total (i + 1) rest)

-- The floors fall short of the exact total by less than one unit for each recipient.
floors_bounds :
    (total : ℕ) (l : List (String × ℕ))
    → (floors total l * 10000 ≤ total * sum (map points l))
      × (total * sum (map points l) ≤ floors total l * 10000 + length l * 9999)
floors_bounds total [] = omega arith
floors_bounds total ((r, bps) ∷ rest) =
    let (low, high) = floors_bounds total rest in omega (arith, low, high)

indices_below :
    (total i n : ℕ) (l : List (String × ℕ))
    → i + length l ≤ n
    → PointsBelow n (provisional total i l)
unfolding provisional
indices_below total i n [] h = tt
indices_below total i n ((r, bps) ∷ rest) h =
    (omega arith, indices_below total (i + 1) n rest (omega arith))

insert-PointsBelow :
    (n : ℕ) (p : Provisional) (ps : List Provisional)
    → p.index < n
    → PointsBelow n ps
    → PointsBelow n (insert p ps)
unfolding insert
insert-PointsBelow n p [] h k = (h, tt)
insert-PointsBelow n p (q ∷ qs) h (kq, k) = ground (arith, insert-PointsBelow n p qs h k)

by_remainder-PointsBelow :
    (n : ℕ) (ps : List Provisional) → PointsBelow n ps → PointsBelow n (by_remainder ps)
unfolding by_remainder
by_remainder-PointsBelow n [] h = tt
by_remainder-PointsBelow n (p ∷ ps) (h, k) =
    insert-PointsBelow n p (by_remainder ps) h (by_remainder-PointsBelow n ps k)

length-insert : (p : Provisional) (ps : List Provisional) → length (insert p ps) ≡ suc (length ps)
unfolding insert
length-insert p [] = refl
length-insert p (q ∷ qs) = ground (arith, length-insert p qs)

length-by_remainder : (ps : List Provisional) → length (by_remainder ps) ≡ length ps
unfolding by_remainder
length-by_remainder [] = refl
length-by_remainder (p ∷ ps) = length-insert p (by_remainder ps) ∙ ap suc (length-by_remainder ps)

sum-bump :
    (i : ℕ) (heap : List Provisional)
    → i < length heap
    → sum (map amount (bump i heap)) ≡ sum (map amount heap) + 1
unfolding bump
sum-bump i [] h = absurd (omega arith)
sum-bump zero (p ∷ ps) h = omega arith
sum-bump (suc i) (p ∷ ps) h = omega (arith, sum-bump i ps (omega arith))

pub length-bump : (i : ℕ) (heap : List Provisional) → length (bump i heap) ≡ length heap
unfolding bump
length-bump i [] = refl
length-bump zero (p ∷ ps) = refl
length-bump (suc i) (p ∷ ps) = ap suc (length-bump i ps)

-- The loop hands out the whole dust when there is at most one unit of it for each object.
sum-distribute :
    (refs : List Provisional) (dust : ℕ) (heap : List Provisional)
    → PointsBelow (length heap) refs
    → dust ≤ length refs
    → sum (map amount (distribute refs dust heap)) ≡ sum (map amount heap) + dust
unfolding distribute
sum-distribute [] dust heap h k = omega arith
sum-distribute (p ∷ ps) zero heap h k = omega arith
sum-distribute (p ∷ ps) (suc dust) heap (hp, h) k = omega (
  arith,
  sum-bump p.index heap hp,
  sum-distribute ps dust (bump p.index heap) (rw (length-bump p.index heap) h) (omega arith),
)

pub amounts : List Allocation → List ℕ
amounts l = map (λ a. a.amount_units) l

amounts-allocation : (ps : List Provisional) → amounts (map allocation ps) ≡ map amount ps
unfolding amounts
amounts-allocation [] = refl
amounts-allocation (p ∷ ps) = ap (λ l. p.amount_units ∷ l) (amounts-allocation ps)

allocate-sum :
    (total : ℕ) (l : List (String × ℕ))
    → sum (map points l) ≡ 10000
    → sum (amounts (allocate total l)) ≡ total
unfolding allocate
allocate-sum total l full =
    let ps = provisional total 0 l in
    let dust = total - sum (map amount ps) in
    let (low, high) = floors_bounds total l in
    let floor_sum = sum-provisional total 0 l in
    let len = length-provisional total 0 l in
    let below : PointsBelow (length ps) (by_remainder ps) =
      by_remainder-PointsBelow (length ps) ps
        (indices_below total 0 (length ps) l (omega (arith, len))) in
    let low' : floors total l * 10000 ≤ total * 10000 = rw full at low in
    let high' : total * 10000 ≤ floors total l * 10000 + length l * 9999 = rw full at high in
    let fits : dust ≤ length (by_remainder ps) =
      omega (arith, length-by_remainder ps, len, floor_sum, low', high') in
    ap sum (amounts-allocation (distribute (by_remainder ps) dust ps))
    ∙ sum-distribute (by_remainder ps) dust ps below fits
    ∙ omega (arith, floor_sum, low')

-- A successful call comes from validated shares that sum to 10000 basis points.
pub calculate_inv :
    (total : ℕ) (shares : List Share) {out : List Allocation}
    → calculate (units total) shares ≡ ok out
    → (l : List (String × ℕ)) × (checked shares ≡ ok l)
      × (sum (map points l) ≡ 10000)
      × (out ≡ allocate total l)
unfolding calculate
calculate_inv total [] h = cc
calculate_inv total (s ∷ rest) h = elim (Result-cases (checked (s ∷ rest))) [
  | inl (l, e) ↦ elim (Bool-cases (sum (map points l) == 10000)) [
    | inl full ↦ (l, e, ground (arith, full), ground (arith, e, full))
    | inr short ↦ absurd (ground (arith, e, short))
  ]
  | inr (x, e) ↦ absurd (ground (arith, e))
]

-- The allocations of a successful split sum exactly to the stream's total.
pub calculate-sum :
    (total : ℕ) (shares : List Share) {out : List Allocation}
    → calculate (units total) shares ≡ ok out
    → sum (amounts out) ≡ total
calculate-sum total shares h =
    let (l, _, full, same) = calculate_inv total shares h in rw same (allocate-sum total l full)
