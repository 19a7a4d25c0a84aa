-- ===== src/Split/Remainders.antt =====
-- The units that rounding leaves over go to the recipients with the largest remainders.
use astroid_api.Common.{
  ℕ, zero, suc, ◌+◌, ◌-◌, ◌*◌, ◌/◌, ◌%◌, ◌≤◌, ◌<◌, String, ◌≡◌, refl, sym, ap, ◌∙◌, inl, inr, true,
  false, some, List, [], ◌∷◌, map, arith, ◌==◌, Bool-cases, length, get_elem?, All, sum,
}
use astroid_api.Common.Results.{ok}
use astroid_api.Split.{
  Share, Allocation, Provisional, units, provisional, comes_before, insert, by_remainder,
  distribute, allocation, allocate, amount, calculate,
}
use astroid_api.Split.Conservation.{calculate_inv}
use astroid_api.Split.Shares.{
  mentions, handed, Grown, Grown-distribute, mentions-by_remainder, mentions_there,
}

-- Ordered by falling remainder.
abbrev IsFalling : List Provisional → Type 0
IsFalling [] = Unit
IsFalling (p ∷ ps) = All (λ q. q.remainder ≤ p.remainder) ps × IsFalling ps

All-insert :
    (P : Provisional → Type 0) (p : Provisional) (ps : List Provisional)
    → P p
    → All P ps
    → All P (insert p ps)
unfolding insert
All-insert P p [] h k = (h, tt)
All-insert P p (q ∷ qs) h (kq, k) = elim (Bool-cases (comes_before q p)) [
  | inl e ↦ rw e (kq, All-insert P p qs h k)
  | inr e ↦ rw e (h, (kq, k))
]

All-weaken :
    (m n : ℕ) (ps : List Provisional)
    → m ≤ n
    → All (λ q. q.remainder ≤ m) ps
    → All (λ q. q.remainder ≤ n) ps
All-weaken m n [] h k = tt
All-weaken m n (p ∷ ps) h (kp, k) = (omega arith, All-weaken m n ps h k)

comes_before_le : (a b : Provisional) → comes_before a b ≡ true → b.remainder ≤ a.remainder
unfolding comes_before
comes_before_le a b h = ground arith

not_before_le : (a b : Provisional) → comes_before a b ≡ false → a.remainder ≤ b.remainder
unfolding comes_before
not_before_le a b h = ground arith

insert-IsFalling :
    (p : Provisional) (ps : List Provisional) → IsFalling ps → IsFalling (insert p ps)
unfolding insert
insert-IsFalling p [] h = (tt, tt)
insert-IsFalling p (q ∷ qs) (kq, k) = elim (Bool-cases (comes_before q p)) [
  | inl e ↦ rw e (
    All-insert (λ x. x.remainder ≤ q.remainder) p qs (comes_before_le q p e) kq,
    insert-IsFalling p qs k,
  )
  | inr e ↦
      let low = not_before_le q p e in
      rw e ((low, All-weaken q.remainder p.remainder qs low kq), (kq, k))
]

by_remainder-IsFalling : (ps : List Provisional) → IsFalling (by_remainder ps)
unfolding by_remainder
by_remainder-IsFalling [] = tt
by_remainder-IsFalling (p ∷ ps) = insert-IsFalling p (by_remainder ps) (by_remainder-IsFalling ps)

by_remainder-All :
    (P : Provisional → Type 0) (ps : List Provisional) → All P ps → All P (by_remainder ps)
unfolding by_remainder
by_remainder-All P [] h = tt
by_remainder-All P (p ∷ ps) (h, k) = All-insert P p (by_remainder ps) h (by_remainder-All P ps k)

-- The remainder of the recipient at a position.
abbrev pub remainder_at : ℕ → List (String × ℕ) → ℕ → ℕ
remainder_at total [] i = 0
remainder_at total ((r, b) ∷ l) zero = total * b % 10000
remainder_at total ((r, b) ∷ l) (suc i) = remainder_at total l i

provisional-remainder :
    (total k : ℕ) (l : List (String × ℕ)) (rem : ℕ → ℕ)
    → ((i : ℕ) → rem (k + i) ≡ remainder_at total l i)
    → All (λ p. p.remainder ≡ rem p.index) (provisional total k l)
unfolding provisional
provisional-remainder total k [] rem h = tt
provisional-remainder total k ((r, b) ∷ l) rem h = (
  sym (ap rem (omega arith) ∙ h 0),
  provisional-remainder total (k + 1) l rem (λ i. ap rem (omega arith) ∙ h (suc i)),
)

-- A reference that is mentioned among falling ones has at most the remainder of the first.
mentioned_le :
    (rem : ℕ → ℕ) (j m : ℕ) (ps : List Provisional)
    → All (λ q. q.remainder ≤ m) ps
    → All (λ p. p.remainder ≡ rem p.index) ps
    → 1 ≤ mentions j ps
    → rem j ≤ m
unfolding mentions
mentioned_le rem j m [] h r k = absurd (omega arith)
mentioned_le rem j m (p ∷ ps) (hp, h) (rp, r) k = elim (Bool-cases (p.index == j)) [
  | inl e ↦
      let same : p.index ≡ j = ground arith in
      let at : rem p.index ≡ rem j = ap rem same in omega arith
  | inr e ↦ mentioned_le rem j m ps h r (ground arith)
]

-- Whoever is served has a remainder at least as large as whoever is not.
served_first :
    (rem : ℕ → ℕ) (i j d : ℕ) (ps : List Provisional)
    → IsFalling ps
    → All (λ p. p.remainder ≡ rem p.index) ps
    → 1 ≤ handed i ps d
    → handed j ps d ≡ 0
    → 1 ≤ mentions j ps
    → rem j ≤ rem i
unfolding handed mentions
served_first rem i j d [] f r hi hj mj = absurd (omega arith)
served_first rem i j zero (p ∷ ps) f r hi hj mj = absurd (omega arith)
served_first rem i j (suc d) (p ∷ ps) (low, f) (rp, r) hi hj mj = elim (Bool-cases (p.index == i)) [
  | inl e ↦
      let same : p.index ≡ i = ground arith in
      let at : rem p.index ≡ rem i = ap rem same in
      let le = mentioned_le rem j p.remainder ps low r (ground arith) in omega arith
  | inr e ↦ served_first rem i j d ps f r (ground arith) (ground arith) (ground arith)
]

-- The amount at a position of the result, and the basis points that it comes from.
Grown-at :
    (total k i : ℕ) (c : ℕ → ℕ) (l : List (String × ℕ)) (heap : List Provisional) {a : Allocation}
    → Grown c k (provisional total k l) heap
    → get_elem? (map allocation heap) i ≡ some a
    → (a.amount_units ≡ total * a.basis_points / 10000 + c (k + i))
      × (remainder_at total l i ≡ total * a.basis_points % 10000)
      × (i < length l)
unfolding provisional
Grown-at total k i c [] [] g e = cc
Grown-at total k i c [] (q ∷ qs) g e = absurd g
Grown-at total k i c ((r, b) ∷ l) [] g e = absurd g
Grown-at total k zero c ((r, b) ∷ l) (q ∷ qs) {a = a} (same_r, same_b, at, g) e =
    let here : c (k + 0) ≡ c k = ap c (omega arith) in
    let a_is : allocation q ≡ a = cc in
    let units_is : a.amount_units ≡ q.amount_units = sym (ap (λ x. x.amount_units) a_is) in
    let points_is : a.basis_points ≡ b = sym (ap (λ x. x.basis_points) a_is) ∙ same_b in
    (rw points_is (omega arith), rw points_is refl, omega arith)
Grown-at total k (suc i) c ((r, b) ∷ l) (q ∷ qs) (same_r, same_b, at, g) e =
    let (p, m, n) = Grown-at total (k + 1) i c l qs g e in
    let here : c (k + 1 + i) ≡ c (k + suc i) = ap c (omega arith) in (omega arith, m, omega arith)

-- A recipient that was given a left-over unit has at least the remainder of any that was not.
pub calculate_fair :
    (total : ℕ) (shares : List Share) {out : List Allocation} (i j : ℕ) {a b : Allocation}
    → calculate (units total) shares ≡ ok out
    → get_elem? out i ≡ some a
    → get_elem? out j ≡ some b
    → a.amount_units ≡ total * a.basis_points / 10000 + 1
    → b.amount_units ≡ total * b.basis_points / 10000
    → total * b.basis_points % 10000 ≤ total * a.basis_points % 10000
unfolding allocate
calculate_fair total shares {out} i j {a} {b} h ea eb more less =
    let (l, _, _, same) = calculate_inv total shares h in
    let ps = provisional total 0 l in
    let dust = total - sum (map amount ps) in
    let refs = by_remainder ps in
    let grown = Grown-distribute refs dust ps in
    let ea' : get_elem? (map allocation (distribute refs dust ps)) i ≡ some a = rw (← same) ea in
    let eb' : get_elem? (map allocation (distribute refs dust ps)) j ≡ some b = rw (← same) eb in
    let (at_a, rem_a, _) =
      Grown-at total 0 i (λ k. handed k refs dust) l (distribute refs dust ps) {a = a} grown ea' in
    let (at_b, rem_b, in_b) =
      Grown-at total 0 j (λ k. handed k refs dust) l (distribute refs dust ps) {a = b} grown eb' in
    let i_is : handed (0 + i) refs dust ≡ handed i refs dust =
      ap (λ k. handed k refs dust) (omega arith) in
    let j_is : handed (0 + j) refs dust ≡ handed j refs dust =
      ap (λ k. handed k refs dust) (omega arith) in
    let mentioned : 1 ≤ mentions j refs =
      omega (
        arith,
        mentions-by_remainder j ps,
        mentions_there total j 0 l (omega arith) (omega arith),
      ) in
    let rems : All (λ p. p.remainder ≡ remainder_at total l p.index) refs =
      by_remainder-All (λ p. p.remainder ≡ remainder_at total l p.index) ps
        (provisional-remainder total 0 l (remainder_at total l)
          (λ k. ap (remainder_at total l) (omega arith))) in
    let le =
      served_first (remainder_at total l) i j dust refs (by_remainder-IsFalling ps) rems
        (omega arith) (omega arith) mentioned in
    omega arith
