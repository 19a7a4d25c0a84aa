-- ===== src/Split.antt =====
-- utils/stream-split-calculator.util.ts: a stream's amount is divided among recipients by basis
-- points, and the units that rounding leaves over go to the largest remainders.
-- The amounts are `bigint`, so plain integers; a basis-points value is a JavaScript number.
pub mod Conservation
pub mod Shares
pub mod Remainders
pub mod Validation
mod Tests
use astroid_api.Common.{
  ℕ, zero, suc, ◌+◌, ◌-◌, ◌*◌, ◌/◌, ◌%◌, String, Bool, List, [], ◌∷◌, map, ltb, ◌==◌, if◌then◌else◌,
  sum,
}
use astroid_api.Common.Results.{Result, ok, err, ◌>>=◌}

-- A JavaScript number, as far as the validation tells numbers apart: a non-negative integer, a
-- negative one (`below n` is -(n + 1)), or a value that `Number.isInteger` refuses.
pub data Number : Type 0 where
  int : ℕ → Number
  below : ℕ → Number
  other : Number

-- The total is a `bigint`: `negative n` is -(n + 1).
pub data BigInt : Type 0 where
  units : ℕ → BigInt
  negative : ℕ → BigInt

pub record Share : Type 0 where
  pub recipient : String
  pub basis_points : Number

pub record Allocation : Type 0 where
  pub recipient : String
  pub basis_points : ℕ
  pub amount_units : ℕ

pub data SplitError : Type 0 where
  negative_total no_recipients bad_basis_points : SplitError
  bad_sum : ℕ → SplitError

abbrev pub total_basis_points : ℕ
total_basis_points = 10000

-- the test of one share: an integer, and positive
unfoldable pub checked_points : Number → Result SplitError ℕ
checked_points (int zero) = err bad_basis_points
checked_points (int (suc n)) = ok (suc n)
checked_points (below n) = err bad_basis_points
checked_points other = err bad_basis_points

-- The validation loop: the checked basis points of every share, in order.
unfoldable pub checked : List Share → Result SplitError (List (String × ℕ))
checked [] = ok []
checked (s ∷ rest) = do
  bps ← checked_points s.basis_points
  l ← checked rest
  ok ((s.recipient, bps) ∷ l)

pub record Provisional : Type 0 where
  pub index : ℕ
  pub recipient : String
  pub basis_points : ℕ
  pub amount_units : ℕ
  pub remainder : ℕ

-- `shares.map((s, index) => ...)`, from the index `i`
unfoldable pub provisional : ℕ → ℕ → List (String × ℕ) → List Provisional
provisional total i [] = []
provisional total i ((r, bps) ∷ rest) =
    record {
      index = i;
      recipient = r;
      basis_points = bps;
      amount_units = total * bps / total_basis_points;
      remainder = total * bps % total_basis_points;
    }
    ∷ provisional total (i + 1) rest

-- the comparator of the sort is negative: the larger remainder first, then the smaller index
unfoldable pub comes_before : Provisional → Provisional → Bool
comes_before a b =
    if a.remainder == b.remainder then ltb a.index b.index else ltb b.remainder a.remainder

-- `[...provisional].sort(...)`, a stable sort
unfoldable pub insert : Provisional → List Provisional → List Provisional
insert p [] = p ∷ []
insert p (q ∷ qs) = let rest = insert p qs in if comes_before q p then q ∷ rest else p ∷ q ∷ qs

unfoldable pub by_remainder : List Provisional → List Provisional
by_remainder [] = []
by_remainder (p ∷ ps) = insert p (by_remainder ps)

-- `amountUnits += 1n` on the object at a position of `provisional`. The sorted array holds the same
-- objects, so a write through it is a write here.
unfoldable pub bump : ℕ → List Provisional → List Provisional
bump i [] = []
bump zero (p ∷ ps) = record p { amount_units = p.amount_units + 1 } ∷ ps
bump (suc i) (p ∷ ps) = p ∷ bump i ps

-- the loop `for (i < byRemainder.length && dust > 0n)`; the objects are written, the order is fixed
unfoldable pub distribute : List Provisional → ℕ → List Provisional → List Provisional
distribute [] dust heap = heap
distribute (p ∷ ps) zero heap = heap
distribute (p ∷ ps) (suc dust) heap = distribute ps dust (bump p.index heap)

abbrev pub amount : Provisional → ℕ
amount p = p.amount_units

abbrev pub allocation : Provisional → Allocation
allocation p = record {
  recipient = p.recipient;
  basis_points = p.basis_points;
  amount_units = p.amount_units;
}

unfoldable pub allocate : ℕ → List (String × ℕ) → List Allocation
allocate total shares =
    let ps = provisional total 0 shares in
    let dust = total - sum (map amount ps) in map allocation (distribute (by_remainder ps) dust ps)

abbrev pub points : String × ℕ → ℕ
points s = s.1

-- `calculateStreamSplitAllocations`
unfoldable pub calculate : BigInt → List Share → Result SplitError (List Allocation)
calculate (negative n) shares = err negative_total
calculate (units total) [] = err no_recipients
calculate (units total) (s ∷ rest) = do
  l ← checked (s ∷ rest)
  if sum (map points l) == total_basis_points
      then ok (allocate total l)
      else err (bad_sum (sum (map points l)))
