-- ===== src/Risk/Ratio.antt =====
-- Exact fractions, in place of the source's doubles, with `clamp` of utils/decimal.util.ts.
use astroid_api.Common.{ℕ, ◌+◌, ◌-◌, ◌*◌, ◌/◌, Bool, ltb, leb, if◌then◌else◌}

pub record Ratio : Type 0 where
  pub numerator : ℕ
  pub denominator : ℕ

abbrev pub whole : ℕ → Ratio
whole n = record { numerator = n; denominator = 1 }

abbrev pub add : Ratio → Ratio → Ratio
add a b = record {
  numerator = a.numerator * b.denominator + b.numerator * a.denominator;
  denominator = a.denominator * b.denominator;
}

abbrev pub times : Ratio → ℕ → Ratio
times a n = record { numerator = n * a.numerator; denominator = a.denominator }

abbrev pub multiply : Ratio → Ratio → Ratio
multiply a b = record {
  numerator = a.numerator * b.numerator;
  denominator = a.denominator * b.denominator;
}

abbrev pub exceeds : Ratio → Ratio → Bool
exceeds a b = ltb (b.numerator * a.denominator) (a.numerator * b.denominator)

-- `Math.max`
abbrev pub larger : Ratio → Ratio → Ratio
larger a b = if exceeds b a then b else a

-- `clamp(value, 0, most)`; no value here is negative
abbrev pub at_most : ℕ → Ratio → Ratio
at_most most a = if leb (most * a.denominator) a.numerator then whole most else a

-- `clamp(x / y, 0, 1)`
abbrev pub share : ℕ → ℕ → Ratio
share x y = at_most 1 (record { numerator = x; denominator = y })

-- `1 - a`, for a share
abbrev pub rest_of : Ratio → Ratio
rest_of a = record { numerator = a.denominator - a.numerator; denominator = a.denominator }

-- `Math.round`
abbrev pub round : Ratio → ℕ
round a = (2 * a.numerator + a.denominator) / (2 * a.denominator)
