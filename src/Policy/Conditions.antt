-- ===== src/Policy/Conditions.antt =====
-- modules/policies/policy.engine.ts: `resolveLocalTime` and the evaluation of rule conditions.
use astroid_api.Common.{
  ℕ, ◌+◌, ◌/◌, ◌%◌, String, Bool, true, false, not, Option, none, some, str_eq, ltb, leb, ◌==◌,
  if◌then◌else◌, or_else, length, includes, keep,
}
use astroid_api.Policy.{
  RuleField, recipient_address, agent_id, hour_of_day, day_of_week, transaction_count, RuleOperator,
  eq, neq, gt, gte, lt, lte, one_of, not_in, Num, units, minus, nan, RuleValue, text, number,
  boolean, texts, RuleCondition, RuleGroup, Logic, all_of, any_of, TransactionIntent, Runtime,
}
use astroid_api.Policy.Text.{join, weekday_index}

pub record LocalTime : Type 0 where
  pub hour : ℕ
  pub day_of_week : ℕ

-- `getUTCHours` and `getUTCDay` of a number of milliseconds since 1970-01-01, a Thursday.
unfoldable pub utc_time : ℕ → LocalTime
utc_time at = record { hour = at / 3600000 % 24; day_of_week = (at / 86400000 + 4) % 7 }

unfoldable pub zone_time : ℕ → Option (Option ℕ × Option String) → LocalTime
unfolding utc_time weekday_index
zone_time at none = utc_time at
zone_time at (some (h, w)) = record {
  hour = or_else h 0 % 24;
  day_of_week = weekday_index (or_else w "Sun");
}

unfoldable pub resolve_local_time : Runtime → ℕ → Option String → LocalTime
unfolding utc_time zone_time
resolve_local_time rt at none = utc_time at
resolve_local_time rt at (some zone) =
    if str_eq zone "" then utc_time at else zone_time at (rt.zone_parts at zone)

-- The value that a condition is compared against: a string, a number, or `undefined`.
pub data Actual : Type 0 where
  str : String → Actual
  num : ℕ → Actual
  undefined : Actual

unfoldable pub of_option : Option String → Actual
of_option none = undefined
of_option (some s) = str s

unfoldable pub resolve_condition_value : RuleField → Runtime → TransactionIntent → ℕ → Actual
unfolding resolve_local_time of_option
resolve_condition_value RuleField.amount rt intent at = num intent.amount
resolve_condition_value RuleField.asset rt intent at = str intent.asset
resolve_condition_value recipient_address rt intent at = str intent.recipient_address
resolve_condition_value agent_id rt intent at = of_option intent.agent_id
resolve_condition_value hour_of_day rt intent at =
    num (rt.whole (resolve_local_time rt at none).hour)
resolve_condition_value day_of_week rt intent at =
    num (rt.whole (resolve_local_time rt at none).day_of_week)
resolve_condition_value transaction_count rt intent at =
    num (rt.whole (or_else intent.transaction_count 0))

-- `actual === value`
unfoldable pub strictly_equal : Actual → RuleValue → Bool
strictly_equal (str s) (text t) = str_eq s t
strictly_equal (num n) (number (units m)) = n == m
strictly_equal _ _ = false

-- `Number(value)`
unfoldable pub to_number : Runtime → RuleValue → Num
unfolding join
to_number rt (text s) = rt.parse_number s
to_number rt (number n) = n
to_number rt (boolean true) = units (rt.whole 1)
to_number rt (boolean false) = units (rt.whole 0)
to_number rt (texts l) = rt.parse_number (join l)

-- Whether a number lies above, and whether it lies below, a JavaScript number.
unfoldable pub above : ℕ → Num → Bool
above n (units m) = ltb m n
above n (minus m) = true
above n nan = false

unfoldable pub below : ℕ → Num → Bool
below n (units m) = ltb n m
below n (minus m) = false
below n nan = false

unfoldable pub at_least : ℕ → Num → Bool
at_least n (units m) = leb m n
at_least n (minus m) = true
at_least n nan = false

unfoldable pub at_most : ℕ → Num → Bool
at_most n (units m) = leb n m
at_most n (minus m) = false
at_most n nan = false

-- `typeof actual === 'number' && test(actual)`
unfoldable pub number_and : Actual → (ℕ → Bool) → Bool
number_and (num n) test = test n
number_and _ test = false

-- `String(actual)`
unfoldable pub to_text : Runtime → Actual → String
to_text rt (str s) = s
to_text rt (num n) = rt.show_number n
to_text rt undefined = "undefined"

unfoldable pub in_texts : RuleValue → String → Bool
in_texts (texts l) s = includes l s
in_texts _ s = false

unfoldable pub not_in_texts : RuleValue → String → Bool
not_in_texts (texts l) s = not (includes l s)
not_in_texts _ s = false

unfoldable pub compare_by : RuleOperator → Runtime → Actual → RuleValue → Bool
unfolding strictly_equal to_number above below at_least at_most number_and to_text in_texts
    not_in_texts
compare_by eq rt a v = strictly_equal a v
compare_by neq rt a v = not (strictly_equal a v)
compare_by gt rt a v = number_and a (λ n. above n (to_number rt v))
compare_by gte rt a v = number_and a (λ n. at_least n (to_number rt v))
compare_by lt rt a v = number_and a (λ n. below n (to_number rt v))
compare_by lte rt a v = number_and a (λ n. at_most n (to_number rt v))
compare_by one_of rt a v = in_texts v (to_text rt a)
compare_by not_in rt a v = not_in_texts v (to_text rt a)

unfoldable pub evaluate_condition : Runtime → TransactionIntent → ℕ → RuleCondition → Bool
unfolding resolve_condition_value compare_by
evaluate_condition rt intent at c =
    compare_by c.operator rt (resolve_condition_value c.field rt intent at) c.value

-- `failed.length < conditions.length` for OR, `failed.length === 0` for AND
unfoldable pub holds_by : Logic → ℕ → ℕ → Bool
holds_by any_of failed total = ltb failed total
holds_by all_of failed total = failed == 0

unfoldable pub group_holds : Runtime → TransactionIntent → ℕ → RuleGroup → Bool
unfolding evaluate_condition holds_by
group_holds rt intent at g =
    let failed = keep (λ c. not (evaluate_condition rt intent at c)) g.conditions in
    holds_by g.logic (length failed) (length g.conditions)
