-- ===== src/SpendingLimits/Day.antt =====
-- Transactions that are checked one after the other keep to a daily limit.
use astroid_api.Common.{
  ℕ, ◌+◌, ◌/◌, ◌≤◌, String, ◌≡◌, refl, subst, inl, inr, Bool, true, false, Option, some, List, [],
  ◌∷◌, arith, str_eq, eq_iff, leb, if◌then◌else◌, le→leb, Bool-cases, All, In, eq_refl, false≢true,
}
use astroid_api.Schema.{submitted}
use astroid_api.Policy.{TransactionIntent, Runtime}
use astroid_api.Policy.Currencies.{StoredPolicy, Converter}
use astroid_api.SpendingLimits.{
  SpentRow, Checked, allowed, price_unavailable, blocked, ms_per_day, evaluate_spending_limits,
}
use astroid_api.SpendingLimits.Spent.{spent_from}
use astroid_api.SpendingLimits.Enforced.{BindsAgent, allowed-WithinLimits}
use astroid_api.SpendingLimits.Within.{Rounds, AtMostAbout, IsPlain}

-- A transaction that an agent asks for.
pub record Spend : Type 0 where
  pub intent : TransactionIntent
  pub time : ℕ

abbrev pub row_of : String → Spend → SpentRow
row_of agent p = record {
  agent_id = some agent;
  asset = p.intent.asset;
  amount = p.intent.amount;
  status = submitted;
  deleted = false;
  created_at = p.time;
}

abbrev pub is_allowed : Checked → Bool
is_allowed allowed = true
is_allowed price_unavailable = false
is_allowed (blocked v a b) = false

allowed_iff : (c : Checked) → is_allowed c ≡ true → c ≡ allowed
allowed_iff allowed h = refl
allowed_iff price_unavailable h = absurd (false≢true h)
allowed_iff (blocked v a b) h = absurd (false≢true h)

All-In :
    (P : StoredPolicy → Type 0) (rows : List StoredPolicy) (s : StoredPolicy)
    → All P rows
    → In s rows
    → P s
All-In P [] s h k = absurd k
All-In P (t ∷ rows) s h (inl e) = subst P e h.0
All-In P (t ∷ rows) s h (inr k) = All-In P rows s h.1 k

module _ (rt : Runtime) (convert : Converter) (utc_date : ℕ → ℕ) (policies : List StoredPolicy)
    (organization : String) (actor : Option String) (agent : String) where
  -- The check, and the row that is there when it allows the transaction.
  unfoldable pub pay : List SpentRow → Spend → List SpentRow
  pay rows p =
      if is_allowed (
        evaluate_spending_limits rt convert utc_date p.time rows policies organization actor
          p.intent)
      then row_of agent p ∷ rows
      else rows

  unfoldable pub pay_all : List SpentRow → List Spend → List SpentRow
  unfolding pay
  pay_all rows [] = rows
  pay_all rows (p ∷ ps) = pay_all (pay rows p) ps

  -- A plain transaction of the agent on a day.
  abbrev pub IsOn : ℕ → Spend → Type 0
  IsOn day p = IsPlain agent p.intent × (p.time / ms_per_day ≡ day)

  -- One of the policies, which binds the agent and has a daily limit.
  pub record Binds (s : StoredPolicy) (limit : ℕ) : Type 0 where
    pub present : In s policies
    pub binds : BindsAgent agent s
    pub daily : s.policy.configuration.daily_limit ≡ some limit

  pay-le :
      (slack : ℕ → ℕ) (s : StoredPolicy) (limit day : ℕ) (asset : String) (rows : List SpentRow)
      (p : Spend)
      → rt.upper "" ≡ ""
      → Rounds rt slack
      → Binds s limit
      → IsOn day p
      → spent_from agent asset day rows ≤ limit + slack limit
      → spent_from agent asset day (pay rows p) ≤ limit + slack limit
  unfolding pay
  pay-le slack s limit day asset rows p up rounds b on h =
      let checked =
        evaluate_spending_limits rt convert utc_date p.time rows policies organization actor
          p.intent in
      elim (Bool-cases (is_allowed checked)) [
        | inr e ↦ rw e h
        | inl e ↦
            let within =
              All-In _ policies s
                (allowed-WithinLimits rt slack convert utc_date p.time rows policies organization
                  actor agent p.intent up rounds on.0 (allowed_iff checked e))
                b.present in
            let spent = spent_from agent p.intent.asset (p.time / ms_per_day) rows in
            let daily : spent + p.intent.amount ≤ limit + slack limit =
              subst (λ o. AtMostAbout slack o (spent + p.intent.amount)) b.daily
                (within b.binds).0 in
            rw e (elim (Bool-cases (str_eq p.intent.asset asset)) [
              | inr k ↦ rw (eq_refl agent, k) h
              | inl k ↦
                  let same : p.intent.asset ≡ asset = (eq_iff p.intent.asset asset).0 k in
                  let bound : spent_from agent asset day rows + p.intent.amount
                      ≤ limit + slack limit =
                    rw (same, on.1) at daily in
                  let today : leb day (p.time / ms_per_day) ≡ true =
                    le→leb day (p.time / ms_per_day) (omega (arith, on.1)) in
                  rw (eq_refl agent, k, today) (omega (arith, bound))
            ])
      ]

  -- Whatever transactions without transfers and without aggregates of their own an agent asks for on one day,
  -- one after the other, and however many of them are allowed, what it has spent of an asset that day, by
  -- transactions that are PENDING, SUBMITTED, CONFIRMED or COMPLETED, stays within the daily limit of every
  -- policy that is enabled, not deleted, for all agents or this one, and without a base currency, up to what
  -- the rounding of a sum of doubles can hide, if it was so before. The row of each transaction that is allowed
  -- is there, SUBMITTED, when the next is checked.
  pub day_within_limit :
      (slack : ℕ → ℕ) (s : StoredPolicy) (limit day : ℕ) (asset : String) (rows : List SpentRow)
      (ps : List Spend)
      → rt.upper "" ≡ ""
      → Rounds rt slack
      → Binds s limit
      → All (IsOn day) ps
      → spent_from agent asset day rows ≤ limit + slack limit
      → spent_from agent asset day (pay_all rows ps) ≤ limit + slack limit
  unfolding pay_all
  day_within_limit slack s limit day asset rows [] up rounds b on h = h
  day_within_limit slack s limit day asset rows (p ∷ ps) up rounds b on h =
      day_within_limit slack s limit day asset (pay rows p) ps up rounds b on.1
        (pay-le slack s limit day asset rows p up rounds b on.0 h)
