-- ===== src/SpendingLimits/Spent.antt =====
-- What an agent has spent in a day, a week and a month, told by days and statuses.
use astroid_api.Common.{
  ℕ, ◌+◌, ◌-◌, ◌*◌, ◌/◌, ◌%◌, ◌≤◌, String, ◌≡◌, refl, sym, ap, ◌∙◌, inl, inr, Bool, true, false,
  not, ◌&&◌, List, [], ◌∷◌, arith, str_eq, leb, ◌==◌, if◌then◌else◌, leb→le, le→leb, Bool-cases,
  false≢true,
}
use astroid_api.Schema.{
  TransactionStatus, draft, pending, approved, submitted, confirmed, completed, rejected, expired,
  cancelled, failed,
}
use astroid_api.Policy.{SpendPeriods}
use astroid_api.SpendingLimits.{
  SpentRow, ms_per_day, utc_day, days_since_monday, window_bounds, is_counted, is_by, is_spent,
  spent_since, aggregate_spend,
}

-- The statuses of a transaction that was submitted, or that waits for an approval.
abbrev pub is_live : TransactionStatus → Bool
is_live draft = false
is_live pending = true
is_live approved = false
is_live submitted = true
is_live confirmed = true
is_live completed = true
is_live rejected = false
is_live expired = false
is_live cancelled = false
is_live failed = false

-- The sum of an agent's live transactions in an asset, from a day on.
abbrev pub spent_from : String → String → ℕ → List SpentRow → ℕ
spent_from agent asset first [] = 0
spent_from agent asset first (r ∷ rows) =
    let rest = spent_from agent asset first rows in
    if (is_by agent r.agent_id && str_eq r.asset asset)
      && (is_live r.status && (not r.deleted && leb first (r.created_at / ms_per_day)))
    then r.amount + rest
    else rest

-- The day itself, the last Monday, and the first of the month.
abbrev pub spent_in_periods : (ℕ → ℕ) → ℕ → List SpentRow → String → String → SpendPeriods
spent_in_periods utc_date now rows agent asset =
    let day = now / ms_per_day in
    record {
      spent_today = spent_from agent asset day rows;
      spent_this_week = spent_from agent asset (day - (day + 3) % 7) rows;
      spent_this_month = spent_from agent asset (day - (utc_date day - 1)) rows;
    }

is_live-is_counted : (s : TransactionStatus) → is_counted s ≡ is_live s
is_live-is_counted draft = refl
is_live-is_counted pending = refl
is_live-is_counted approved = refl
is_live-is_counted submitted = refl
is_live-is_counted confirmed = refl
is_live-is_counted completed = refl
is_live-is_counted rejected = refl
is_live-is_counted expired = refl
is_live-is_counted cancelled = refl
is_live-is_counted failed = refl

day_lem : (d t : ℕ) → leb (d * ms_per_day) t ≡ leb d (t / ms_per_day)
day_lem d t = elim (Bool-cases (leb d (t / ms_per_day))) [
  | inl e ↦
      let h : d ≤ t / ms_per_day = leb→le _ _ e in
      le→leb (d * ms_per_day) t (omega (arith, h)) ∙ sym e
  | inr e ↦ elim (Bool-cases (leb (d * ms_per_day) t)) [
    | inl f ↦
        let h : d * ms_per_day ≤ t = leb→le _ _ f in
        let k : d ≤ t / ms_per_day = omega (arith, h) in
        absurd (false≢true (sym e ∙ le→leb d (t / ms_per_day) k))
    | inr f ↦ f ∙ sym e
  ]
]

spent_since-spent_from :
    (agent asset : String) (d : ℕ) (rows : List SpentRow)
    → spent_since agent asset (d * ms_per_day) rows ≡ spent_from agent asset d rows
unfolding spent_since is_spent
spent_since-spent_from agent asset d [] = refl
spent_since-spent_from agent asset d (r ∷ rows) =
    rw
      (
        is_live-is_counted r.status,
        day_lem d r.created_at,
        spent_since-spent_from agent asset d rows,
      )
      refl

monday_lem : (day : ℕ) → days_since_monday (utc_day day) ≡ (day + 3) % 7
monday_lem day = elim (Bool-cases (utc_day day == 0)) [
  | inl e ↦
      let sunday : (day + 4) % 7 ≡ 0 = ground (arith, e) in
      let six : days_since_monday (utc_day day) ≡ 6 = rw e refl in omega (arith, sunday, six)
  | inr e ↦
      let later : 1 ≤ (day + 4) % 7 = ground (arith, e) in
      let back : days_since_monday (utc_day day) ≡ (day + 4) % 7 - 1 = rw e refl in
      omega (arith, later, back)
]

pub aggregate_spend-spent_in_periods :
    (utc_date : ℕ → ℕ) (now : ℕ) (rows : List SpentRow) (agent asset : String)
    → aggregate_spend utc_date now rows agent asset ≡ spent_in_periods utc_date now rows agent asset
unfolding aggregate_spend window_bounds
aggregate_spend-spent_in_periods utc_date now rows agent asset =
    let day = now / ms_per_day in
    let today = spent_since-spent_from agent asset day rows in
    let week =
      spent_since-spent_from agent asset (day - days_since_monday (utc_day day)) rows
      ∙ ap (λ n. spent_from agent asset (day - n) rows) (monday_lem day) in
    let month = spent_since-spent_from agent asset (day - (utc_date day - 1)) rows in
    ap
      (λ n. record {
        spent_today = n;
        spent_this_week =
            spent_since agent asset ((day - days_since_monday (utc_day day)) * ms_per_day) rows;
        spent_this_month = spent_since agent asset ((day - (utc_date day - 1)) * ms_per_day) rows;
      })
      today
    ∙ (ap
          (λ n. record {
            spent_today = spent_from agent asset day rows;
            spent_this_week = n;
            spent_this_month =
                spent_since agent asset ((day - (utc_date day - 1)) * ms_per_day) rows;
          })
          week
        ∙ ap
            (λ n. record {
              spent_today = spent_from agent asset day rows;
              spent_this_week = spent_from agent asset (day - (day + 3) % 7) rows;
              spent_this_month = n;
            })
            month)
