-- ===== src/SpendingLimits/Windows.antt =====
-- Where the three windows start.
use astroid_api.Common.{
  ℕ, ◌+◌, ◌-◌, ◌*◌, ◌/◌, ◌%◌, ◌≤◌, ◌<◌, ◌≡◌, refl, inl, inr, arith, ◌==◌, Bool-cases,
}
use astroid_api.SpendingLimits.{ms_per_day, utc_day, days_since_monday, window_bounds}

-- From the first Monday of 1970 on, the last Monday is at most six days back.
monday_lem :
    (day : ℕ)
    → 4 ≤ day
    → (utc_day (day - days_since_monday (utc_day day)) ≡ 1)
      × ((days_since_monday (utc_day day) ≤ 6) × (days_since_monday (utc_day day) ≤ day))
monday_lem day h = elim (Bool-cases (utc_day day == 0)) [
  | inl e ↦
      let sunday : (day + 4) % 7 ≡ 0 = ground (arith, e) in
      let six : days_since_monday (utc_day day) ≡ 6 = rw e refl in
      (omega (arith, sunday, six, h), (omega (arith, six), omega (arith, sunday, six, h)))
  | inr e ↦
      let later : 1 ≤ (day + 4) % 7 = ground (arith, e) in
      let back : days_since_monday (utc_day day) ≡ (day + 4) % 7 - 1 = rw e refl in
      (omega (arith, later, back, h), (omega (arith, back), omega (arith, later, back, h)))
]

-- The start of the day that lies `back` days before the one that holds a time.
back_lem :
    (back now : ℕ)
    → back ≤ 6
    → back ≤ now / ms_per_day
    → (((now / ms_per_day - back) * ms_per_day ≤ now)
        × (now < (now / ms_per_day - back) * ms_per_day + 7 * ms_per_day))
      × ((now / ms_per_day - back) * ms_per_day / ms_per_day ≡ now / ms_per_day - back)
back_lem back now h k = ((omega (arith, h, k), omega (arith, h, k)), omega (arith, k))

-- From the first Monday of 1970 on, the day and the week that hold a time start at midnight, the day at most 24
-- hours before it and the week on a Monday, less than seven days before it; the month starts on the first, as
-- many days back as the date says, if the date of a day is at most the days since 1970.
window_bounds_lem :
    (utc_date : ℕ → ℕ) (now : ℕ)
    → ((day : ℕ) → utc_date day ≤ day + 1)
    → 4 ≤ now / ms_per_day
    → (let w = window_bounds utc_date now in
        ((w.start_of_day ≤ now) × (now < w.start_of_day + ms_per_day))
        × ((((w.start_of_week ≤ now) × (now < w.start_of_week + 7 * ms_per_day))
              × (utc_day (w.start_of_week / ms_per_day) ≡ 1))
            × (w.start_of_month + (utc_date (now / ms_per_day) - 1) * ms_per_day ≡ w.start_of_day)))
unfolding window_bounds
window_bounds_lem utc_date now dates h =
    let day = now / ms_per_day in
    let (monday, (six, back)) = monday_lem day h in
    let (within, whole) = back_lem (days_since_monday (utc_day day)) now six back in
    ((omega arith, omega arith), ((within, rw whole monday), omega (arith, dates day)))
