-- ===== src/TimeModel/Calendar.antt =====
-- The Gregorian calendar, day by day, and what is documented of moment.
use chat_bot_hub.Prelude.{
  ℕ, suc, ◌+◌, ◌-◌, ◌%◌, ◌≤◌, Bool, ◌&&◌, ◌||◌, not, if◌then◌else◌, ◌==◌, ltb, ◌≡◌, arith,
  Bool-cases, inl, inr, ltb→lt,
}
use chat_bot_hub.TimeModel.{Date, Moment, is_long}

unfoldable pub is_leap : ℕ → Bool
is_leap year = year % 4 == 0 && (not (year % 100 == 0) || year % 400 == 0)

unfoldable pub days_of : ℕ → ℕ → ℕ
days_of year month =
    if is_long month then 31 else if month == 2 then (if is_leap year then 29 else 28) else 30

abbrev pub date : ℕ → ℕ → ℕ → Date
date year month day = record { year = year; month = month; day = day }

-- The first day of the next month.
unfoldable pub next_first : ℕ → ℕ → Date
next_first year month = if month == 12 then date (year + 1) 1 1 else date year (month + 1) 1

unfoldable pub tomorrow : Date → Date
tomorrow t =
    if ltb t.day (days_of t.year t.month)
    then date t.year t.month (t.day + 1)
    else next_first t.year t.month

unfoldable pub yesterday : Date → Date
yesterday t =
    if t.day == 1
    then (if t.month == 1
        then date (t.year - 1) 12 31
        else date t.year (t.month - 1) (days_of t.year (t.month - 1)))
    else date t.year t.month (t.day - 1)

pub record IsDate (t : Date) : Type 0 where
  pub month_low : 1 ≤ t.month
  pub month_high : t.month ≤ 12
  pub day_low : 1 ≤ t.day
  pub day_high : t.day ≤ days_of t.year t.month

-- A moment adds and subtracts days one by one.
pub record IsMoment (moment : Moment) : Type 0 where
  pub add_zero : (t : Date) → moment.add t 0 ≡ t
  pub add_suc : (t : Date) (n : ℕ) → moment.add t (suc n) ≡ tomorrow (moment.add t n)
  pub subtract_zero : (t : Date) → moment.subtract t 0 ≡ t
  pub subtract_suc :
      (t : Date) (n : ℕ) → moment.subtract t (suc n) ≡ moment.subtract (yesterday t) n

pub yesterday-tomorrow : (t : Date) → IsDate t → yesterday (tomorrow t) ≡ t
unfolding yesterday tomorrow next_first days_of
yesterday-tomorrow t d = ground (arith, d.month_low, d.month_high, d.day_low, d.day_high)

pub days_low : (year month : ℕ) → 1 ≤ days_of year month
unfolding days_of
days_low year month = ground arith

next_first-IsDate : (year month : ℕ) → 1 ≤ month → month ≤ 12 → IsDate (next_first year month)
unfolding next_first
next_first-IsDate year month low high = elim (Bool-cases (month == 12)) [
  | inl last ↦
      rw (next_first, last)
        (record {
          month_low = omega arith;
          month_high = omega arith;
          day_low = omega arith;
          day_high = days_low (year + 1) 1;
        })
  | inr early ↦
      rw (next_first, early)
        (record {
          month_low = omega arith;
          month_high = ground (arith, early);
          day_low = omega arith;
          day_high = days_low year (month + 1);
        })
]

pub tomorrow-IsDate : (t : Date) → IsDate t → IsDate (tomorrow t)
unfolding tomorrow
tomorrow-IsDate t d = elim (Bool-cases (ltb t.day (days_of t.year t.month))) [
  | inl before ↦
      rw (tomorrow, before)
        (record {
          month_low = d.month_low;
          month_high = d.month_high;
          day_low = omega arith;
          day_high = omega (arith, ltb→lt t.day (days_of t.year t.month) before);
        })
  | inr last ↦ rw (tomorrow, last) (next_first-IsDate t.year t.month d.month_low d.month_high)
]
