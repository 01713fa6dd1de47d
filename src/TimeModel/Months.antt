-- ===== src/TimeModel/Months.antt =====
-- Where the steps by a month lead, from the first day of a month.
use mathlib.Core.Path.{subst}
use chat_bot_hub.Prelude.{
  ℕ, zero, suc, ◌+◌, ◌%◌, ◌≤◌, ◌<◌, Bool, true, false, ◌&&◌, not, if◌then◌else◌, ◌==◌, ltb, lt→ltb,
  Bool-cases, inl, inr, ◌≡◌, refl, sym, arith, ap, ◌∙◌,
}
use chat_bot_hub.TimeModel.{
  Date, Moment, monthly, month_days, prev_month, next_num, prev_num, day_next, day_prev,
}
use chat_bot_hub.TimeModel.Calendar.{
  is_leap, days_of, date, next_first, tomorrow, IsDate, IsMoment, yesterday-tomorrow,
  tomorrow-IsDate, days_low,
}

-- The one kind of month whose length the code takes wrong.
abbrev pub is_century_february : ℕ → ℕ → Bool
is_century_february year month = month == 2 && (year % 100 == 0 && not (year % 400 == 0))

not_ltb : (a b : ℕ) → b ≤ a → ltb a b ≡ false
not_ltb a b h = ground arith

month_days_lem :
    (year month : ℕ)
    → month_days year month ≡ (if is_century_february year month then 29 else days_of year month)
unfolding month_days days_of is_leap
month_days_lem year month = ground arith

step_within :
    (year month n : ℕ)
    → suc n < days_of year month
    → tomorrow (date year month (n + 1)) ≡ date year month (suc n + 1)
unfolding tomorrow
step_within year month n h =
    rw (tomorrow, lt→ltb (n + 1) (days_of year month) (omega (arith, h)))
      (ap (date year month) (omega arith))

step_last :
    (year month n : ℕ)
    → suc n ≡ days_of year month
    → tomorrow (date year month (n + 1)) ≡ next_first year month
unfolding tomorrow
step_last year month n h =
    rw (tomorrow, not_ltb (n + 1) (days_of year month) (omega (arith, h))) refl

century_days : (year month : ℕ) → is_century_february year month ≡ true → 28 ≡ days_of year month
unfolding days_of is_leap
century_days year month h = ground (arith, h)

century_step :
    (year month : ℕ)
    → is_century_february year month ≡ true
    → tomorrow (next_first year month) ≡ date year 3 2
unfolding tomorrow next_first days_of
century_step year month h = ground (arith, h)

prev_num-next_first :
    (year month : ℕ)
    → 1 ≤ month
    → month ≤ 12
    → prev_num monthly (next_first year month) ≡ month_days year month
unfolding prev_num next_first month_days prev_month
prev_num-next_first year month low high = ground (arith, low, high)

prev_num-century :
    (year month : ℕ)
    → is_century_february year month ≡ true
    → prev_num monthly (date year 3 2) ≡ month_days year month
unfolding prev_num month_days prev_month
prev_num-century year month h = ground (arith, h)

first-IsDate : (year month : ℕ) → 1 ≤ month → month ≤ 12 → IsDate (date year month 1)
first-IsDate year month low high = record {
  month_low = low;
  month_high = high;
  day_low = omega arith;
  day_high = days_low year month;
}

module _ (moment : Moment) (m : IsMoment moment) where
  add-IsDate : (t : Date) (n : ℕ) → IsDate t → IsDate (moment.add t n)
  add-IsDate t zero d = subst IsDate (sym (m.add_zero t)) d
  add-IsDate t (suc n) d =
      subst IsDate (sym (m.add_suc t n)) (tomorrow-IsDate (moment.add t n) (add-IsDate t n d))

  subtract-add : (t : Date) (n : ℕ) → IsDate t → moment.subtract (moment.add t n) n ≡ t
  subtract-add t zero d = m.subtract_zero (moment.add t 0) ∙ m.add_zero t
  subtract-add t (suc n) d =
      ap (λ (u : Date). moment.subtract u (suc n)) (m.add_suc t n)
      ∙ m.subtract_suc (tomorrow (moment.add t n)) n
      ∙ ap (λ (u : Date). moment.subtract u n)
          (yesterday-tomorrow (moment.add t n) (add-IsDate t n d))
      ∙ subtract-add t n d

  add_within :
      (year month n : ℕ)
      → n < days_of year month
      → moment.add (date year month 1) n ≡ date year month (n + 1)
  add_within year month zero h = m.add_zero (date year month 1)
  add_within year month (suc n) h =
      m.add_suc (date year month 1) n
      ∙ ap tomorrow (add_within year month n (omega arith))
      ∙ step_within year month n h

  add_days :
      (year month n : ℕ)
      → n ≡ days_of year month
      → 1 ≤ n
      → moment.add (date year month 1) n ≡ next_first year month
  add_days year month zero h low = absurd (omega (arith, low))
  add_days year month (suc n) h low =
      m.add_suc (date year month 1) n
      ∙ ap tomorrow (add_within year month n (omega (arith, h)))
      ∙ step_last year month n h

  -- From the first day of a month the step forward by a month leads to the first day of the next
  -- month; but from February of a year that 100 divides and 400 does not, to the second of March.
  pub day_next_lem :
      (year month : ℕ)
      → day_next moment monthly (date year month 1)
        ≡ (if is_century_february year month then date year 3 2 else next_first year month)
  unfolding day_next next_num
  day_next_lem year month = elim (Bool-cases (is_century_february year month)) [
    | inr usual ↦ rw usual (
        ap (moment.add (date year month 1)) (month_days_lem year month)
        ∙ rw usual (add_days year month (days_of year month) refl (days_low year month)))
    | inl wrong ↦ rw wrong (
        ap (moment.add (date year month 1)) (month_days_lem year month ∙ rw wrong refl)
        ∙ m.add_suc (date year month 1) 28
        ∙ ap tomorrow (add_days year month 28 (century_days year month wrong) (omega arith))
        ∙ century_step year month wrong)
  ]

  prev_num-day_next :
      (year month : ℕ)
      → 1 ≤ month
      → month ≤ 12
      → prev_num monthly (day_next moment monthly (date year month 1)) ≡ month_days year month
  prev_num-day_next year month low high = elim (Bool-cases (is_century_february year month)) [
    | inl wrong ↦
        ap (prev_num monthly) (day_next_lem year month ∙ rw wrong refl)
        ∙ prev_num-century year month wrong
    | inr usual ↦
        ap (prev_num monthly) (day_next_lem year month ∙ rw usual refl)
        ∙ prev_num-next_first year month low high
  ]

  -- From the first day of a month, the step back by a month takes back the step forward, although
  -- both may take the wrong length of a February.
  pub day_prev-day_next :
      (year month : ℕ)
      → 1 ≤ month
      → month ≤ 12
      → day_prev moment monthly (day_next moment monthly (date year month 1)) ≡ date year month 1
  unfolding day_prev day_next next_num
  day_prev-day_next year month low high =
      ap (moment.subtract (moment.add (date year month 1) (month_days year month)))
        (prev_num-day_next year month low high)
      ∙ subtract-add (date year month 1) (month_days year month) (first-IsDate year month low high)
