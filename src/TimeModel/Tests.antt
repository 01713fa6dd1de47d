-- ===== src/TimeModel/Tests.antt =====
-- The steps by a month with a moment that goes day by day.
use chat_bot_hub.Prelude.{ℕ, zero, suc, ◌≡◌, refl}
use chat_bot_hub.TimeModel.{Date, Moment, monthly, day_next, month_days, next_num}
use chat_bot_hub.TimeModel.Calendar.{
  date, days_of, is_leap, next_first, tomorrow, yesterday, IsMoment,
}

later : Date → ℕ → Date
later t zero = t
later t (suc n) = tomorrow (later t n)

earlier : Date → ℕ → Date
earlier t zero = t
earlier t (suc n) = earlier (yesterday t) n

abbrev by_day : Moment
by_day = record { add = later; subtract = earlier }

by_day-IsMoment : IsMoment by_day
unfolding later earlier
by_day-IsMoment = record {
  add_zero = λ t. refl;
  add_suc = λ t n. refl;
  subtract_zero = λ t. refl;
  subtract_suc = λ t n. refl;
}

in_1900 : day_next by_day monthly (date 1900 2 1) ≡ date 1900 3 2
unfolding day_next next_num later month_days tomorrow next_first days_of is_leap
in_1900 = refl
