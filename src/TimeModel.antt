-- ===== src/TimeModel.antt =====
-- `timeModel` of frontend/static/app/common/services/time-model.js: the steps by a day, a week or a
-- month. A time is a text YYYY-MM-DD, taken as its three numbers, with a month from 1 on. The
-- library moment is a parameter.
pub mod Calendar
pub mod Months
pub mod Start
mod Tests
use chat_bot_hub.Prelude.{ℕ, ◌-◌, ◌%◌, Bool, ◌||◌, if◌then◌else◌, ◌==◌}

pub record Date : Type 0 where
  pub year : ℕ
  pub month : ℕ
  pub day : ℕ

-- `moment(time).add(n, 'day')` and `moment(time).subtract(n, 'day')`, formatted as a time.
pub record Moment : Type 0 where
  pub add : Date → ℕ → Date
  pub subtract : Date → ℕ → Date

-- The argument `str`; for any other text `num` is undefined, and moment takes it for 0.
pub data Span : Type 0 where
  daily weekly monthly other : Span

-- `[1,3,5,7,8,10,12].indexOf(month) >= 0`.
abbrev pub is_long : ℕ → Bool
is_long m = m == 1 || m == 3 || m == 5 || m == 7 || m == 8 || m == 10 || m == 12

-- The three branches for the length of a month.
unfoldable pub month_days : ℕ → ℕ → ℕ
month_days year month =
    if is_long month then 31 else if month == 2 then (if year % 4 == 0 then 29 else 28) else 30

-- The month before, as `dayPrev` computes it.
unfoldable pub prev_month : ℕ → ℕ
prev_month month = if month == 1 then 12 else if month == 13 then 1 else month - 1

unfoldable pub next_num : Span → Date → ℕ
next_num daily t = 1
next_num weekly t = 7
next_num monthly t = month_days t.year t.month
next_num other t = 0

unfoldable pub prev_num : Span → Date → ℕ
prev_num daily t = 1
prev_num weekly t = 7
prev_num monthly t = month_days t.year (prev_month t.month)
prev_num other t = 0

unfoldable pub day_next : Moment → Span → Date → Date
day_next moment span t = moment.add t (next_num span t)

unfoldable pub day_prev : Moment → Span → Date → Date
day_prev moment span t = moment.subtract t (prev_num span t)
