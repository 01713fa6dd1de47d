-- ===== src/TimeModel/Start.antt =====
-- `start` of frontend/static/app/common/services/time-model.js: the first day of the day, week or month
-- of a time. The language's `Date` is a parameter; its `toLocaleDateString` is taken in a locale that
-- writes year/month/day, as `timeFormat` reads it.
use chat_bot_hub.Prelude.{
  ℕ, zero, suc, ◌+◌, ◌-◌, ◌*◌, ◌%◌, ◌≤◌, ◌<◌, Option, none, some, ◌==◌, ◌≡◌, refl, ap, ◌∙◌, arith,
  if◌then◌else◌,
}
use chat_bot_hub.TimeModel.{Date, Span, daily, weekly, monthly, other}
use chat_bot_hub.TimeModel.Calendar.{date, yesterday}

-- `getDay()` of a time, 0 on Sundays, and the day so many times 24 hours before it.
pub record Week : Type 0 where
  pub get_day : Date → ℕ
  pub back : Date → ℕ → Date

-- What is documented of the language's `Date`.
pub record IsWeek (week : Week) : Type 0 where
  pub day_bound : (t : Date) → week.get_day t < 7
  pub day_yesterday : (t : Date) → week.get_day (yesterday t) ≡ (week.get_day t + 6) % 7
  pub back_zero : (t : Date) → week.back t 0 ≡ t
  pub back_suc : (t : Date) (n : ℕ) → week.back t (suc n) ≡ week.back (yesterday t) n

-- `currentDay`.
unfoldable pub current_day : Week → Date → ℕ
current_day week t = if week.get_day t == 0 then 7 else week.get_day t

-- `getWeekDay`.
unfoldable pub get_week_day : Week → Date → Date
get_week_day week t = week.back t (current_day week t - 1)

-- `start`; none is the empty text that is left for any other argument.
unfoldable pub start : Week → Span → Date → Option Date
start week daily t = some t
start week weekly t = some (get_week_day week t)
start week monthly t = some (date t.year t.month 1)
start week other t = none

get_day-back :
    (week : Week) (t : Date) (n : ℕ)
    → IsWeek week
    → week.get_day (week.back t n) ≡ (week.get_day t + 6 * n) % 7
get_day-back week t zero w = ap week.get_day (w.back_zero t) ∙ omega (arith, w.day_bound t)
get_day-back week t (suc n) w =
    ap week.get_day (w.back_suc t n)
    ∙ get_day-back week (yesterday t) n w
    ∙ omega (arith, w.day_yesterday t)

-- The start of a week is the Monday at most six days before, and the start of a month the first day of
-- the month.
pub start_lem :
    (week : Week) (t : Date)
    → IsWeek week
    → ((n : ℕ) × (n ≤ 6)
        × (start week weekly t ≡ some (week.back t n))
        × (week.get_day (week.back t n) ≡ 1))
      × (start week monthly t ≡ some (date t.year t.month 1))
unfolding start get_week_day current_day
start_lem week t w = (
  (
    current_day week t - 1,
    ground (arith, w.day_bound t),
    refl,
    get_day-back week t (current_day week t - 1) w ∙ ground (arith, w.day_bound t),
  ),
  refl,
)
