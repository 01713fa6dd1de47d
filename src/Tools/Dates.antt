-- ===== src/Tools/Dates.antt =====
-- The dates of frontend/static/app/common/services/tools.service.js, around the library moment, which is
-- given with what is documented of it, and the export url that is cleared.
use chat_bot_hub.Prelude.{
  ℕ, String, str_eq, Bool, true, false, Option, none, some, Object, assign, ◌≡◌, refl, ap, ◌∙◌,
  if◌then◌else◌,
}
use chat_bot_hub.Prelude.Int.{ℤ, pos, ◌+ℤ◌, ◌-ℤ◌, +ℤ_cancel}
use chat_bot_hub.Js.{Value, str}

-- What the service asks of a moment: `today` is the moment of the text of today, and the setters carry
-- over what is out of range.
pub record Moments (M : Type 0) : Type 0 where
  pub today : M
  pub date : M → ℤ
  pub month : M → ℤ
  pub second : M → ℤ
  pub set_date : ℤ → M → M
  pub set_month : ℤ → M → M
  pub set_second : ℤ → M → M
  pub format : M → String → String

-- An argument that is left out or empty.
abbrev or_default : Option String → String → String
or_default none d = d
or_default (some s) d = if str_eq s "" then d else s

module _ {M : Type 0} (m : Moments M) where
  unfoldable pub get_day_start : M
  get_day_start = m.today

  unfoldable pub get_day_end : M
  get_day_end =
      let end = m.set_date (m.date get_day_start +ℤ pos 1) get_day_start in
      m.set_second (m.second end -ℤ pos 1) end

  unfoldable pub get_date : Bool → M
  get_date is_end = if is_end then get_day_end else get_day_start

  unfoldable pub format_moment : M → Option String → String
  format_moment instance_ format = m.format instance_ (or_default format "YYYY-MM-DD HH:mm:ss")

  -- The moment that `getDiffDate` formats.
  unfoldable pub diff_date : ℤ → Bool → M
  diff_date diff is_end = let now = get_date is_end in m.set_date (m.date now +ℤ diff) now

  unfoldable pub get_diff_date : ℤ → Bool → Option String → String
  get_diff_date diff is_end format = format_moment (diff_date diff is_end) format

  unfoldable pub get_diff_month : ℤ → Bool → Option String → String
  get_diff_month diff is_end format =
      let now = get_date is_end in format_moment (m.set_month (m.month now +ℤ diff) now) format

-- A moment is a second of a day, in a calendar whose days all have 86400 seconds.
pub record IsCalendar {M : Type 0} (m : Moments M) (day : M → ℤ) (seconds : M → ℕ) : Type 0 where
  pub seconds-today : seconds m.today ≡ 0
  pub day-set_date : (n : ℤ) (t : M) → day (m.set_date (m.date t +ℤ n) t) ≡ day t +ℤ n
  pub seconds-set_date : (n : ℤ) (t : M) → seconds (m.set_date n t) ≡ seconds t
  -- A second before the start of a day.
  pub day-set_second :
      (t : M) → seconds t ≡ 0 → day (m.set_second (m.second t -ℤ pos 1) t) ≡ day t -ℤ pos 1
  pub seconds-set_second :
      (t : M) → seconds t ≡ 0 → seconds (m.set_second (m.second t -ℤ pos 1) t) ≡ 86399

module _ {M : Type 0} (m : Moments M) (day : M → ℤ) (seconds : M → ℕ)
    (calendar : IsCalendar m day seconds) where
  get_date_lem :
      (is_end : Bool)
      → (day (get_date m is_end) ≡ day m.today)
        × (seconds (get_date m is_end) ≡ (if is_end then 86399 else 0))
  unfolding get_date get_day_end get_day_start
  get_date_lem false = (refl, calendar.seconds-today)
  get_date_lem true =
      let end = m.set_date (m.date m.today +ℤ pos 1) m.today in
      let start : seconds end ≡ 0 =
        calendar.seconds-set_date (m.date m.today +ℤ pos 1) m.today ∙ calendar.seconds-today in
      (
        calendar.day-set_second end start
            ∙ ap (◌-ℤ pos 1) (calendar.day-set_date (pos 1) m.today)
            ∙ +ℤ_cancel (day m.today) (pos 1),
        calendar.seconds-set_second end start,
      )

  -- `getDiffDate` gives the day that lies so many days from today, at its start, or at its last second.
  pub diff_date_lem :
      (diff : ℤ) (is_end : Bool)
      → (day (diff_date m diff is_end) ≡ day m.today +ℤ diff)
        × (seconds (diff_date m diff is_end) ≡ (if is_end then 86399 else 0))
  unfolding diff_date
  diff_date_lem diff is_end =
      let now = get_date m is_end in
      let at = get_date_lem is_end in
      (
        calendar.day-set_date diff now ∙ ap (◌+ℤ diff) at.0,
        calendar.seconds-set_date (m.date now +ℤ diff) now ∙ at.1,
      )

-- `clearExportUrl`, once its timer has fired.
unfoldable pub clear_export_url : Option String → Object Value → Object Value
clear_export_url key data_ = assign data_ (or_default key "exportExcelUrl") (str "")
