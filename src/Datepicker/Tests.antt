-- ===== src/Datepicker/Tests.antt =====
-- A widget of days, which takes the texts of three of them.
use chat_bot_hub.Prelude.{
  String, Bool, true, false, ◌≡◌, refl, some, none, Option, List, [], ◌∷◌, str_eq, if◌then◌else◌,
  ◌||◌, ◌↔◌, arith,
}
use chat_bot_hub.Datepicker.{
  Widget, Event, picked, written, undefined, text, run, step, digest, on_model, set_date,
  read_or_keep, date_for, model_of, same_date, same_model, happen, options_for, given, format_or,
  on_limit, text_limit, sets,
}

data Day : Type 0 where
  monday tuesday : Day

abbrev day_text : Day → String
day_text monday = "2018-01-01"
day_text tuesday = "2018-01-02"

abbrev read_day : String → Option Day
read_day s =
    if str_eq s "2018-01-01" || str_eq s "2018-1-1"
    then some monday
    else if str_eq s "2018-01-02"
    then some tuesday
    else none

same_day : Day → Day → Bool
same_day monday monday = true
same_day tuesday tuesday = true
same_day _ _ = false

same_day_iff : (d e : Day) → (same_day d e ≡ true) ↔ (d ≡ e)
unfolding same_day
same_day_iff monday monday = (λ _. refl, λ _. refl)
same_day_iff tuesday tuesday = (λ _. refl, λ _. refl)
same_day_iff monday tuesday = (λ h. ground (arith, h), λ h. ground (arith, h))
same_day_iff tuesday monday = (λ h. ground (arith, h), λ h. ground (arith, h))

read-day_text : (d : Day) → (e : Day) × (read_day (day_text d) ≡ some e) × (day_text e ≡ day_text d)
read-day_text monday = (monday, refl, refl)
read-day_text tuesday = (tuesday, refl, refl)

abbrev days : Widget Day
days = record {
  format = day_text;
  read = read_day;
  same = same_day;
  same_iff = same_day_iff;
  read-format = read-day_text;
}

abbrev events : List (Event days)
events =
    written (text "2018-1-1")
    ∷ picked (some tuesday)
    ∷ written (text "soon")
    ∷ picked none
    ∷ written undefined
    ∷ []

-- A text in another form stays at first unread, and becomes the form of the widget with its date.
reformats :
    run days (written (text "2018-1-1") ∷ []) (record { model = undefined; date = none })
    ≡ some (record { model = text "2018-01-01"; date = some monday })
unfolding run step digest on_model set_date read_or_keep date_for model_of same_date same_model
    happen same_day
reformats = refl

-- A text that is no date stays, and the widget keeps the date before it.
keeps_both :
    run days
      (written (text "soon") ∷ [])
      (record { model = text "2018-01-02"; date = some tuesday })
    ≡ some (record { model = text "soon"; date = some tuesday })
unfolding run step digest on_model set_date read_or_keep date_for model_of same_date same_model
    happen same_day
keeps_both = refl

-- An attribute that is empty leaves the options as they are.
usual_options : options_for (some "") none ≡ options_for none (some "")
unfolding options_for given format_or
usual_options = refl

-- A limit that is a text is made a date of the library.
text_limits : on_limit (λ s. str_eq s "2018-01-01") (text_limit "2018-01-01") ≡ sets true
unfolding on_limit
text_limits = refl
