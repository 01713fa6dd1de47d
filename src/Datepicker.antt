-- ===== src/Datepicker.antt =====
-- The directive of frontend/static/app/common/directives/ui-datepicker.directive.js: a value of a form,
-- and a widget for dates. Each change of the widget writes the value, and each change of the value is
-- handed to the widget, within one digest. The widget is third-party: it is given by how it reads and
-- writes texts.
pub mod Laws
mod Tests
use chat_bot_hub.Prelude.{
  ℕ, zero, suc, String, str_eq, Bool, true, false, not, Option, none, some, List, [], ◌∷◌, ◌≡◌, ◌↔◌,
  if◌then◌else◌,
}

pub record Widget (D : Type 0) : Type 0 where
  -- `date.format(options.format)`.
  pub format : D → String
  -- The date that the widget takes for a text, and none where it reports an error.
  pub read : String → Option D
  pub same : D → D → Bool
  pub same_iff : (d e : D) → (same d e ≡ true) ↔ (d ≡ e)
  -- What it has written it reads, perhaps without the hours, and writes again.
  pub read-format : (d : D) → (e : D) × (read (format d) ≡ some e) × (format e ≡ format d)

pub data Model : Type 0 where
  undefined null : Model
  text : String → Model

unfoldable pub same_model : Model → Model → Bool
same_model undefined undefined = true
same_model null null = true
same_model (text s) (text t) = str_eq s t
same_model _ _ = false

-- `scope.ngModel`, and the date of the widget.
pub record Picker (D : Type 0) : Type 0 where
  pub model : Model
  pub date : Option D

module _ {D : Type 0} (wd : Widget D) where
  unfoldable pub same_date : Option D → Option D → Bool
  same_date none none = true
  same_date (some d) (some e) = wd.same d e
  same_date _ _ = false

  -- `e.date ? e.date.format(options.format) : null`.
  unfoldable pub model_of : Option D → Model
  model_of none = null
  model_of (some d) = text (wd.format d)

  -- The widget gets a date; it reports `dp.change` where the date is another one.
  unfoldable pub set_date : Option D → Picker D → Picker D
  set_date d p =
      if same_date d p.date then record p { date = d } else record { model = model_of d; date = d }

  -- The date that the widget has behind `date(text)`.
  unfoldable pub read_or_keep : Option D → Option D → Option D
  read_or_keep none old = old
  read_or_keep (some d) old = some d

  unfoldable pub date_for : Model → Option D → Option D
  date_for undefined old = none
  date_for null old = none
  date_for (text s) old = read_or_keep (wd.read s) old

  -- The watch of `ngModel`.
  unfoldable pub on_model : Picker D → Picker D
  on_model p = set_date (date_for p.model p.date) p

  -- The digest calls the watch as long as the value is not the one that it saw last; when it has called
  -- it so many times and the value is another one still, it gives up, which is none.
  unfoldable pub digest : ℕ → Model → Picker D → Option (Picker D)
  digest zero seen p = if same_model p.model seen then some p else none
  digest (suc n) seen p =
      let again = digest n p.model (on_model p) in if same_model p.model seen then some p else again

  pub data Event : Type 0 where
    -- The user picks a date or clears it; the program writes a value.
    picked : Option D → Event
    written : Model → Event

  unfoldable pub happen : Event → Picker D → Picker D
  happen (picked d) p = set_date d p
  happen (written v) p = record p { model = v }

  -- An event and its digest, which calls the watch at most ten times.
  unfoldable pub step : Event → Picker D → Option (Picker D)
  step e p = digest 10 p.model (happen e p)

  unfoldable pub run : List Event → Picker D → Option (Picker D)
  run [] p = some p
  run (e ∷ es) p = elim (step e p) [ none ↦ none | some q ↦ run es q ]

  -- The page with a value: the first call of the watch, and then the events.
  unfoldable pub session : Model → List Event → Option (Picker D)
  session v es = elim (digest 9 v (on_model (record { model = v; date = none }))) [
    | none ↦ none
    | some p ↦ run es p
  ]

-- The options that the widget is made with.
pub record Options : Type 0 where
  locale : String
  format : String
  show_clear : Bool
  view_mode : Option String

-- An attribute that is not there or is empty counts as false.
unfoldable pub given : Option String → Option String
given none = none
given (some s) = if str_eq s "" then none else some s

unfoldable pub format_or : String → Option String → String
format_or usual none = usual
format_or usual (some f) = f

unfoldable pub options_for : Option String → Option String → Options
options_for fmt min_view = record {
  locale = "zh-cn";
  format = format_or "YYYY-MM-DD" (given fmt);
  show_clear = true;
  view_mode = given min_view;
}

-- A limit: what counts as false, a text, an object, or another value.
pub data Limit (M : Type 0) : Type 0 where
  missing other : Limit M
  text_limit : String → Limit M
  moment_limit : M → Limit M

pub data LimitCall (M : Type 0) : Type 0 where
  clears : LimitCall M
  sets : M → LimitCall M
  nothing : LimitCall M

-- The watches of `minDate` and `maxDate`, with `moment(text)`.
unfoldable pub on_limit : {M : Type 0} → (String → M) → Limit M → LimitCall M
on_limit moment missing = clears
on_limit moment (text_limit s) = sets (moment s)
on_limit moment (moment_limit m) = sets m
on_limit moment other = nothing
