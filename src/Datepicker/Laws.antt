-- ===== src/Datepicker/Laws.antt =====
-- The exchange between the value and the widget ends, and the two agree.
use chat_bot_hub.Prelude.{ℕ, String, Option, none, some, ◌≡◌}
use chat_bot_hub.Datepicker.{Widget, Model, undefined, text, Picker, model_of, digest}

module _ {D : Type 0} (wd : Widget D) where
  -- The value is unset, as the date is; or it is the text of the date, or null without a date; or the
  -- widget reads the date from it; or it is a text that is no date.
  pub data Agrees : Picker D → Type 0 where
    unset : {p : Picker D} → p.model ≡ undefined → p.date ≡ none → Agrees p
    text_of_date : {p : Picker D} → p.model ≡ model_of wd p.date → Agrees p
    date_of_text : {p : Picker D} (s : String) → p.model ≡ text s → p.date ≡ wd.read s → Agrees p
    invalid : {p : Picker D} (s : String) → p.model ≡ text s → wd.read s ≡ none → Agrees p

  abbrev at : Model → Option D → Picker D
  at v d = record { model = v; date = d }

  abbrev Ends : ℕ → Model → Picker D → Type 0
  Ends n seen p = (q : Picker D) × (digest wd n seen p ≡ some q) × Agrees q
