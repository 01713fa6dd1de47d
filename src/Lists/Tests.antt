-- ===== src/Lists/Tests.antt =====
-- A list page on which a dialog is opened and closed, and the text of a time.
use chat_bot_hub.Prelude.{ℕ, false, String, List, [], ◌∷◌, ◌≡◌, refl}
use chat_bot_hub.Js.{str, codes}
use chat_bot_hub.Dialogs.{lists}
use chat_bot_hub.Lists.{
  bots_plan, opened, Event, dialog_opened, dialog_closed, consts_answered, list_answered, run,
}
use chat_bot_hub.Lists.Times.{Parts, format, padded, last_two}
use chat_bot_hub.Lists.Laws.{without_dialogs, requests, run-without_dialogs}
use chat_bot_hub.Query.Decimal.{decimal, digits_of}

-- The names of what the dialog library returns.
abbrev instance_names : List String
instance_names = "result" ∷ "opened" ∷ "rendered" ∷ "close" ∷ "dismiss" ∷ []

abbrev events : List Event
events = consts_answered (str "c") ∷ list_answered (str "b") ∷ dialog_opened ∷ dialog_closed ∷ []

no_then : lists instance_names "then" ≡ false
unfolding lists
no_then = refl

run-without_dialogs_example :
    ((run instance_names bots_plan (opened bots_plan) events).0
      ≡ (run instance_names bots_plan (opened bots_plan) (without_dialogs events)).0)
    × (requests (run instance_names bots_plan (opened bots_plan) events).1
        ≡ requests (run instance_names bots_plan (opened bots_plan) (without_dialogs events)).1)
run-without_dialogs_example = run-without_dialogs instance_names bots_plan events no_then

-- Whatever the time is.
abbrev parts_of : ℕ → Parts
parts_of t = record { year = 2019; month = 0; date = 31; hours = 9; minutes = 5; seconds = 59 }

shown : format (parts_of 0) ≡ codes "2019-01-31 09:05:59"
unfolding format padded last_two decimal digits_of
shown = refl
