-- ===== src/SelectSku/Tests.antt =====
-- A choice with options that ask for the code under another name.
use chat_bot_hub.Prelude.{
  String, str_eq, Bool, true, false, ◌&&◌, some, refl, none, List, [], ◌∷◌, suc, ◌≤◌, ◌≡◌,
  if◌then◌else◌,
}
use chat_bot_hub.Js.{str, arr, no_items}
use chat_bot_hub.SelectSku.{
  Options, Choice, start, Event, typed, entered, answered, failed, run, step, query_for_code, valid,
  model_key,
}
use chat_bot_hub.SelectSku.Laws.{queries, ends, run_lem}

abbrev options : Options
options = record {
  on_before = none;
  model_type = none;
  query_field_name = ("code", "sku") ∷ [];
  params = ("shop", str "s1") ∷ [];
  on_before_modal_open = none;
  size = none;
}

abbrev choice : Choice
choice = record start { code = "A7" }

abbrev events : List Event
events =
    typed "A7" ∷ entered ∷ typed "B" ∷ entered ∷ answered (arr no_items) ∷ entered ∷ failed ∷ []

-- Only the usual list of products is there.
abbrev resources : String → Bool
resources key = str_eq key "productList"

abbrev other_type : Options
other_type = record options { model_type = some "productsList" }

-- A misspelt key locks the input for good.
locked :
    (run resources other_type start events).0 ≡ record start { code = "A7"; request_loading = true }
unfolding run step query_for_code valid model_key
locked = refl

run_lem_example :
    ((run resources other_type start events).0.pending ≡ (
      if resources (model_key other_type)
        && (run resources other_type start events).0.request_loading
      then 1
      else 0))
    × (queries (run resources other_type start events).1 ≤ suc (ends events))
    × (resources (model_key other_type) ≡ false
        → (queries (run resources other_type start events).1 ≡ 0)
          × ((run resources other_type start events).0.request_loading ≡ true
              → (run resources other_type (run resources other_type start events).0 events).0
                ≡ (run resources other_type start events).0))
run_lem_example = run_lem resources other_type events events
