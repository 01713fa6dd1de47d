-- ===== src/Router/Tests.antt =====
-- The routes and the loader at concrete names.
use chat_bot_hub.Prelude.{String, ◌<>◌, true, false, refl, ◌≡◌, some, List, [], ◌∷◌, get, Bool}
use chat_bot_hub.Router.{login, botslist, state, route, state_urls, parent_name}
use chat_bot_hub.Router.Modules.{Loadable, required_data, find_module, modules, scripts}
use chat_bot_hub.Router.Loading.{
  Arg, named, load_sequence, chain, promise_then, callback, attempted, loads_of, first_failure,
  load_sequence_lem,
}
use chat_bot_hub.Router.Shell
use chat_bot_hub.Router.Shell.{Visit, expected}
use chat_bot_hub.Router.Landing.{url_above, finds, can_control, state_lem}

-- Each load succeeds.
abbrev succeeds : Loadable → Bool
succeeds d = true

abbrev names : List Arg
names = named "ladda" ∷ named "ui.select3" ∷ named "ui.tree" ∷ []

load_sequence_lem_example :
    ((load_sequence succeeds names).begun ≡ loads_of succeeds (attempted succeeds names))
    × ((load_sequence succeeds names).failure ≡ first_failure succeeds names)
load_sequence_lem_example = load_sequence_lem succeeds names

state_lem_example :
    (parent_name (state login).name ≡ (state login).parent)
    × ((above : String) × (url_above (state login).parent ≡ some above)
        × (get state_urls (state login).name ≡ some (above <> (state login).url))
        × (route (above <> (state login).url) ≡ some (state login).name))
    × (finds (state login).resolve ≡ true)
    × (can_control (state login).controller ≡ true)
state_lem_example = state_lem login

-- The login page, and then the bots, whose template is missing.
abbrev visits : List Visit
visits =
    record { page = login; loads = succeeds; has_template = true }
    ∷ record { page = botslist; loads = succeeds; has_template = false }
    ∷ []

-- The second visit leaves the bar as it was started.
expected-visits : expected false visits ≡ Shell.start ∷ Shell.complete ∷ Shell.start ∷ []
unfolding expected Shell.succeeds load_sequence chain promise_then callback required_data state
    modules scripts find_module get
expected-visits = refl
