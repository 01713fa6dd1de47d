-- ===== src/Traffic.antt =====
-- How the requests of the console pass the interceptors: what `$resource` and `$http` hand to the
-- handler `request` of frontend/static/app/app.config.js, for the services of
-- frontend/static/app/common/services and the dialogs of manage/controller/botslistCtrl.js.
pub mod Protocol
pub mod Queued
pub mod Body
mod Tests
use chat_bot_hub.Query
use chat_bot_hub.Prelude.{ℕ, List, String, Bool, true, false, Option, none, some}
use chat_bot_hub.Js.{Value, Fields, undefined, str, truthy, get_field}
use chat_bot_hub.Service.{Call}
use chat_bot_hub.Http.{Config, Params, Event, sent}
use chat_bot_hub.Dialogs.Submit.{Sent, text_of, params_of}
use chat_bot_hub.Bots.SendAction.{Request}

-- A parameter of a call: the one that is given, or else the default.
unfoldable pub param : Call → String → Value
param c name = elim (get_field c.params name) [ undefined ↦ get_field c.defaults name | v ↦ v ]

abbrev pub as_text : Value → Option String
as_text (str s) = some s
as_text _ = none

-- `$resource` puts every parameter that its url does not name into `config.params`.
unfoldable pub of_call : Call → Config
of_call c = record {
  url = text_of c.url;
  params =
      some
        (record { no_block = truthy (param c "noBlock"); block_id = as_text (param c "blockId") });
  block_id = none;
}

-- `$http` hands on its argument, which has no `params` in the dialogs.
unfoldable pub of_sent : Sent → Config
of_sent s = record { url = s.url; params = none; block_id = none }

unfoldable pub of_request : Request → Config
of_request r = record { url = r.url; params = none; block_id = none }

-- `transformRequest`: an object is written by `param`; a request without `data` stays so.
unfoldable pub transform_request : Sent → Option (List ℕ)
transform_request s = elim s.body [ none ↦ none | some o ↦ some (Query.param (params_of o)) ]
