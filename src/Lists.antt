-- ===== src/Lists.antt =====
-- The list pages: botslistCtrl.js, clientslistCtrl.js, failingActionsCtrl.js and filterslistCtrl.js of
-- frontend/static/app/manage/controller, and filtertemplatesuitesCtrl.js of
-- frontend/static/app/filters/controller. What each asks the server for, what it shows, and what
-- becomes of the dialogs that it opens. Texts of times are in Lists.Times.
pub mod Times
pub mod Laws
mod Tests
use chat_bot_hub.Prelude.{
  ℕ, zero, suc, ◌+◌, ◌-◌, String, Bool, true, false, Option, none, some, List, [], ◌∷◌, ◌++◌,
  if◌then◌else◌, ltb,
}
use chat_bot_hub.Js.{Value}
use chat_bot_hub.Dialogs.{lists}

-- How `refresh` of a page proceeds: whether it asks for the constants first, the key of its list, and
-- the title of the message when the list cannot be had.
pub record Plan : Type 0 where
  pub has_consts : Bool
  pub key : String
  pub failure_title : Option String

abbrev pub bots_plan : Plan
bots_plan = record { has_consts = true; key = "bots"; failure_title = none }

abbrev pub clients_plan : Plan
clients_plan = record { has_consts = true; key = "clients"; failure_title = none }

abbrev pub failing_plan : Plan
failing_plan = record { has_consts = false; key = "botactions/failing"; failure_title = none }

abbrev pub filters_plan : Plan
filters_plan = record { has_consts = false; key = "filters"; failure_title = some "获取过滤器失败" }

abbrev pub suites_plan : Plan
suites_plan = record {
  has_consts = false;
  key = "filtertemplatesuites";
  failure_title = some "获取过滤器套件模板失败";
}

-- What is on the scope, how many answers are awaited, and how many open dialogs refresh the page when
-- they are closed.
pub record Scope : Type 0 where
  pub body : Option Value
  pub consts : Option Value
  pub consts_pending : ℕ
  pub list_pending : ℕ
  pub watched : ℕ

pub data Effect : Type 0 where
  asks : String → Effect
  toast_error : Value → String → Effect
  type_error : Effect

-- The request for the list.
unfoldable pub ask_list : Plan → Scope → Scope × List Effect
ask_list p s = (record s { list_pending = s.list_pending + 1 }, asks p.key ∷ [])

unfoldable pub refresh : Plan → Scope → Scope × List Effect
refresh p s =
    if p.has_consts
    then (record s { consts_pending = s.consts_pending + 1 }, asks "consts" ∷ [])
    else ask_list p s

-- `initView`.
unfoldable pub init_view : Value → Scope → Scope
init_view data_ s = record s { body = some data_ }

unfoldable pub on_consts : Plan → Value → Scope → Scope × List Effect
on_consts p data_ s =
    ask_list p (record s { consts = some data_; consts_pending = s.consts_pending - 1 })

unfoldable pub on_list : Value → Scope → Scope × List Effect
on_list data_ s = (init_view data_ (record s { list_pending = s.list_pending - 1 }), [])

-- Only two pages catch the failure.
unfoldable pub on_list_failure : Plan → Value → Scope → Scope × List Effect
on_list_failure p err s = (
  record s { list_pending = s.list_pending - 1 },
  elim p.failure_title [ none ↦ [] | some title ↦ toast_error err title ∷ [] ],
)

-- `$modal.open({...}).then(...)`, by the names that the third-party `$modal.open` gives to what it
-- returns: without a `then` the call of it is a TypeError, behind the dialog that is open by now.
unfoldable pub open_dialog : List String → Scope → Scope × List Effect
open_dialog instance_names s =
    if lists instance_names "then"
    then (record s { watched = s.watched + 1 }, [])
    else (s, type_error ∷ [])

unfoldable pub on_close : Plan → Scope → Scope × List Effect
on_close p s = if ltb 0 s.watched then refresh p (record s { watched = s.watched - 1 }) else (s, [])

-- What the user and the server do; the server answers only what is pending. `recovered` is the answer
-- to a recovery of a failing action or client, which only one of the pages has; and two pages open no
-- dialogs.
pub data Event : Type 0 where
  refreshed recovered dialog_opened dialog_closed consts_failed : Event
  consts_answered list_answered list_failed : Value → Event

unfoldable pub step : List String → Plan → Scope → Event → Scope × List Effect
step names p s refreshed = refresh p s
step names p s recovered = refresh p s
step names p s dialog_opened = open_dialog names s
step names p s dialog_closed = on_close p s
step names p s consts_failed =
    if ltb 0 s.consts_pending
    then (record s { consts_pending = s.consts_pending - 1 }, [])
    else (s, [])
step names p s (consts_answered v) = if ltb 0 s.consts_pending then on_consts p v s else (s, [])
step names p s (list_answered v) = if ltb 0 s.list_pending then on_list v s else (s, [])
step names p s (list_failed err) = if ltb 0 s.list_pending then on_list_failure p err s else (s, [])

unfoldable pub run : List String → Plan → Scope → List Event → Scope × List Effect
run names p s [] = (s, [])
run names p s (e ∷ es) =
    let (t, now) = step names p s e in let (u, later) = run names p t es in (u, now ++ later)

-- The controller's body: an empty scope, and `refresh()`.
abbrev blank : Scope
blank = record { body = none; consts = none; consts_pending = 0; list_pending = 0; watched = 0 }

unfoldable pub opened : Plan → Scope
opened p = (refresh p blank).0
