-- ===== src/Router/Shell.antt =====
-- The shell around the pages: AppCtrl of frontend/static/app/layout/controlers/app.controller.js. The
-- router reports the start of a change of state, and its success if nothing failed of what the states
-- that are entered require. The bar of progress is third-party, and the interceptors call it too: what
-- is told here are the calls of AppCtrl.
use chat_bot_hub.Prelude.{
  ℕ, zero, suc, ◌+◌, String, Bool, true, false, ◌&&◌, ◌||◌, Option, none, some, List, [], ◌∷◌, ◌++◌,
  ◌≡◌, if◌then◌else◌,
}
use chat_bot_hub.Router.{Page, app, user, manage, contacts, filters, state}
use chat_bot_hub.Router.Modules.{Loadable}
use chat_bot_hub.Router.Loading.{Arg, load_sequence}

-- The calls of `cfpLoadingBar`.
pub data Call : Type 0 where
  start complete : Call

-- `watches` are those that were set on the scope of the whole application, and `fresh` those of them
-- that have not been called yet.
pub record Shell : Type 0 where
  -- The state `app`, which holds all others, has been entered.
  pub entered : Bool
  pub watches : ℕ
  pub fresh : ℕ
  pub curr_title : Option String

-- The property `title` of a state.
unfoldable pub title : Page → Option String
title user = some "用户"
title manage = some "管理"
title contacts = some "联系人"
title filters = some "过滤器管理"
title _ = none

-- `$stateChangeStart`.
unfoldable pub on_start : Shell → Shell × List Call
on_start s = (s, start ∷ [])

-- `$stateChangeSuccess`.
unfoldable pub on_success : Page → Shell → Shell
on_success page s = record s {
  watches = s.watches + 1;
  fresh = s.fresh + 1;
  curr_title = title page;
}

unfoldable pub completes : ℕ → List Call
completes zero = []
completes (suc n) = complete ∷ completes n

-- A digest calls each watch that is new; what they watch does not change later.
unfoldable pub digest : Shell → Shell × List Call
digest s = (record s { fresh = 0 }, completes s.fresh)

-- A visit to a state below a group, with which loads succeed, and whether its template is found.
pub record Visit : Type 0 where
  pub page : Page
  pub loads : Loadable → Bool
  pub has_template : Bool

abbrev keeps : (Loadable → Bool) → List Arg → Bool
keeps loads args = elim (load_sequence loads args).failure [ none ↦ true | some f ↦ false ]

-- A group requires nothing.
unfoldable pub succeeds : Bool → Visit → Bool
succeeds entered v =
    (entered || keeps v.loads (state app).resolve)
    && (keeps v.loads (state v.page).resolve && v.has_template)

-- The transition, and the digest in which it ends. Nothing listens to a failure.
unfoldable pub visit : Visit → Shell → Shell × List Call
visit v s =
    let (t, begun) = on_start s in
    let (u, ended) =
      digest
        (if succeeds s.entered v then record (on_success v.page t) { entered = true } else t) in
    (u, begun ++ ended)

unfoldable pub run : List Visit → Shell → Shell × List Call
run [] s = (s, [])
run (v ∷ vs) s = let (t, now) = visit v s in let (u, later) = run vs t in (u, now ++ later)

abbrev pub opened : Shell
opened = record { entered = false; watches = 0; fresh = 0; curr_title = none }

-- The visits that succeed, given whether `app` has been entered.
unfoldable pub successes : Bool → List Visit → ℕ
successes entered [] = 0
successes entered (v ∷ vs) =
    (if succeeds entered v then 1 else 0) + successes (entered || succeeds entered v) vs

-- Each visit starts the bar, and completes it if the visit succeeds.
unfoldable pub expected : Bool → List Visit → List Call
expected entered [] = []
expected entered (v ∷ vs) =
    let rest = expected (entered || succeeds entered v) vs in
    if succeeds entered v then start ∷ complete ∷ rest else start ∷ rest

pub record Ran (s : Shell) (vs : List Visit) (r : Shell × List Call) : Type 0 where
  pub called : r.0.fresh ≡ 0
  pub watches_lem : r.0.watches ≡ s.watches + successes s.entered vs
  pub calls : r.1 ≡ expected s.entered vs
