-- ===== src/Router/Landing.antt =====
-- Where the urls lead that the program goes to.
use chat_bot_hub.Prelude.{
  String, str_eq, ◌<>◌, Bool, true, false, ◌&&◌, ◌||◌, Option, none, some, List, [], ◌∷◌, ◌++◌, get,
  assign, ◌≡◌, refl, ◌∙◌, arith, and_both,
}
use chat_bot_hub.Dialogs.{services, lists}
use chat_bot_hub.Http.{
  Interceptor, Effect, Event, run, step, sent, answered, rejected, rearmed, redirect_later,
  Rejection, show_error, on_status, response_error, remove_block, unblock_all, dequeue, response,
  request, remove_token,
}
use chat_bot_hub.Router.{
  Page, app, user, login, manage, botslist, clientslist, failingactions, contacts, chatusers,
  chatgroups, filters, filterslist, filtertemplatesuites, state, register, register_all, matching,
  route, state_urls, parent_name, page_controllers, location,
}
use chat_bot_hub.Router.Modules.{required_data, find_module, modules, scripts}
use chat_bot_hub.Router.Loading.{Arg, named, function}

-- What a page's controller can have injected: the application's services, and those of AngularJS.
unfoldable pub injects : List String → Bool
injects [] = true
injects (name ∷ names) =
    (lists services name
      || lists ("$modal" ∷ "$sce" ∷ "$httpParamSerializer" ∷ "$window" ∷ "$timeout" ∷ []) name)
    && injects names

-- The controller is one of the program, and the injector finds all that it asks for.
unfoldable pub can_control : Option String → Bool
can_control none = true
can_control (some c) = elim (get page_controllers c) [ none ↦ false | some names ↦ injects names ]

-- Every name that the state requires is found.
unfoldable pub finds : List Arg → Bool
finds [] = true
finds (function kept ∷ args) = finds args
finds (named name ∷ args) = elim (required_data name) [ none ↦ false | some d ↦ finds args ]

-- The url of the state's parent, which is empty for a state that has none.
unfoldable pub url_above : Option String → Option String
url_above none = some ""
url_above (some p) = get state_urls p

-- Every state of the table stands below the state that its breadcrumb names, has a url that leads
-- to it, requires only what is found, and has a controller that the injector can call.
pub state_lem :
    (p : Page)
    → (parent_name (state p).name ≡ (state p).parent)
      × ((above : String) × (url_above (state p).parent ≡ some above)
          × (get state_urls (state p).name ≡ some (above <> (state p).url))
          × (route (above <> (state p).url) ≡ some (state p).name))
      × (finds (state p).resolve ≡ true)
      × (can_control (state p).controller ≡ true)
unfolding state parent_name url_above get assign state_urls register_all register matching route
    finds required_data find_module modules scripts can_control injects lists
state_lem app = (refl, ("", refl, refl, refl), refl, refl)
state_lem user = (refl, ("/app", refl, refl, refl), refl, refl)
state_lem login = (refl, ("/app/user", refl, refl, refl), refl, refl)
state_lem manage = (refl, ("/app", refl, refl, refl), refl, refl)
state_lem botslist = (refl, ("/app/manage", refl, refl, refl), refl, refl)
state_lem clientslist = (refl, ("/app/manage", refl, refl, refl), refl, refl)
state_lem failingactions = (refl, ("/app/manage", refl, refl, refl), refl, refl)
state_lem contacts = (refl, ("/app", refl, refl, refl), refl, refl)
state_lem chatusers = (refl, ("/app/contacts", refl, refl, refl), refl, refl)
state_lem chatgroups = (refl, ("/app/contacts", refl, refl, refl), refl, refl)
state_lem filters = (refl, ("/app", refl, refl, refl), refl, refl)
state_lem filterslist = (refl, ("/app/filters", refl, refl, refl), refl, refl)
state_lem filtertemplatesuites = (refl, ("/app/filters", refl, refl, refl), refl, refl)

-- An address that the program goes to is that of the login page.
unfoldable pub is_login : Effect → Bool
is_login (redirect_later hash) = elim (route (location hash)) [
  | none ↦ false
  | some name ↦ str_eq name (state login).name
]
is_login _ = true

unfoldable pub all_login : List Effect → Bool
all_login [] = true
all_login (e ∷ es) = is_login e && all_login es

all_login-append : (es fs : List Effect) → all_login (es ++ fs) ≡ (all_login es && all_login fs)
unfolding all_login
all_login-append [] fs = refl
all_login-append (e ∷ es) fs = ground (arith, all_login-append es fs)

to_login : is_login (redirect_later "#/app/user/login") ≡ true
unfolding is_login route location matching state_urls register_all register state parent_name get
    assign
to_login = refl

all_login-unblock_all : (ids : List String) → all_login (unblock_all ids) ≡ true
unfolding all_login is_login unblock_all
all_login-unblock_all [] = refl
all_login-unblock_all (id ∷ ids) = all_login-unblock_all ids

all_login-remove_block : (s : Interceptor) → all_login (remove_block s).1 ≡ true
unfolding all_login remove_block
all_login-remove_block s = ground (arith, all_login-unblock_all s.block_ids)

all_login-show_error : (s : Interceptor) (msg : String) → all_login (show_error s msg).1 ≡ true
unfolding all_login show_error is_login
all_login-show_error s msg = ground arith

all_login-denied :
    (s : Interceptor) (msg : String)
    → all_login ((show_error s msg).1 ++ remove_token ∷ redirect_later "#/app/user/login" ∷ [])
      ≡ true
unfolding all_login is_login
all_login-denied s msg =
    all_login-append (show_error s msg).1 (remove_token ∷ redirect_later "#/app/user/login" ∷ [])
    ∙ and_both (all_login-show_error s msg, and_both (to_login, refl))

all_login-on_status : (s : Interceptor) (r : Rejection) → all_login (on_status s r).1 ≡ true
unfolding on_status all_login
all_login-on_status s r = ground (
  arith,
  all_login-show_error s "未知错误",
  all_login-show_error s "请联系管理员,或没有网络",
  all_login-show_error s "找不到指定的url",
  all_login-show_error s "服务器内部错误",
  all_login-denied s "未登录",
)

all_login-response_error :
    (s : Interceptor) (r : Rejection) → all_login (response_error s r).1 ≡ true
unfolding response_error
all_login-response_error s r =
    let cleared : Interceptor = record s { ajax_queue = [] } in
    let t = remove_block cleared in
    all_login-append t.1 (on_status t.0 r).1
    ∙ and_both (all_login-remove_block cleared, all_login-on_status t.0 r)

all_login-step : (s : Interceptor) (e : Event) → all_login (step s e).1 ≡ true
unfolding step response request all_login is_login
all_login-step s (sent c modals) = ground arith
all_login-step s (answered url) =
    all_login-remove_block (record s { ajax_queue = dequeue url s.ajax_queue })
all_login-step s (rejected r) = all_login-response_error s r
all_login-step s rearmed = refl

-- Whatever happens to the interceptors, each address that they send the page to leads to the state
-- of the login page.
pub redirect_lem : (s : Interceptor) (es : List Event) → all_login (run s es).1 ≡ true
unfolding run
redirect_lem s [] = unfold all_login in refl
redirect_lem s (e ∷ es) =
    all_login-append (step s e).1 (run (step s e).0 es).1
    ∙ and_both (all_login-step s e, redirect_lem (step s e).0 es)
