-- ===== src/Router.antt =====
-- The states of frontend/static/app/app.router.js. Each has the url of its parent with its own
-- behind it, as the library ui-router documents; the parent of `a.b.c` is `a.b`.
pub mod Modules
pub mod Loading
pub mod Landing
pub mod Shell
mod Tests
use Prim.Native.Char.{code}
use Prim.Native.String
use chat_bot_hub.Prelude.{
  ℕ, String, str_eq, ◌<>◌, Option, none, some, List, [], ◌∷◌, ◌++◌, Object, get, assign, ◌==◌,
  if◌then◌else◌,
}
use Loading.{Arg, named}

abbrev pub view_path : String
view_path = "views/"

pub data Template : Type 0 where
  template_url : String → Template
  -- The text of a `ui-view` that fills the page.
  ui_view : Template

pub record State : Type 0 where
  pub name : String
  pub url : String
  pub template : Template
  pub controller : Option String
  pub resolve : List Arg
  pub label : String
  pub parent : Option String

-- A state that only holds other states.
abbrev group : String → String → String → State
group name url label = record {
  name = name;
  url = url;
  template = ui_view;
  controller = none;
  resolve = [];
  label = label;
  parent = some "app";
}

abbrev view : String → String → String → String → String → String → State
view name url template controller label parent = record {
  name = name;
  url = url;
  template = template_url (view_path <> template);
  controller = some controller;
  resolve = [];
  label = label;
  parent = some parent;
}

pub data Page : Type 0 where
  app user login manage botslist clientslist failingactions : Page
  contacts chatusers chatgroups filters filterslist filtertemplatesuites : Page

unfoldable pub state : Page → State
state app = record {
  name = "app";
  url = "/app";
  template = template_url (view_path <> "layout/app.html");
  controller = none;
  resolve =
      named "angularMoment"
      ∷ named "ui.ripple"
      ∷ named "ui.datepicker"
      ∷ named "viewLayout"
      ∷ named "ui.maxlength"
      ∷ named "perfect-scrollbar-plugin"
      ∷ named "perfect_scrollbar"
      ∷ named "ui.tree"
      ∷ [];
  label = "首页";
  parent = none;
}
state user = group "app.user" "/user" "用户"
state login = view "app.user.login" "/login" "login/views/login.html" "loginCtrl" "登录" "app.user"
state manage = group "app.manage" "/manage" "管理"
state botslist =
    view "app.manage.botslist" "/botslist" "manage/views/botslist.html" "botslistCtrl" "机器人列表"
      "app.manage"
state clientslist =
    view "app.manage.clientslist" "/clientslist" "manage/views/clientslist.html" "clientslistCtrl"
      "客户端列表" "app.manage"
state failingactions =
    view "app.manage.failingactions" "/failingactions" "manage/views/failingactions.html"
      "failingActionsCtrl" "失败操作列表" "app.manage"
state contacts = group "app.contacts" "/contacts" "联系人"
state chatusers =
    view "app.contacts.chatusers" "/chatusers" "manage/views/chatusers.html" "chatusersCtrl" "联系人列表"
      "app.contacts"
state chatgroups =
    view "app.contacts.chatgroups" "/chatgroups" "manage/views/chatgroups.html" "chatgroupsCtrl"
      "群列表" "app.contacts"
state filters = group "app.filters" "/filters" "过滤器管理"
state filterslist =
    view "app.filters.filterslist" "/filterslist" "manage/views/filterslist.html" "filterslistCtrl"
      "过滤器列表" "app.filters"
state filtertemplatesuites =
    view "app.filters.filtertemplatesuites" "/filtertemplatesuites"
      "filters/views/filtertemplatesuites.html" "filtertemplatesuitesCtrl" "过滤器套件模板" "app.filters"

-- In the order of the calls of `state`.
abbrev pub pages : List Page
pages =
    app ∷ user ∷ login ∷ manage ∷ botslist ∷ clientslist ∷ failingactions ∷ contacts ∷ chatusers
    ∷ chatgroups ∷ filters ∷ filterslist ∷ filtertemplatesuites ∷ []

-- The name in front of the last dot.
unfoldable pub parent_name : String → Option String
parent_name String.[] = none
parent_name (String.◌∷◌ c s) = elim (parent_name s) [
  | some p ↦ some (String.◌∷◌ c p)
  | none ↦ if code c == b'.' then some "" else none
]

-- The urls by name; a state whose parent is not registered waits for it, and is not found.
unfoldable pub register : Object String → State → Object String
register urls s = elim (parent_name s.name) [
  | none ↦ assign urls s.name s.url
  | some p ↦ elim (get urls p) [ none ↦ urls | some above ↦ assign urls s.name (above <> s.url) ]
]

unfoldable pub register_all : Object String → List Page → Object String
register_all urls [] = urls
register_all urls (p ∷ ps) = register_all (register urls (state p)) ps

unfoldable pub state_urls : Object String
state_urls = register_all [] pages

-- The first state with the url.
unfoldable pub matching : Object String → String → Option String
matching [] url = none
matching ((name, u) ∷ more) url = if str_eq u url then some name else matching more url

-- `$urlRouterProvider.otherwise`.
abbrev pub otherwise : String
otherwise = "/app/manage/botslist"

-- The state that a url leads to.
unfoldable pub route : String → Option String
route url = elim (matching state_urls url) [
  | some name ↦ some name
  | none ↦ matching state_urls otherwise
]

-- The url in `window.location.hash`, behind the `#`.
unfoldable pub location : String → String
location String.[] = ""
location (String.◌∷◌ c s) = s

-- The controllers of the pages, with what they ask the injector for.
abbrev list_page : List String
list_page =
    "$scope" ∷ "$modal" ∷ "toastr" ∷ "buildModel" ∷ "buildPromise" ∷ "tools" ∷ "buildModelResId"
    ∷ []

abbrev pub page_controllers : Object (List String)
page_controllers =
    (
      "loginCtrl",
      "$scope" ∷ "toastr" ∷ "buildModel" ∷ "buildPromise" ∷ "tools" ∷ "buildModelResId" ∷ "$sce"
          ∷ "$httpParamSerializer" ∷ "$http" ∷ "$window" ∷ "$timeout" ∷ [],
    )
    ∷ ("botslistCtrl", list_page)
    ∷ ("clientslistCtrl", list_page)
    ∷ ("failingActionsCtrl", list_page)
    ∷ ("chatusersCtrl", list_page)
    ∷ ("chatgroupsCtrl", list_page)
    ∷ ("filterslistCtrl", list_page)
    ∷ ("filtertemplatesuitesCtrl", list_page)
    ∷ []
