-- ===== src/Dialogs.antt =====
-- The dialogs of the list pages: what `$modal.open` is given, what the controller behind a dialog
-- asks to have injected, and the requests that its buttons send. From botslistCtrl.js and
-- filterslistCtrl.js of frontend/static/app/manage/controller, and filtertemplatesuitesCtrl.js of
-- frontend/static/app/filters/controller.
pub mod Controllers
pub mod Injection
pub mod Submit
mod Tests
use chat_bot_hub.Prelude.{
  String, str_eq, Bool, true, false, ◌&&◌, ◌||◌, if◌then◌else◌, none, some, List, [], ◌∷◌, get,
}
use Controllers.{controllers}

-- The calls of `$modal.open` in the three pages.
pub data Dialog : Type 0 where
  create_bot scan_wechat_bot edit_bot show_qq_login show_wechat_login bot_action : Dialog
  show_scan_url create_filter edit_filter create_ft_suite edit_ft_suite : Dialog

pub record Options : Type 0 where
  pub template_url : String
  pub controller : String
  pub resolve : List String

abbrev opening : String → String → List String → Options
opening template controller names = record {
  template_url = template;
  controller = controller;
  resolve = names;
}

-- The argument of `$modal.open`; of `resolve` the names that it provides.
unfoldable pub options : Dialog → Options
options create_bot = opening "createBotTemplate" "createBotCtrl" []
options scan_wechat_bot = opening "scanWechatBotTemplate" "scanWechatBotCtrl" ("clientType" ∷ [])
options edit_bot = opening "editBotTemplate" "editBotCtrl" (
    "clientId" ∷ "clientType" ∷ "botName" ∷ "login" ∷ "filterId" ∷ "momentFilterId" ∷ "callback"
    ∷ "wxaappId" ∷ "botId" ∷ [])
options show_qq_login = opening "loginQQTemplate" "qqLoginCtrl" ("clientId" ∷ [])
options show_wechat_login =
    opening "loginWechatTemplate" "wechatLoginCtrl" ("clientId" ∷ "botId" ∷ [])
options bot_action = opening "botActionTemplate" "botActionCtrl" ("clientId" ∷ "login" ∷ [])
options show_scan_url =
    opening "scanUrlTemplate" "scanUrlCtrl" ("clientId" ∷ "login" ∷ "botId" ∷ [])
options create_filter = opening "createFilterTemplate" "createFilterCtrl" []
options edit_filter =
    opening "editFilterTemplate" "editFilterCtrl"
      ("name" ∷ "filterId" ∷ "type" ∷ "body" ∷ "next" ∷ [])
options create_ft_suite = opening "createFTSuiteTemplate" "createFTSuiteCtrl" []
options edit_ft_suite = opening "editFTSuiteTemplate" "editFTSuiteCtrl" ("name" ∷ "id" ∷ [])

-- What can be injected into the controller of any dialog: the application's services, and the two
-- values that the modal service provides.
abbrev pub services : List String
services =
    "$http" ∷ "$scope" ∷ "$uibModalInstance" ∷ "toastr" ∷ "buildModel" ∷ "buildModelResId"
    ∷ "buildPromise" ∷ "tools" ∷ []

unfoldable pub lists : List String → String → Bool
lists [] name = false
lists (n ∷ ns) name = if str_eq n name then true else lists ns name

-- Each name that is asked for is a service or provided by `resolve`.
unfoldable pub provided : List String → List String → Bool
provided resolve [] = true
provided resolve (name ∷ names) =
    (lists services name || lists resolve name) && provided resolve names

-- The dialog can be opened: its controller is a function of the program, and the injector finds
-- all that it asks for.
unfoldable pub opens : Dialog → Bool
opens d = elim (get controllers (options d).controller) [
  | none ↦ false
  | some inject ↦ provided (options d).resolve inject
]
