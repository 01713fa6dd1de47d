-- ===== src/Router/Modules.antt =====
-- `JS_REQUIRES` of frontend/static/app/app.constant.js, and how a name is looked up in it: the
-- function `requiredData` of frontend/static/app/app.router.js.
use chat_bot_hub.Prelude.{
  String, str_eq, ◌<>◌, not, ◌&&◌, Option, none, some, List, [], ◌∷◌, Object, get, if◌then◌else◌,
}

abbrev pub script_path : String
script_path = "js/"

abbrev pub lib_path : String
lib_path = "lib/"

pub record Module : Type 0 where
  pub name : String
  pub files : List String

abbrev module_of : String → List String → Module
module_of n fs = record { name = n; files = fs }

-- Without AngularJS: plugins by name.
unfoldable pub scripts : Object (List String)
scripts =
    (
      "perfect-scrollbar-plugin",
      (lib_path <> "perfect-scrollbar/perfect-scrollbar.min.js")
          ∷ (lib_path <> "perfect-scrollbar/perfect-scrollbar.min.css")
          ∷ [],
    )
    ∷ (
      "ladda",
      (lib_path <> "ladda/spin.js")
          ∷ (lib_path <> "ladda/ladda.min.js")
          ∷ (lib_path <> "ladda/ladda.min.css")
          ∷ [],
    )
    ∷ []

unfoldable pub modules : List Module
modules =
    module_of "perfect_scrollbar"
      ((lib_path <> "angular-perfect-scrollbar/angular-perfect-scrollbar.js") ∷ [])
    ∷ module_of "angular-ladda" ((lib_path <> "angular-ladda/angular-ladda.min.js") ∷ [])
    ∷ module_of "ui.tree" (
        (lib_path <> "jstree/css/default/style.min.css")
        ∷ (lib_path <> "jstree/jstree.min.js")
        ∷ (script_path <> "common/directives/ui-tree.directive.js")
        ∷ [])
    ∷ module_of "ui.datepicker" (
        (lib_path <> "bootstrap-datetimepicker/bootstrap-datetimepicker.min.css")
        ∷ (lib_path <> "bootstrap-datetimepicker/bootstrap-datetimepicker.min.js")
        ∷ (script_path <> "common/directives/ui-datepicker.directive.js")
        ∷ [])
    ∷ module_of "daterangepicker" (
        (lib_path <> "bootstrap-daterangepicker/daterangepicker-bs3.css")
        ∷ (lib_path <> "bootstrap-daterangepicker/daterangepicker.js")
        ∷ (lib_path <> "angular-daterangepicker/angular-daterangepicker.js")
        ∷ [])
    ∷ module_of "angularMoment" ((lib_path <> "angular-moment/angular-moment.min.js") ∷ [])
    ∷ module_of "ui.select2" (
        (lib_path <> "select2/css/select2.min.css")
        ∷ (lib_path <> "select2/css/select2-bootstrap.min.css")
        ∷ (lib_path <> "select2/js/select2.full.min.js")
        ∷ (script_path <> "common/directives/ui-select2.directive.js")
        ∷ [])
    ∷ module_of "ui.maxlength" (
        (lib_path <> "bootstrap-maxlength/bootstrap-maxlength.min.js")
        ∷ (script_path <> "common/directives/ui-maxlength.directive.js")
        ∷ [])
    ∷ module_of "ngAside" (
        (lib_path <> "angular-aside/angular-aside.min.js")
        ∷ (lib_path <> "angular-aside/angular-aside.min.css")
        ∷ [])
    ∷ module_of "ui.ripple" ((script_path <> "common/directives/ui-ripple.directive.js") ∷ [])
    ∷ module_of "ui.sortable" (
        (lib_path <> "jquery/jquery-ui.min.js")
        ∷ (script_path <> "common/directives/ui-sortable.directive.js")
        ∷ [])
    ∷ module_of "jkuri.touchspin" (
        (lib_path <> "bootstrap-touchspin/jquery.bootstrap-touchspin.css")
        ∷ (lib_path <> "bootstrap-touchspin/jquery.bootstrap-touchspin.js")
        ∷ (lib_path <> "angular-touchspin/ngTouchSpin.js")
        ∷ [])
    ∷ module_of "viewLayout" ((script_path <> "common/directives/view-layout.directive.js") ∷ [])
    ∷ module_of "tableCsv" ((lib_path <> "tablecsv/tablecsv.js") ∷ [])
    ∷ []

-- What is handed to `$ocLazyLoad`: a module or the files of a plugin.
pub data Loadable : Type 0 where
  of_module : Module → Loadable
  of_script : List String → Loadable

-- The loop over the modules; `script` is what comes after it.
unfoldable pub find_module : List Module → Option Loadable → String → Option Loadable
find_module [] script name = script
find_module (m ∷ ms) script name =
    if not (str_eq m.name "") && str_eq m.name name
    then some (of_module m)
    else find_module ms script name

-- The properties that every object of the language has are no names here.
unfoldable pub required_data : String → Option Loadable
required_data name =
    find_module modules
      (elim (get scripts name) [ none ↦ none | some files ↦ some (of_script files) ]) name
