-- ===== src/Dialogs/Controllers.antt =====
-- The controllers of the dialogs, with what they ask the injector for: the `$inject` lists of
-- botslistCtrl.js and filterslistCtrl.js of frontend/static/app/manage/controller, and of
-- filtertemplatesuitesCtrl.js of frontend/static/app/filters/controller.
use chat_bot_hub.Prelude.{String, List, [], ◌∷◌, ◌++◌, Object}

abbrev pub bot_controllers : Object (List String)
bot_controllers =
    (
      "qqLoginCtrl",
      "$scope" ∷ "$uibModalInstance" ∷ "toastr" ∷ "buildModel" ∷ "buildPromise" ∷ "tools"
          ∷ "clientId" ∷ "botId" ∷ [],
    )
    ∷ (
      "wechatLoginCtrl",
      "$scope" ∷ "$uibModalInstance" ∷ "toastr" ∷ "buildModel" ∷ "buildPromise" ∷ "tools"
          ∷ "clientId" ∷ "botId" ∷ [],
    )
    ∷ (
      "botActionCtrl",
      "$http" ∷ "$scope" ∷ "$uibModalInstance" ∷ "toastr" ∷ "buildModel" ∷ "buildModelResId"
          ∷ "buildPromise" ∷ "tools" ∷ "clientId" ∷ "login" ∷ [],
    )
    ∷ (
      "editBotCtrl",
      "$http" ∷ "$scope" ∷ "$uibModalInstance" ∷ "toastr" ∷ "buildModel" ∷ "buildModelResId"
          ∷ "buildPromise" ∷ "tools" ∷ "clientId" ∷ "clientType" ∷ "botName" ∷ "login" ∷ "filterId"
          ∷ "momentFilterId" ∷ "callback" ∷ "wxaappId" ∷ "botId" ∷ [],
    )
    ∷ (
      "createBotCtrl",
      "$http" ∷ "$scope" ∷ "$uibModalInstance" ∷ "toastr" ∷ "buildModel" ∷ "buildModelResId"
          ∷ "buildPromise" ∷ "tools" ∷ [],
    )
    ∷ (
      "scanWechatBotCtrl",
      "$http" ∷ "$scope" ∷ "$uibModalInstance" ∷ "toastr" ∷ "buildModel" ∷ "buildModelResId"
          ∷ "buildPromise" ∷ "tools" ∷ "clientType" ∷ [],
    )
    ∷ (
      "scanUrlCtrl",
      "$http" ∷ "$scope" ∷ "$uibModalInstance" ∷ "toastr" ∷ "buildModel" ∷ "buildModelResId"
          ∷ "buildPromise" ∷ "tools" ∷ "botId" ∷ [],
    )
    ∷ []

abbrev pub filter_controllers : Object (List String)
filter_controllers =
    (
      "createFilterCtrl",
      "$http" ∷ "$scope" ∷ "$uibModalInstance" ∷ "toastr" ∷ "buildModel" ∷ "buildModelResId"
          ∷ "buildPromise" ∷ "tools" ∷ [],
    )
    ∷ (
      "editFilterCtrl",
      "$http" ∷ "$scope" ∷ "$uibModalInstance" ∷ "toastr" ∷ "buildModel" ∷ "buildModelResId"
          ∷ "buildPromise" ∷ "tools" ∷ "name" ∷ "type" ∷ "body" ∷ "next" ∷ "filterId" ∷ [],
    )
    ∷ []

abbrev pub suite_controllers : Object (List String)
suite_controllers =
    (
      "createFilterTSCtrl",
      "$http" ∷ "$scope" ∷ "$uibModalInstance" ∷ "toastr" ∷ "buildModel" ∷ "buildModelResId"
          ∷ "buildPromise" ∷ "tools" ∷ [],
    )
    ∷ (
      "editFTSuiteCtrl",
      "$http" ∷ "$scope" ∷ "$uibModalInstance" ∷ "toastr" ∷ "buildModel" ∷ "buildModelResId"
          ∷ "buildPromise" ∷ "tools" ∷ "name" ∷ "id" ∷ [],
    )
    ∷ []

-- The functions are found by their names.
unfoldable pub controllers : Object (List String)
controllers = bot_controllers ++ (filter_controllers ++ suite_controllers)
