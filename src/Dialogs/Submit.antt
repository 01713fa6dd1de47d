-- ===== src/Dialogs/Submit.antt =====
-- What the buttons of the dialogs and of the rows do. From botslistCtrl.js and filterslistCtrl.js of
-- frontend/static/app/manage/controller, and filtertemplatesuitesCtrl.js of
-- frontend/static/app/filters/controller. The properties of a row are texts or undefined.
pub mod Laws
use chat_bot_hub.Prelude.{
  String, ◌<>◌, Bool, true, false, Option, none, some, List, [], ◌∷◌, Object, get, assign,
}
use chat_bot_hub.Js.{Value, Fields, undefined, str, end, field}
use chat_bot_hub.Service.{
  Location, build_model, build_model_res_id, Call, call, Promised, build_promise, instance_of_call,
}
use chat_bot_hub.Dialogs.{
  Dialog, create_bot, scan_wechat_bot, edit_bot, show_qq_login, show_wechat_login, bot_action,
  show_scan_url, create_filter, edit_filter, create_ft_suite, edit_ft_suite,
}

-- An object whose properties are texts or undefined.
abbrev pub Data : Type 0
Data = Object (Option String)

-- `o.name`.
unfoldable pub value : Data → String → Option String
value o name = elim (get o name) [ none ↦ none | some v ↦ v ]

-- A text or undefined in the place of a text.
unfoldable pub text_of : Option String → String
text_of none = "undefined"
text_of (some s) = s

-- The object in `$resource`'s parameters.
unfoldable pub params_of : Data → Fields
params_of [] = end
params_of ((key, none) ∷ o) = field key undefined (params_of o)
params_of ((key, some s) ∷ o) = field key (str s) (params_of o)

-- An object with these properties, each with the value of that name.
unfoldable pub pick : (String → Option String) → List String → Data
pick value_of [] = []
pick value_of (name ∷ names) = (name, value_of name) ∷ pick value_of names

-- The functions of `resolve`: each yields the row's property of its name, and one is constant.
unfoldable pub resolved : Dialog → Data → String → Option String
resolved scan_wechat_bot row name = some "WECHATBOT"
resolved _ row name = value row name

-- The names of the properties that `$scope.data` starts with in the three editors.
abbrev pub bot_fields : List String
bot_fields =
    "clientId" ∷ "clientType" ∷ "login" ∷ "filterId" ∷ "momentFilterId" ∷ "botName" ∷ "callback"
    ∷ "wxaappId" ∷ "botId" ∷ []

abbrev pub filter_fields : List String
filter_fields = "filterId" ∷ "name" ∷ "type" ∷ "body" ∷ "next" ∷ []

abbrev pub suite_fields : List String
suite_fields = "id" ∷ "name" ∷ []

-- A dialog on the screen: `$scope.data`, the `url` that its controller computed at the start, and
-- whether it has been dismissed.
pub record Opened : Type 0 where
  pub data_ : Data
  pub url : String
  pub dismissed : Bool

-- The body of the dialog's controller, with what is injected by name.
unfoldable pub opened : Dialog → (String → Option String) → Opened
opened create_bot inject = record { data_ = []; url = "/bots"; dismissed = false }
opened scan_wechat_bot inject = record {
  data_ = ("clientType", inject "clientType") ∷ [];
  url = "/bots/scancreate";
  dismissed = true;
}
opened edit_bot inject = record {
  data_ = pick inject bot_fields;
  url = "/bots/" <> text_of (inject "botId");
  dismissed = false;
}
opened show_qq_login inject = record {
  data_ = assign (("clientId", inject "clientId") ∷ []) "clientId" (inject "botId");
  url = "";
  dismissed = false;
}
opened show_wechat_login inject = record {
  data_ =
      ("clientId", inject "clientId")
      ∷ ("botId", inject "botId")
      ∷ ("clientType", some "WECHATBOT")
      ∷ [];
  url = "";
  dismissed = false;
}
opened bot_action inject = record {
  data_ = ("clientId", inject "clientId") ∷ ("login", inject "login") ∷ [];
  url = "/botaction/" <> text_of (inject "login");
  dismissed = false;
}
opened show_scan_url inject = record { data_ = []; url = ""; dismissed = false }
opened create_filter inject = record { data_ = []; url = "/filters"; dismissed = false }
opened edit_filter inject = record {
  data_ = pick inject filter_fields;
  url = "/filters/" <> text_of (inject "filterId");
  dismissed = false;
}
opened create_ft_suite inject = record {
  data_ = [];
  url = "/filtertemplatesuites";
  dismissed = false;
}
opened edit_ft_suite inject = record {
  data_ = pick inject suite_fields;
  url = "/filtertemplatesuites/" <> text_of (inject "id");
  dismissed = false;
}

-- The user types into the inputs, which are bound to `$scope.data`, one after the other.
unfoldable pub typed : Object String → Opened → Opened
typed [] o = o
typed ((name, s) ∷ edits) o = typed edits (record o { data_ = assign o.data_ name (some s) })

unfoldable pub close : Opened → Opened
close o = record o { dismissed = true }

-- What is handed to `$http`; a `body` of none is a request without `data`.
pub record Sent : Type 0 where
  pub method : String
  pub url : String
  pub body : Option Data

-- `saveBot`, `saveFilter` and `saveFTSuite`.
unfoldable pub save : Opened → Opened × Sent
save o = (close o, record { method = "PUT"; url = o.url; body = some o.data_ })

-- `createBot`, `createFilter` and `newFTSuite`.
unfoldable pub create : Opened → Opened × Sent
create o = (close o, record { method = "POST"; url = o.url; body = some o.data_ })

-- `scanCreateBot`.
unfoldable pub scan_create : Opened → Opened × Sent
scan_create o = (o, record { method = "POST"; url = o.url; body = some o.data_ })

-- `rebuildMsgFilters` and `rebuildMomentFilters`; the url is computed at the click.
unfoldable pub rebuild : String → Opened → Opened × Sent
rebuild filters o = (
  o,
  record {
    method = "POST";
    url = "/bots/" <> text_of (value o.data_ "botId") <> filters;
    body = none;
  },
)

-- `addFilterTemplate`.
unfoldable pub add_filter_template : Opened → Opened × Sent
add_filter_template o = (
  o,
  record {
    method = "POST";
    url = "/filtertemplates";
    body = some (
        ("index", value o.data_ "tempIndex")
        ∷ ("type", value o.data_ "tempType")
        ∷ ("name", value o.data_ "tempName")
        ∷ []);
  },
)

-- `login` of `qqLoginCtrl` and `wechatLoginCtrl`: the object is the default of the parameters.
unfoldable pub login : Location → Opened → Opened × Option Call
login loc o = (close o, call (build_model loc "botlogin" (params_of o.data_) []).0 "post" end)

-- `wechatLogin` of a row.
unfoldable pub wechat_login : Location → Data → Option Call
wechat_login loc row =
    call
      (build_model loc "botlogin"
        (params_of (pick (value row) ("clientId" ∷ "clientType" ∷ "botId" ∷ []))) []).0
      "post" end

-- `clearLoginInfo`, `shutdown` and `botLogout` of a row: the call that is made, and what
-- `buildPromise` does with what the call returned.
unfoldable pub row_action : Location → String → Data → Option Call × Promised
row_action loc action row = (
  call (build_model_res_id loc "bots" (text_of (value row "botId") <> action) end []).0 "update"
      end,
  build_promise instance_of_call end none,
)
