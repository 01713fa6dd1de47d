-- ===== src/Dialogs/Submit/Laws.antt =====
-- What the buttons send, against the row that a dialog was opened for.
use chat_bot_hub.Prelude.{
  String, str_eq, eq_iff, ◌<>◌, true, ◌≡◌, refl, Option, none, some, List, [], ◌∷◌, Object, get,
  assign, get-assign, ap, sym, ◌∙◌, arith, if◌then◌else◌,
}
use chat_bot_hub.Js.{Value, undefined, str, end, get_field}
use chat_bot_hub.Service.{
  Location, build_url, urls, extend, build_model, Call, call, type_error, build_promise,
}
use chat_bot_hub.Service.Urls.{has, call-build_model_res_id}
use chat_bot_hub.Dialogs.{Dialog, edit_bot, edit_filter, edit_ft_suite, show_wechat_login, lists}
use chat_bot_hub.Dialogs.Submit.{
  Data, value, text_of, params_of, pick, resolved, bot_fields, filter_fields, suite_fields, Opened,
  opened, typed, save, login, wechat_login, row_action, close, Sent,
}

-- The property that a text is bound to after all that was typed.
unfoldable pub last_typed : Object String → String → Option String → Option String
last_typed [] name old = old
last_typed ((key, s) ∷ edits) name old =
    last_typed edits name (if str_eq key name then some s else old)

value-assign :
    (o : Data) (key name : String) (s : String)
    → value (assign o key (some s)) name ≡ (if str_eq key name then some s else value o name)
unfolding value
value-assign o key name s = ground (arith, get-assign o key name (some s))

value-typed :
    (edits : Object String) (o : Opened) (name : String)
    → value (typed edits o).data_ name ≡ last_typed edits name (value o.data_ name)
unfolding typed last_typed
value-typed [] o name = refl
value-typed ((key, s) ∷ edits) o name =
    value-typed edits (record o { data_ = assign o.data_ key (some s) }) name
    ∙ ap (last_typed edits name) (value-assign o.data_ key name s)

url-typed : (edits : Object String) (o : Opened) → (typed edits o).url ≡ o.url
unfolding typed
url-typed [] o = refl
url-typed ((key, s) ∷ edits) o = url-typed edits (record o { data_ = assign o.data_ key (some s) })

value-pick :
    (value_of : String → Option String) (names : List String) (name : String)
    → value (pick value_of names) name ≡ (if lists names name then value_of name else none)
unfolding value pick get lists
value-pick f [] name = refl
value-pick f (n ∷ names) name =
    let same : str_eq n name ≡ true → f n ≡ f name = λ h. ap f ((eq_iff n name).0 h) in
    ground (arith, value-pick f names name, same)

-- The three dialogs that edit a row.
pub data Editor : Type 0 where
  bot filter suite : Editor

abbrev pub dialog : Editor → Dialog
dialog bot = edit_bot
dialog filter = edit_filter
dialog suite = edit_ft_suite

-- The collection of the server, and the property that identifies a row in it.
abbrev pub collection : Editor → String
collection bot = "/bots/"
collection filter = "/filters/"
collection suite = "/filtertemplatesuites/"

abbrev pub identity : Editor → String
identity bot = "botId"
identity filter = "filterId"
identity suite = "id"

abbrev pub edited : Editor → List String
edited bot = bot_fields
edited filter = filter_fields
edited suite = suite_fields

abbrev pub editing : Editor → Data → Opened
editing e row = opened (dialog e) (resolved (dialog e) row)

editing_lem :
    (e : Editor) (row : Data) (name : String)
    → ((editing e row).url ≡ collection e <> text_of (value row (identity e)))
      × (value (editing e row).data_ name
          ≡ (if lists (edited e) name then value row name else none))
unfolding opened resolved
editing_lem bot row name = (refl, value-pick (value row) bot_fields name)
editing_lem filter row name = (refl, value-pick (value row) filter_fields name)
editing_lem suite row name = (refl, value-pick (value row) suite_fields name)

abbrev put : Data → String → Sent
put body url = record { method = "PUT"; url = url; body = some body }

-- The data of an editor after all that was typed.
pub value-typed-editing :
    (e : Editor) (row : Data) (edits : Object String) (name : String)
    → value (typed edits (editing e row)).data_ name
      ≡ last_typed edits name (if lists (edited e) name then value row name else none)
value-typed-editing e row edits name =
    value-typed edits (editing e row) name ∙ ap (last_typed edits name) ((editing_lem e row name).1)

-- Whatever was typed in an editor, a save puts one body to the url of the row that it was opened
-- for, even if the row's identity was edited; the body has for each name the text that was typed
-- last, or else the row's value if it is a property of the editor; and the dialog is dismissed.
pub save-typed :
    (e : Editor) (row : Data) (edits : Object String)
    → (body : Data) × ((save (typed edits (editing e row))).1 ≡ record {
      method = "PUT";
      url = collection e <> text_of (value row (identity e));
      body = some body;
    })
      × ((name : String)
          → value body name
            ≡ last_typed edits name (if lists (edited e) name then value row name else none))
      × ((save (typed edits (editing e row))).0.dismissed ≡ true)
unfolding save close
save-typed e row edits =
    let shown : Opened = typed edits (editing e row) in
    (
      shown.data_,
      ap (put shown.data_) (url-typed edits (editing e row) ∙ (editing_lem e row "").0),
      value-typed-editing e row edits,
      refl,
    )

value_params : (o : Data) (name : String) → Value
value_params o name = elim (value o name) [ none ↦ undefined | some s ↦ str s ]

get_field-params_of :
    (o : Data) (name : String) → get_field (params_of o) name ≡ value_params o name
unfolding get_field params_of value_params value get
get_field-params_of [] name = refl
get_field-params_of ((key, none) ∷ o) name = ground (arith, get_field-params_of o name)
get_field-params_of ((key, some s) ∷ o) name = ground (arith, get_field-params_of o name)

abbrev login_data : Data → Data
login_data row =
    ("clientId", value row "clientId")
    ∷ ("botId", value row "botId")
    ∷ ("clientType", some "WECHATBOT")
    ∷ []

same_login :
    (row : Data) (name : String)
    → value row "clientType" ≡ some "WECHATBOT"
    → value (login_data row) name
      ≡ value (pick (value row) ("clientId" ∷ "clientType" ∷ "botId" ∷ [])) name
unfolding value get pick
same_login row name h =
    ground (arith, h, eq_iff "clientId" name, eq_iff "clientType" name, eq_iff "botId" name)

-- For a row of a WECHATBOT, the login of the untouched dialog makes the same request as the direct
-- login of the row, up to the order of the parameters.
pub login-wechat_login :
    (loc : Location) (row : Data)
    → value row "clientType" ≡ some "WECHATBOT"
    → (dialog_call row_call : Call) × ((login loc
          (opened show_wechat_login (resolved show_wechat_login row))).1
        ≡ some dialog_call)
      × (wechat_login loc row ≡ some row_call)
      × (dialog_call.method ≡ row_call.method)
      × (dialog_call.url ≡ row_call.url)
      × ((name : String) → get_field dialog_call.defaults name ≡ get_field row_call.defaults name)
unfolding login wechat_login call build_model extend get opened resolved value_params
login-wechat_login loc row h = (
  _,
  _,
  refl,
  refl,
  refl,
  refl,
  λ name.
      get_field-params_of (login_data row) name
      ∙ ap (λ (v : Option String). elim v [ none ↦ undefined | some s ↦ str s ])
          (same_login row name h)
      ∙ sym
          (get_field-params_of (pick (value row) ("clientId" ∷ "clientType" ∷ "botId" ∷ [])) name),
)

-- Each action of a row posts to the row's url followed by the action's, and then throws a
-- TypeError, because `buildPromise` is given what the call returned and not the resource.
pub row_action_lem :
    (loc : Location) (action : String) (row : Data)
    → ((row_action loc action row).0
        ≡ some (record {
          method = "POST";
          url = some (build_url loc "bots" <> "/" <> (text_of (value row "botId") <> action));
          defaults = end;
          params = end;
        }))
      × ((row_action loc action row).1 ≡ type_error)
unfolding row_action build_promise has urls
row_action_lem loc action row =
    ((call-build_model_res_id loc "bots" (text_of (value row "botId") <> action) end end).1, refl)
