-- ===== src/Bots/SendAction.antt =====
-- `sendAction` of `botActionCtrl`, in frontend/static/app/manage/controller/botslistCtrl.js: the
-- request that a filled form sends. The texts of JSON are those of the language's `JSON` object,
-- a parameter here: `parse` is `none` where it throws.
pub mod Laws
use chat_bot_hub.Prelude.{
  String, ◌<>◌, str_eq, Bool, true, false, ◌||◌, Option, none, some, if◌then◌else◌,
}
use mathlib.Core.Option
use chat_bot_hub.Js.{
  Value, Fields, undefined, num, str, obj, end, truthy, get_field, set_field, prop, set_prop,
  int_of,
}

pub record Json : Type 0 where
  pub stringify : Value → String
  pub parse : Value → Option Value

pub record Request : Type 0 where
  pub method : String
  pub url : String
  pub body : String

infixl 5 ◌>>=◌
abbrev pub ◌>>=◌ {ℓ κ} : {A : Type ℓ} {B : Type κ} → Option A → (A → Option B) → Option B
none >>= f = none
some a >>= f = f a

-- `if(body[name]) { body[name] = parseInt(body[name], 10) }`.
unfoldable pub to_int : Value → String → Value
to_int body name =
    if truthy (prop body name) then set_prop body name (num (int_of (prop body name))) else body

-- The url of `botActionCtrl`.
unfoldable pub action_url : String → String
action_url login = "/botaction/" <> login

module _ (json : Json) where
  open json use {stringify, parse}

  -- `if(body.memberList) { body.memberList = JSON.parse(body.memberList) }`.
  unfoldable pub parse_members : Value → Option Value
  parse_members body =
      if truthy (prop body "memberList")
      then Option.map (set_prop body "memberList") (parse (prop body "memberList"))
      else some body

  -- The text that replaces `data.actionBody`.
  unfoldable pub body_text : Value → Option String
  body_text body =
      if truthy body
      then (parse_members body >>= λ listed.
          some (stringify (to_int (to_int listed "type") "commentType")))
      else some (stringify (obj end))

  -- `sendAction`, of the form's data and the bot's login; `none` if it throws, and no request is
  -- sent.
  unfoldable pub send_action : String → Fields → Option Request
  send_action login form = do
    text ← body_text (get_field form "actionBody")
    some (record {
      method = "POST";
      url = action_url login;
      body = stringify (obj (set_field form "actionBody" (str text)));
    })
