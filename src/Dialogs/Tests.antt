-- ===== src/Dialogs/Tests.antt =====
-- The dialogs at concrete rows.
use chat_bot_hub.Prelude.{
  String, ◌<>◌, true, ◌≡◌, refl, none, some, [], ◌∷◌, get, Object, if◌then◌else◌,
}
use chat_bot_hub.Dialogs.{lists}
use chat_bot_hub.Dialogs.Submit.{Data, value, text_of, opened, resolved, typed, save}
use chat_bot_hub.Dialogs.Submit.Laws.{last_typed, filter, editing, edited, save-typed}

abbrev row : Data
row =
    ("filterId", some "f1")
    ∷ ("name", some "greeting")
    ∷ ("botId", some "b1")
    ∷ ("clientId", some "c1")
    ∷ ("clientType", some "WECHATBOT")
    ∷ []

abbrev edits : Object String
edits = ("name", "hello") ∷ ("filterId", "f2") ∷ []

saved_url : (save (typed edits (editing filter row))).1.url ≡ "/filters/f1"
unfolding save typed opened resolved value text_of get
saved_url = refl

save-typed_example :
    (body : Data) × ((save (typed edits (editing filter row))).1 ≡ record {
      method = "PUT";
      url = "/filters/" <> text_of (value row "filterId");
      body = some body;
    })
    × ((name : String)
        → value body name
          ≡ last_typed edits name (if lists (edited filter) name then value row name else none))
    × ((save (typed edits (editing filter row))).0.dismissed ≡ true)
save-typed_example = save-typed filter row edits

is_wechat : value row "clientType" ≡ some "WECHATBOT"
unfolding value get
is_wechat = refl
