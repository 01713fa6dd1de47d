-- ===== src/Tools/Tests.antt =====
-- The tools on a small object and a small list.
use chat_bot_hub.Prelude.{true, [], ◌∷◌, Object, get, delete, ◌≡◌, refl}
use chat_bot_hub.Js.{Value, null, str, bool, truthy}
use chat_bot_hub.Tools.{
  filter_empty_prop, drop_empty, drop_key, keys, remove_prop, is_empty, name, get_status_list,
  chosen, join,
}

abbrev query : Object Value
query = ("name", str "hub") ∷ ("city", str "") ∷ ("tag", null) ∷ ("page", str "2") ∷ []

status_text : get_status_list (("a", bool true) ∷ ("b", null) ∷ ("c", str "x") ∷ []) ≡ "a,c"
unfolding get_status_list chosen join truthy
status_text = refl

filtered : filter_empty_prop query (name "page") ≡ ("name", str "hub") ∷ []
unfolding filter_empty_prop drop_empty drop_key keys remove_prop is_empty get delete
filtered = refl
