-- ===== src/Login/Tests.antt =====
-- A value highlighted, and the landing of a login.
use mathlib.Core.List.{flat_map}
use chat_bot_hub.Prelude.{true, get, assign, Option, none, some, List, ℕ, ◌≡◌, refl}
use chat_bot_hub.Js.{Value, str, undefined, codes}
use chat_bot_hub.Login.Pattern
use chat_bot_hub.Login.Pattern.{match_at, takes, found, take_cls, iterate, push, or_else, times}
use chat_bot_hub.Login.Pretty.{
  replace_char, escape, token_pattern, replace_all, class_of, span, render, shown, pretty_text,
  json_of, pretty,
}
use chat_bot_hub.Login.Pretty.Laws.{Reads, pretty-read}
use chat_bot_hub.Router.{
  botslist, state, register, register_all, matching, route, state_urls, parent_name, location,
}

-- A login leads to the bots.
landing : route (location "#/app/manage/botslist") ≡ some (state botslist).name
unfolding route location matching state_urls register_all register state parent_name get assign
landing = refl

abbrev stringify : Value → Option (List ℕ)
stringify undefined = none
stringify v = some (codes "null")

two_tokens :
    pretty_text (codes "\"a<\": -1.5e3,")
    ≡ shown (codes "<span class=\"key\">\"a&lt;\":</span> <span class=\"number\">-1.5e3</span>,")
unfolding pretty_text escape replace_char replace_all match_at Pattern.match token_pattern take_cls
    iterate push or_else times class_of found span render flat_map
two_tokens = refl

pretty-read_example :
    Reads (json_of stringify (str "{\"a\": true}")) (pretty stringify (str "{\"a\": true}"))
pretty-read_example = pretty-read stringify (str "{\"a\": true}")

abbrev sample : List ℕ
sample = codes "[1, null]"

sample_takes : takes token_pattern ≡ true
unfolding takes token_pattern
sample_takes = refl
