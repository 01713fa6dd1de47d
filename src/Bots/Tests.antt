-- ===== src/Bots/Tests.antt =====
-- `sendAction`, the inputs of the actions and the polling on concrete inputs.
use chat_bot_hub.Prelude.{◌+◌, ◌<◌, String, true, false, ◌≡◌, refl, none, some, [], ◌∷◌, arith, get}
use chat_bot_hub.Js.{Fields, str, arr, no_items, obj, field, end, truthy, get_field}
use chat_bot_hub.Bots.SendAction.{Json, send_action}
use chat_bot_hub.Bots.SendAction.Laws.{members_sent, as_sent, request_of, send_action_sent}
use chat_bot_hub.Bots.Actions.{actions}
use chat_bot_hub.Bots.Actions.Common.{stranger, ticket, verify_message}
use chat_bot_hub.Bots.Actions.Inputs.{All, IsSound, IsDistinct, actions_lem}
use chat_bot_hub.Bots.ScanUrl.{
  opened, on_answer, close, Reach, here, next, answered, no_url, refresh, retry,
}
use chat_bot_hub.Bots.ScanUrl.Polling.{IsPolite, Reach-IsPolite, Reach-active}

-- A `JSON` object that reads the empty list only.
abbrev stub : Json
stub = record {
  stringify = λ v. elim v [ str s ↦ s | _ ↦ "{}" ];
  parse = λ v. elim v [ str s ↦ some (arr no_items) | _ ↦ none ];
}

abbrev inputs : Fields
inputs = field "memberList" (str "[]") (field "type" (str "3") end)

abbrev form : Fields
form = field "actionType" (str "CreateRoom") (field "actionBody" (obj inputs) end)

form_body : get_field form "actionBody" ≡ obj inputs
unfolding get_field
form_body = refl

form_members : members_sent stub inputs ≡ some (arr no_items)
unfolding get_field truthy
form_members = refl

send_action_sent_example :
    (gs : Fields) × (send_action stub "robot" form ≡ some (request_of stub "robot" form gs))
    × ((key : String) → get_field gs key ≡ as_sent inputs (arr no_items) key)
send_action_sent_example =
    send_action_sent stub "robot" form inputs (arr no_items) form_body form_members

say_hello : get actions "SayHello" ≡ some (stranger ∷ ticket ∷ verify_message ∷ [])
unfolding get actions
say_hello = refl

actions_lem_example :
    All IsSound (stranger ∷ ticket ∷ verify_message ∷ [])
    × IsDistinct (stranger ∷ ticket ∷ verify_message ∷ [])
actions_lem_example = actions_lem "SayHello" (stranger ∷ ticket ∷ verify_message ∷ []) say_hello

abbrev asked : Reach opened (on_answer opened no_url)
asked = next here (answered no_url (unfold opened refresh in omega arith))

Reach-IsPolite_example : IsPolite (on_answer opened no_url)
Reach-IsPolite_example = Reach-IsPolite asked

opened_flag : (on_answer opened no_url).flag ≡ true
unfolding on_answer opened refresh retry
opened_flag = refl

Reach-active_example : (on_answer opened no_url).timers + (on_answer opened no_url).in_flight ≡ 1
Reach-active_example = Reach-active asked (tt, refl) opened_flag

shut : (close (on_answer opened no_url)).flag ≡ false
unfolding close
shut = refl

one_timer : 0 < (close (on_answer opened no_url)).timers
unfolding close on_answer opened refresh retry
one_timer = omega arith
