-- ===== src/Forms/Discarded/Validators/Tests.antt =====
-- Where the older validators differ from the newer ones.
use chat_bot_hub.Prelude.{true, false, none, ◌≡◌, refl, str_eq, Bool}
use chat_bot_hub.Js.{Value, str, obj, field, end, undefined, truthy, get_field}
use chat_bot_hub.Forms
use chat_bot_hub.Forms.Regex.{test, run, run_cls, times, up_to}
use chat_bot_hub.Forms.Discarded.Validators.{money, money_re, places, requiredselect}

-- A sign and two places behind the point.
signed : (money none "-1200.55").valid ≡ true
unfolding money money_re places test run run_cls times up_to
signed = refl

newer_signed : (Forms.money 9 "-1200.55").valid ≡ false
unfolding Forms.money Forms.money_re test run run_cls times up_to
newer_signed = refl

three_places : (money none "1200.555").valid ≡ false
unfolding money money_re places test run run_cls times up_to
three_places = refl

abbrev same_text : Value → Value → Bool
same_text (str s) (str t) = str_eq s t
same_text _ _ = false

-- The first choice of the select is taken for none.
first_choice :
    requiredselect same_text (str "-1") undefined (obj (field "id" (str "-1") end)) ≡ false
unfolding requiredselect truthy get_field
first_choice = refl
