-- ===== src/Limit/Tests.antt =====
-- A number that is typed between 1 and 10.
use chat_bot_hub.Prelude.{false, ◌≡◌, refl, some}
use chat_bot_hub.Prelude.Int.{pos}
use chat_bot_hub.Js.{int, parse_int}
use chat_bot_hub.Limit.{bound, inverted, valid, set_all, check_max, check_min}

right_way : inverted (some "10") (some "1") ≡ false
unfolding inverted bound parse_int
right_way = refl

eleven : set_all (int (pos 11)) (valid (some "10") (some "1") (int (pos 11))) ≡ int (pos 10)
unfolding set_all valid check_max check_min inverted bound parse_int
eleven = refl
