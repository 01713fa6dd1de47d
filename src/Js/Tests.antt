-- ===== src/Js/Tests.antt =====
-- `parseInt` on concrete texts.
use chat_bot_hub.Prelude.{◌≡◌, refl}
use chat_bot_hub.Prelude.Int.{pos, negsuc}
use chat_bot_hub.Js.{int, nan, parse_int}

parse_number : parse_int " 42px" ≡ int (pos 42)
unfolding parse_int
parse_number = refl

parse_negative : parse_int "-7" ≡ int (negsuc 6)
unfolding parse_int
parse_negative = refl

parse_word : parse_int "px42" ≡ nan
unfolding parse_int
parse_word = refl
