-- ===== src/Query/Tests.antt =====
-- The query of an object with an array, an inner object and missing values.
use chat_bot_hub.Prelude.{◌≡◌, refl, true}
use chat_bot_hub.Prelude.Int.{pos}
use chat_bot_hub.Js.{
  Fields, field, end, num, int, str, bool, obj, arr, item, no_items, null, undefined, codes,
}
use chat_bot_hub.Query.{param, of_fields, of_value, of_items, of_subs, pair, strip_last}
use chat_bot_hub.Query.Uri.{encode, encode_char, is_plain, utf8, percent, hex}
use chat_bot_hub.Query.Decimal.{decimal, digits_of}
use chat_bot_hub.Query.Scan.{parse}
use chat_bot_hub.Query.RoundTrip.{leaves, parse-param}
use mathlib.Core.List.{flat_map}

abbrev saved : Fields
saved = field "name" (str "a&b") (
    field "next" null (
      field "ids" (arr (item (num (int (pos 12))) (item undefined no_items)))
        (field "body" (obj (field "on" (bool true) (field "to" null end))) end)))

query : param saved ≡ codes "name=a%26b&ids%5B0%5D=12&&body.on=true&body.to="
unfolding param of_fields of_value of_items of_subs pair strip_last encode encode_char is_plain utf8
    percent hex decimal digits_of flat_map
query = refl

parse-param_example : parse (param saved) ≡ leaves saved
parse-param_example = parse-param saved
