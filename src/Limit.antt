-- ===== src/Limit.antt =====
-- `limitNumber` of frontend/static/app/common/directives/limit-number.direcitve.js: a bound number is
-- kept between two limits. The value is the number that it is compared as.
pub mod Range
mod Tests
use chat_bot_hub.Prelude.{
  String, Bool, true, false, ◌&&◌, Option, none, some, List, [], ◌∷◌, ◌++◌, if◌then◌else◌,
}
use chat_bot_hub.Prelude.Int.{ℤ, pos, ltb_ℤ}
use chat_bot_hub.Js.{Num, int, nan, is_nan, parse_int}

-- `parseInt(attribute, 10) || 0`.
unfoldable pub bound : Option String → ℤ
bound none = pos 0
bound (some s) = elim (parse_int s) [ int n ↦ n | nan ↦ pos 0 ]

abbrev pub is_defined : Option String → Bool
is_defined none = false
is_defined (some s) = true

abbrev pub when : Bool → ℤ → List ℤ
when true n = n ∷ []
when false n = []

-- `value > n` and `value < n`, which are false for NaN.
abbrev pub above : Num → ℤ → Bool
above nan n = false
above (int v) n = ltb_ℤ n v

abbrev pub below : Num → ℤ → Bool
below nan n = false
below (int v) n = ltb_ℤ v n

-- The limits are both given and the wrong way round.
unfoldable pub inverted : Option String → Option String → Bool
inverted number_max number_min =
    is_defined number_min && (is_defined number_max && ltb_ℤ (bound number_max) (bound number_min))

unfoldable pub check_max : Option String → Num → List ℤ
check_max number_max v =
    if is_defined number_max
    then when (is_nan v) (bound number_max) ++ when (above v (bound number_max)) (bound number_max)
    else []

unfoldable pub check_min : Option String → Num → List ℤ
check_min number_min v =
    if is_defined number_min
    then when (is_nan v) (bound number_min) ++ when (below v (bound number_min)) (bound number_min)
    else []

-- `vaild`: the numbers that it sets the view to, in order.
unfoldable pub valid : Option String → Option String → Num → List ℤ
valid number_max number_min v =
    if inverted number_max number_min then [] else check_max number_max v ++ check_min number_min v

-- The value after these settings.
unfoldable pub set_all : Num → List ℤ → Num
set_all v [] = v
set_all v (n ∷ ns) = set_all (int n) ns
