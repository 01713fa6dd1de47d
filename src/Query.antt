-- ===== src/Query.antt =====
-- `param` of frontend/static/app/app.config.js: the text that stands for an object in the body of a
-- request. Texts are lists of code points.
pub mod Uri
pub mod Decimal
pub mod Cut
pub mod Scan
pub mod RoundTrip
mod Tests
use chat_bot_hub.Prelude.{
  ℕ, zero, suc, ◌+◌, ◌-◌, ◌/◌, ◌%◌, String, Bool, true, false, List, [], ◌∷◌, ◌++◌, if◌then◌else◌,
  ltb,
}
use chat_bot_hub.Prelude.Int.{pos, negsuc}
use chat_bot_hub.Js.{
  Num, int, nan, Value, undefined, null, bool, num, str, arr, obj, Items, item, no_items, Fields,
  field, end, codes,
}
use Uri.{encode}
use Decimal.{decimal}

abbrev pub of_num : Num → List ℕ
of_num nan = codes "NaN"
of_num (int (pos n)) = decimal n
of_num (int (negsuc n)) = b'-' ∷ decimal (suc n)

-- What `encodeURIComponent` takes a simple value for.
abbrev pub text_of : Value → List ℕ
text_of (bool true) = codes "true"
text_of (bool false) = codes "false"
text_of (num n) = of_num n
text_of (str s) = codes s
text_of _ = []

-- `name + '[' + i + ']'`, and `name + '.' + subName`.
abbrev pub indexed : List ℕ → ℕ → List ℕ
indexed name i = name ++ (b'[' ∷ (decimal i ++ b']' ∷ []))

abbrev pub dotted : List ℕ → String → List ℕ
dotted name sub = name ++ (b'.' ∷ codes sub)

-- `encodeURIComponent(name) + '=' + encodeURIComponent(value) + '&'`.
unfoldable pub pair : List ℕ → List ℕ → List ℕ
pair name text = encode name ++ (b'=' ∷ (encode text ++ b'&' ∷ []))

-- `query.length ? query.substr(0, query.length - 1) : query`.
unfoldable pub strip_last : List ℕ → List ℕ
strip_last [] = []
strip_last (c ∷ []) = []
strip_last (c ∷ d ∷ s) = c ∷ strip_last (d ∷ s)

unfoldable mutual
  -- What one round of the loop over the names adds to `query`.
  pub of_value : List ℕ → Value → List ℕ
  of_value name undefined = []
  of_value name null = []
  of_value name (arr items) = of_items name 0 items
  of_value name (obj fs) = of_subs name fs
  of_value name (bool b) = pair name (text_of (bool b))
  of_value name (num n) = pair name (text_of (num n))
  of_value name (str s) = pair name (text_of (str s))

  -- The loop over an array from the index on; `param(innerObj)` is the query of its only name.
  pub of_items : List ℕ → ℕ → Items → List ℕ
  of_items name i no_items = []
  of_items name i (item v more) =
      (strip_last (of_value (indexed name i) v) ++ b'&' ∷ []) ++ of_items name (i + 1) more

  -- The loop over the names of an inner object; null and undefined become the empty text.
  pub of_subs : List ℕ → Fields → List ℕ
  of_subs name end = []
  of_subs name (field sub undefined more) =
      (strip_last (pair (dotted name sub) []) ++ b'&' ∷ []) ++ of_subs name more
  of_subs name (field sub null more) =
      (strip_last (pair (dotted name sub) []) ++ b'&' ∷ []) ++ of_subs name more
  of_subs name (field sub v more) =
      (strip_last (of_value (dotted name sub) v) ++ b'&' ∷ []) ++ of_subs name more

-- The loop over the names of the object.
unfoldable pub of_fields : Fields → List ℕ
of_fields end = []
of_fields (field name v more) = of_value (codes name) v ++ of_fields more

unfoldable pub param : Fields → List ℕ
param fs = strip_last (of_fields fs)
