-- ===== src/Query/RoundTrip.antt =====
-- What a reader finds in the query of an object: the leaves of the object under their full names.
use Prim.Native.Char.{char, IsScalar}
use mathlib.Core.List.{append-nil}
use chat_bot_hub.Prelude.{
  ℕ, suc, ◌+◌, ◌<◌, String, true, false, List, [], ◌∷◌, ◌++◌, ◌≡◌, refl, sym, ap, ◌∙◌, arith,
  and_both, lt→ltb,
}
use chat_bot_hub.Js.{
  Value, undefined, null, bool, num, str, arr, obj, int, nan, Items, item, no_items, Fields, field,
  end, codes,
}
use chat_bot_hub.Prelude.Int.{pos, negsuc}
use chat_bot_hub.Query.{
  text_of, indexed, dotted, pair, of_value, of_items, of_subs, of_fields, param, strip_last,
}
use chat_bot_hub.Query.Uri.Laws.{is_text}
use chat_bot_hub.Query.Decimal.{decimal, decimal-is_text}
use chat_bot_hub.Query.Scan.{
  Leaf, parse, scan, Gives, Gives-nil, Gives-append, Gives-strip_last, Gives-pair,
}

unfoldable mutual
  -- The leaves of a value with a name: what is neither an array nor an object. A missing value is
  -- none, but for that of an object's property, which is an empty text.
  pub leaves_of : List ℕ → Value → List Leaf
  leaves_of name undefined = []
  leaves_of name null = []
  leaves_of name (arr items) = item_leaves name 0 items
  leaves_of name (obj fs) = sub_leaves name fs
  leaves_of name (bool b) = (name, text_of (bool b)) ∷ []
  leaves_of name (num n) = (name, text_of (num n)) ∷ []
  leaves_of name (str s) = (name, text_of (str s)) ∷ []

  pub item_leaves : List ℕ → ℕ → Items → List Leaf
  item_leaves name i no_items = []
  item_leaves name i (item v more) = leaves_of (indexed name i) v ++ item_leaves name (i + 1) more

  pub sub_leaves : List ℕ → Fields → List Leaf
  sub_leaves name end = []
  sub_leaves name (field sub undefined more) = (dotted name sub, []) ∷ sub_leaves name more
  sub_leaves name (field sub null more) = (dotted name sub, []) ∷ sub_leaves name more
  sub_leaves name (field sub v more) = leaves_of (dotted name sub) v ++ sub_leaves name more

unfoldable pub leaves : Fields → List Leaf
leaves end = []
leaves (field name v more) = leaves_of (codes name) v ++ leaves more

scalar-lt : (n : ℕ) → IsScalar n → n < 1114112
scalar-lt n h = ground (arith, h)

codes-is_text : (s : String) → is_text (codes s) ≡ true
unfolding is_text
codes-is_text String.[] = refl
codes-is_text (String.◌∷◌ (char n h) rest) =
    and_both (lt→ltb n 1114112 (scalar-lt n h), codes-is_text rest)

append-is_text : (s t : List ℕ) → is_text s ≡ true → is_text t ≡ true → is_text (s ++ t) ≡ true
unfolding is_text
append-is_text [] t h k = k
append-is_text (c ∷ s) t h k = ground (arith, h, k, append-is_text s t)

text_of-is_text : (v : Value) → is_text (text_of v) ≡ true
unfolding is_text
text_of-is_text (bool true) = refl
text_of-is_text (bool false) = refl
text_of-is_text (num nan) = refl
text_of-is_text (num (int (pos n))) = decimal-is_text n
text_of-is_text (num (int (negsuc n))) = decimal-is_text (suc n)
text_of-is_text (str s) = codes-is_text s
text_of-is_text undefined = refl
text_of-is_text null = refl
text_of-is_text (arr items) = refl
text_of-is_text (obj fs) = refl

indexed-is_text : (name : List ℕ) (i : ℕ) → is_text name ≡ true → is_text (indexed name i) ≡ true
unfolding is_text
indexed-is_text name i h =
    append-is_text name (b'[' ∷ (decimal i ++ b']' ∷ [])) h
      (append-is_text (decimal i) (b']' ∷ []) (decimal-is_text i) refl)

dotted-is_text :
    (name : List ℕ) (sub : String) → is_text name ≡ true → is_text (dotted name sub) ≡ true
unfolding is_text
dotted-is_text name sub h = append-is_text name (b'.' ∷ codes sub) h (codes-is_text sub)

-- The query of an inner object in front of the rest.
Gives-sub :
    {q s : List ℕ} {ls ms : List Leaf}
    → Gives q ls
    → Gives s ms
    → Gives ((strip_last q ++ b'&' ∷ []) ++ s) (ls ++ ms)
Gives-sub a b = Gives-append (Gives-strip_last a) b

Gives-missing :
    (name : List ℕ) (sub : String)
    → is_text name ≡ true
    → Gives (pair (dotted name sub) []) ((dotted name sub, []) ∷ [])
unfolding is_text
Gives-missing name sub h = Gives-pair (dotted name sub) [] (dotted-is_text name sub h) refl

mutual
  unfolding of_value of_items of_subs leaves_of item_leaves sub_leaves

  Gives-of_value :
      (name : List ℕ) (v : Value) → is_text name ≡ true → Gives (of_value name v) (leaves_of name v)
  Gives-of_value name undefined h = Gives-nil
  Gives-of_value name null h = Gives-nil
  Gives-of_value name (arr items) h = Gives-of_items name 0 items h
  Gives-of_value name (obj fs) h = Gives-of_subs name fs h
  Gives-of_value name (bool b) h = Gives-pair name (text_of (bool b)) h (text_of-is_text (bool b))
  Gives-of_value name (num n) h = Gives-pair name (text_of (num n)) h (text_of-is_text (num n))
  Gives-of_value name (str s) h = Gives-pair name (text_of (str s)) h (text_of-is_text (str s))

  Gives-of_items :
      (name : List ℕ) (i : ℕ) (items : Items)
      → is_text name ≡ true
      → Gives (of_items name i items) (item_leaves name i items)
  Gives-of_items name i no_items h = Gives-nil
  Gives-of_items name i (item v more) h =
      Gives-sub (Gives-of_value (indexed name i) v (indexed-is_text name i h))
        (Gives-of_items name (i + 1) more h)

  Gives-of_subs :
      (name : List ℕ) (fs : Fields)
      → is_text name ≡ true
      → Gives (of_subs name fs) (sub_leaves name fs)
  Gives-of_subs name end h = Gives-nil
  Gives-of_subs name (field sub undefined more) h =
      Gives-sub (Gives-missing name sub h) (Gives-of_subs name more h)
  Gives-of_subs name (field sub null more) h =
      Gives-sub (Gives-missing name sub h) (Gives-of_subs name more h)
  Gives-of_subs name (field sub (bool b) more) h =
      Gives-sub (Gives-of_value (dotted name sub) (bool b) (dotted-is_text name sub h))
        (Gives-of_subs name more h)
  Gives-of_subs name (field sub (num b) more) h =
      Gives-sub (Gives-of_value (dotted name sub) (num b) (dotted-is_text name sub h))
        (Gives-of_subs name more h)
  Gives-of_subs name (field sub (str b) more) h =
      Gives-sub (Gives-of_value (dotted name sub) (str b) (dotted-is_text name sub h))
        (Gives-of_subs name more h)
  Gives-of_subs name (field sub (arr b) more) h =
      Gives-sub (Gives-of_value (dotted name sub) (arr b) (dotted-is_text name sub h))
        (Gives-of_subs name more h)
  Gives-of_subs name (field sub (obj b) more) h =
      Gives-sub (Gives-of_value (dotted name sub) (obj b) (dotted-is_text name sub h))
        (Gives-of_subs name more h)

Gives-of_fields : (fs : Fields) → Gives (of_fields fs) (leaves fs)
unfolding of_fields leaves
Gives-of_fields end = Gives-nil
Gives-of_fields (field name v more) =
    Gives-append (Gives-of_value (codes name) v (codes-is_text name)) (Gives-of_fields more)

-- The query of an object is read as the leaves of the object, in their order, under their full
-- names.
pub parse-param : (fs : Fields) → parse (param fs) ≡ leaves fs
unfolding parse param scan
parse-param fs =
    let whole = Gives-strip_last (Gives-of_fields fs) in
    ap (scan []) (sym (append-nil (param fs ++ b'&' ∷ [])))
    ∙ whole.reads []
    ∙ append-nil (leaves fs)
