-- ===== src/Tools/Objects.antt =====
-- What the tools leave in an object and find in a list.
use chat_bot_hub.Prelude.{
  String, str_eq, eq_iff, Bool, true, false, ◌||◌, ◌&&◌, Option, none, some, List, [], ◌∷◌, Object,
  get, delete, get-delete, if◌then◌else◌, arith, ◌≡◌, refl, Bool-cases, Option-cases, inl, inr,
}
use chat_bot_hub.Js.{Value}
use chat_bot_hub.Tools.{
  is_empty, keys, drop_key, drop_empty, Prop, names, name, no_name, remove_all, remove_prop,
  filter_empty_prop, Item, has_id, key_or_id, first_with, get_item_by_id, first_or,
  get_item_in_array, default, equal, add_placeholder, default_placeholder,
}

-- The text stands in the list.
unfoldable pub among : String → List String → Bool
among key [] = false
among key (k ∷ ks) = str_eq k key || among key ks

unfoldable pub empty_in : Object Value → String → Bool
empty_in o key = elim (get o key) [ none ↦ true | some v ↦ is_empty v ]

get-drop_key :
    (k : String) (o : Object Value) (key : String)
    → get (drop_key k o) key ≡ (if str_eq k key && empty_in o key then none else get o key)
unfolding drop_key empty_in
get-drop_key k o key = elim (Option-cases (get o k)) [
  | inl missing ↦ rw (drop_key, missing) (ground (arith, missing, eq_iff k key))
  | inr (v, found) ↦ rw (drop_key, found) (ground (arith, found, eq_iff k key, get-delete o k key))
]

get-drop_empty :
    (ks : List String) (o : Object Value) (key : String)
    → get (drop_empty ks o) key ≡ (if among key ks && empty_in o key then none else get o key)
unfolding drop_empty among empty_in
get-drop_empty [] o key = refl
get-drop_empty (k ∷ ks) o key =
    ground (arith, get-drop_empty ks (drop_key k o) key, get-drop_key k o key)

among-keys :
    (o : Object Value) (key : String)
    → (if among key (keys o) && empty_in o key then none else get o key)
      ≡ (if empty_in o key then none else get o key)
unfolding among keys empty_in get
among-keys [] key = refl
among-keys ((k, v) ∷ o) key = ground (arith, among-keys o key)

-- The names that `prop` removes.
unfoldable pub removes : Prop → String → Bool
removes (names ks) key = among key ks
removes (name k) key = str_eq k key
removes no_name key = false

get-remove_all :
    (ks : List String) (o : Object Value) (key : String)
    → get (remove_all ks o) key ≡ (if among key ks then none else get o key)
unfolding remove_all among
get-remove_all [] o key = refl
get-remove_all (k ∷ ks) o key =
    ground (arith, get-remove_all ks (delete o k) key, get-delete o k key)

get-remove_prop :
    (prop : Prop) (o : Object Value) (key : String)
    → get (remove_prop prop o) key ≡ (if removes prop key then none else get o key)
unfolding remove_prop removes
get-remove_prop (names ks) o key = get-remove_all ks o key
get-remove_prop (name k) o key = get-delete o k key
get-remove_prop no_name o key = refl

-- `filterEmptyProp` leaves an object that has a property exactly if the object had it with a value
-- that is not '', null or undefined, and `prop` does not name it; and with the same value.
pub get-filter_empty_prop :
    (o : Object Value) (prop : Prop) (key : String)
    → get (filter_empty_prop o prop) key
      ≡ (if removes prop key || empty_in o key then none else get o key)
unfolding filter_empty_prop
get-filter_empty_prop o prop key = ground (
  arith,
  get-remove_prop prop (drop_empty (keys o) o) key,
  get-drop_empty (keys o) o key,
  among-keys o key,
)

first_or_lem :
    (d : Option Item) (list : List Item) (key : String) (id : Option String)
    → first_or d list key id ≡ elim (first_with list key id) [ none ↦ d | some item ↦ some item ]
unfolding first_or first_with
first_or_lem d [] key id = refl
first_or_lem d (item ∷ list) key id = elim (Bool-cases (has_id item key id)) [
  | inl here ↦ rw here refl
  | inr later ↦ rw later (first_or_lem d list key id)
]

-- In a list with the default placeholder in front, `getItemInArray` finds the placeholder for the
-- empty id, and for each id that no item of the list has; for every other id it finds what
-- `getItemById` finds in the list.
pub get_item_in_array-add_placeholder :
    (list : List Item) (id : Option String)
    → get_item_in_array (add_placeholder (some list) default) id none ≡ (
        if equal (some "") id
        then some default_placeholder
        else (elim (get_item_by_id list id none) [
          | none ↦ some default_placeholder
          | some item ↦ some item
        ]))
unfolding get_item_in_array get_item_by_id first_or add_placeholder has_id default_placeholder
    key_or_id get
get_item_in_array-add_placeholder list id = elim (Bool-cases (equal (some "") id)) [
  | inl here ↦ rw here refl
  | inr later ↦ rw later (first_or_lem (some default_placeholder) list "id" id)
]
