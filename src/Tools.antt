-- ===== src/Tools.antt =====
-- The functions of frontend/static/app/common/services/tools.service.js on objects and lists. The
-- properties of the items of a list are texts or undefined, so that `==` compares texts.
pub mod Objects
pub mod Dates
mod Tests
use chat_bot_hub.Prelude.{
  String, str_eq, ◌<>◌, Bool, true, false, ◌||◌, Option, none, some, List, [], ◌∷◌, Object, get,
  assign, delete, if◌then◌else◌,
}
use chat_bot_hub.Prelude.Int.{pos}
use chat_bot_hub.Js.{Value, undefined, null, bool, num, int, str, obj, arr, truthy}
use chat_bot_hub.Service.{extend}

-- The value is '', null or undefined.
unfoldable pub is_empty : Value → Bool
is_empty undefined = true
is_empty null = true
is_empty (str s) = str_eq s ""
is_empty _ = false

unfoldable pub keys {ℓ} : {V : Type ℓ} → Object V → List String
keys [] = []
keys ((key, v) ∷ o) = key ∷ keys o

-- One round of the loop of `filterEmptyProp`.
unfoldable pub drop_key : String → Object Value → Object Value
drop_key key o = elim (get o key) [ none ↦ o | some v ↦ if is_empty v then delete o key else o ]

-- The loop over the keys.
unfoldable pub drop_empty : List String → Object Value → Object Value
drop_empty [] o = o
drop_empty (key ∷ more) o = drop_empty more (drop_key key o)

-- The argument `prop`: an array of names, a name, or anything else.
pub data Prop : Type 0 where
  names : List String → Prop
  name : String → Prop
  no_name : Prop

unfoldable pub remove_all : List String → Object Value → Object Value
remove_all [] o = o
remove_all (key ∷ more) o = remove_all more (delete o key)

unfoldable pub remove_prop : Prop → Object Value → Object Value
remove_prop (names ks) o = remove_all ks o
remove_prop (name k) o = delete o k
remove_prop no_name o = o

unfoldable pub filter_empty_prop : Object Value → Prop → Object Value
filter_empty_prop o prop = remove_prop prop (drop_empty (keys o) o)

-- `setSearchPage`.
unfoldable pub set_search_page : Object Value → Bool → Object Value
set_search_page o is_search = if is_search then assign o "curPage" (num (int (pos 1))) else o

-- `if(source[from]) { data[to] = source[from] }`.
unfoldable pub copy_truthy : Object Value → String → String → Object Value → Object Value
copy_truthy source from to data_ = elim (get source from) [
  | none ↦ data_
  | some v ↦ if truthy v then assign data_ to v else data_
]

-- `clearFilter`; without a source nothing is copied.
unfoldable pub clear_filter : Option (Object Value) → Object Value → Object Value
clear_filter none extend_obj = extend [] extend_obj
clear_filter (some source) extend_obj =
    extend (copy_truthy source "pageSize" "pageSize" (copy_truthy source "newPage" "curPage" []))
      extend_obj

-- The loop of `getStatusList`.
unfoldable pub chosen : Object Value → List String
chosen [] = []
chosen ((index, v) ∷ o) = let more = chosen o in if truthy v then index ∷ more else more

-- `join(',')`.
unfoldable pub join : List String → String
join [] = ""
join (s ∷ []) = s
join (s ∷ t ∷ more) = s <> "," <> join (t ∷ more)

unfoldable pub get_status_list : Object Value → String
get_status_list statuses = join (chosen statuses)

-- An item of a list.
abbrev pub Item : Type 0
Item = Object (Option String)

-- `a == b`.
abbrev pub equal : Option String → Option String → Bool
equal none none = true
equal (some s) (some t) = str_eq s t
equal _ _ = false

-- `item[key] == id`.
unfoldable pub has_id : Item → String → Option String → Bool
has_id item key id = elim (get item key) [ none ↦ equal none id | some v ↦ equal v id ]

-- `key || "id"`.
unfoldable pub key_or_id : Option String → String
key_or_id none = "id"
key_or_id (some k) = if str_eq k "" then "id" else k

-- The loop of `getItemById`.
unfoldable pub first_with : List Item → String → Option String → Option Item
first_with [] key id = none
first_with (item ∷ list) key id =
    let later = first_with list key id in if has_id item key id then some item else later

unfoldable pub get_item_by_id : List Item → Option String → Option String → Option Item
get_item_by_id list id key = first_with list (key_or_id key) id

-- The loop of `getItemInArray`, with what is returned after it.
unfoldable pub first_or : Option Item → List Item → String → Option String → Option Item
first_or d [] key val = d
first_or d (item ∷ rest) key val =
    let later = first_or d rest key val in if has_id item key val then some item else later

abbrev pub head : List Item → Option Item
head [] = none
head (item ∷ list) = some item

unfoldable pub get_item_in_array : List Item → Option String → Option String → Option Item
get_item_in_array list val prop = first_or (head list) list (key_or_id prop) val

-- The argument `item` of `addPlaceholder`: a name, an object, or anything else.
pub data Placeholder : Type 0 where
  named : String → Placeholder
  given : Item → Placeholder
  default : Placeholder

unfoldable pub default_placeholder : Item
default_placeholder = ("id", some "") ∷ ("name", some "--请选择--") ∷ []

-- `addPlaceholder`; a list that is no array is none.
unfoldable pub add_placeholder : Option (List Item) → Placeholder → List Item
add_placeholder list item =
    (elim item [
      | named key ↦ assign default_placeholder key (some "--请选择--")
      | given o ↦ o
      | default ↦ default_placeholder
    ])
    ∷ (elim list [ none ↦ [] | some items ↦ items ])
