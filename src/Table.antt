-- ===== src/Table.antt =====
-- The checkboxes of the table directive, frontend/static/app/common/directives/table.directive.js:
-- which rows are checked, and which ids are selected across filters and pages.
pub mod Selection
pub mod Change
pub mod Toggle
pub mod Rows
pub mod Head
pub mod Broadcast
pub mod Run
mod Tests
use chat_bot_hub.Prelude.{
  ℕ, Bool, true, false, ◌&&◌, not, Option, none, some, List, [], ◌∷◌, ◌++◌, ltb, ◌==◌,
  if◌then◌else◌,
}

-- `scope.checkedbox`: the integer keys of an object, which JavaScript lists in increasing order.
abbrev pub Checked : Type 0
Checked = List (ℕ × Bool)

-- `selected` is the one array that `filterCheckboxResult` and `tmpCheckbox` both name, `none` if
-- `scope.checkbox` was no array at the start. `checkbox` is what the binding shows outside.
pub record Grid : Type 0 where
  pub has_checked_array : Bool
  pub selected : Option (List ℕ)
  pub checkbox : Option (List ℕ)
  pub checkedbox : Checked
  pub checkedbox_all : Bool

-- `init`, of what concerns the checkboxes.
unfoldable pub init : Option (List ℕ) → Grid
init checkbox = record {
  has_checked_array = elim checkbox [ none ↦ false | some _ ↦ true ];
  selected = checkbox;
  checkbox = checkbox;
  checkedbox = [];
  checkedbox_all = false;
}

-- `list.indexOf(id) >= 0`.
unfoldable pub contains : ℕ → List ℕ → Bool
contains id [] = false
contains id (x ∷ xs) = if x == id then true else contains id xs

-- `list.splice(list.indexOf(id), 1)` at an element of the list.
unfoldable pub remove : ℕ → List ℕ → List ℕ
remove id [] = []
remove id (x ∷ xs) = if x == id then xs else x ∷ remove id xs

-- `checkedbox[id] = b`.
unfoldable pub put : ℕ → Bool → Checked → Checked
put id b [] = (id, b) ∷ []
put id b ((j, c) ∷ m) =
    if j == id then (id, b) ∷ m else if ltb id j then (id, b) ∷ (j, c) ∷ m else (j, c) ∷ put id b m

-- One round of the loop of `checkboxChange`.
unfoldable pub update : List ℕ → ℕ → Bool → List ℕ
update sel id checked =
    if contains id sel && not checked
    then remove id sel
    else if checked && not (contains id sel)
    then sel ++ id ∷ []
    else sel

unfoldable pub update_all : List ℕ → Checked → List ℕ
update_all sel [] = sel
update_all sel ((id, b) ∷ m) = update_all (update sel id b) m

unfoldable pub all_checked : Checked → Bool
all_checked [] = true
all_checked ((id, b) ∷ m) = b && all_checked m

-- `checkboxChange`; `none` is the TypeError of `indexOf` on a missing array.
unfoldable pub checkbox_change : Grid → Option Grid
checkbox_change g = elim g.checkedbox [
  | [] ↦ some (record g { checkbox = g.selected; checkedbox_all = false })
  | box ∷ boxes ↦ elim g.selected [
    | none ↦ none
    | some sel ↦
        let sel' = update_all sel (box ∷ boxes) in
        some (record g {
          selected = some sel';
          checkbox = some sel';
          checkedbox_all = all_checked (box ∷ boxes);
        })
  ]
]

unfoldable pub set_all : Bool → Checked → Checked
set_all b [] = []
set_all b ((id, c) ∷ m) = (id, b) ∷ set_all b m

-- `checkboxAllChange`, after the box in the head was set to `b`.
unfoldable pub checkbox_all_change : Grid → Bool → Option Grid
checkbox_all_change g b = elim g.checkedbox [
  | [] ↦ some (record g { checkedbox_all = b })
  | box ∷ boxes ↦
      checkbox_change (record g { checkedbox = set_all b (box ∷ boxes); checkedbox_all = b })
]

-- A click on the box of one row.
unfoldable pub toggle : Grid → ℕ → Bool → Option Grid
toggle g id b = checkbox_change (record g { checkedbox = put id b g.checkedbox })

-- The boxes of the rows that are shown.
unfoldable pub boxes_from : Bool → Option (List ℕ) → List ℕ → Checked → Checked
boxes_from has sel [] m = m
boxes_from has sel (id ∷ ids) m =
    let checked : Bool = has && elim sel [ none ↦ false | some s ↦ contains id s ] in
    boxes_from has sel ids (put id checked m)

-- The two watches of `checkboxInit`, with and without a filter, which do the same: the rows that
-- are shown have changed.
unfoldable pub rows_changed : Grid → List ℕ → Option Grid
rows_changed g ids =
    checkbox_change (record g { checkedbox = boxes_from g.has_checked_array g.selected ids [] })
