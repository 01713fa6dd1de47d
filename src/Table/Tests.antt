-- ===== src/Table/Tests.antt =====
-- A grid of three rows, of which 7 is selected, and 9 on another page.
use chat_bot_hub.Prelude.{ℕ, true, false, ◌≡◌, refl, some, List, [], ◌∷◌, arith}
use chat_bot_hub.Table.{
  Grid, init, contains, remove, put, update, update_all, all_checked, checkbox_change, boxes_from,
  rows_changed,
}
use chat_bot_hub.Table.Change.{IsValid, Changed, checkbox_change_lem}

abbrev grid : Grid
grid = record {
  has_checked_array = true;
  selected = some (9 ∷ 7 ∷ []);
  checkbox = some (9 ∷ 7 ∷ []);
  checkedbox = (3, false) ∷ (7, true) ∷ (8, false) ∷ [];
  checkedbox_all = false;
}

grid-IsValid : IsValid grid (9 ∷ 7 ∷ [])
unfolding contains
grid-IsValid = record {
  selects = refl;
  array = refl;
  distinct = (refl, (refl, tt));
  ordered = omega arith;
}

grid_shown : rows_changed (init (some (9 ∷ 7 ∷ []))) (8 ∷ 3 ∷ 7 ∷ []) ≡ some grid
unfolding rows_changed init boxes_from put contains checkbox_change update_all update all_checked
    remove
grid_shown = refl

checkbox_change_lem_example :
    (g' : Grid) × (sel' : List ℕ) × (checkbox_change grid ≡ some g')
    × Changed grid g' (9 ∷ 7 ∷ []) sel'
checkbox_change_lem_example = checkbox_change_lem grid (9 ∷ 7 ∷ []) grid-IsValid
