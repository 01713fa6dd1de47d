-- ===== src/Table/Change.antt =====
-- The handlers of the checkboxes: the selection after each of them, and the box in the head.
use mathlib.Core.Path.{subst}
use chat_bot_hub.Prelude.{ℕ, Bool, true, false, ◌&&◌, ◌≡◌, refl, sym, Option, some, List, [], ◌∷◌}
use chat_bot_hub.Table.{Checked, Grid, contains, update_all, all_checked, checkbox_change}
use chat_bot_hub.Table.Selection.{
  IsDistinct, IsOrdered, box_of, box_or, IsDistinct-update_all, contains-update_all,
}

-- The selection of a grid with an array has no repetitions, and the boxes stand in order.
pub record IsValid (g : Grid) (sel : List ℕ) : Type 0 where
  pub selects : g.selected ≡ some sel
  pub array : g.has_checked_array ≡ true
  pub distinct : IsDistinct sel
  pub ordered : IsOrdered 0 g.checkedbox

abbrev pub is_nonempty : Checked → Bool
is_nonempty [] = false
is_nonempty (_ ∷ _) = true

-- What `checkboxChange` leaves, with the selection `sel'`.
pub record Changed (g g' : Grid) (sel sel' : List ℕ) : Type 0 where
  pub valid : IsValid g' sel'
  pub shown : g'.checkbox ≡ some sel'
  pub boxes : g'.checkedbox ≡ g.checkedbox
  pub chosen : (id : ℕ) → contains id sel' ≡ box_or (box_of id g.checkedbox) (contains id sel)
  pub head : g'.checkedbox_all ≡ (is_nonempty g.checkedbox && all_checked g.checkedbox)

unfoldable pub changed : Grid → List ℕ → Grid
changed g sel =
    let sel' = update_all sel g.checkedbox in
    record g {
      selected = some sel';
      checkbox = some sel';
      checkedbox_all = is_nonempty g.checkedbox && all_checked g.checkedbox;
    }

pub checkbox_change-changed :
    (has : Bool) (sel : List ℕ) (outer : Option (List ℕ)) (m : Checked) (all : Bool)
    → let g : Grid = record {
      has_checked_array = has;
      selected = some sel;
      checkbox = outer;
      checkedbox = m;
      checkedbox_all = all;
    } in
      checkbox_change g ≡ some (changed g sel)
unfolding checkbox_change changed update_all
checkbox_change-changed has sel outer [] all = refl
checkbox_change-changed has sel outer (box ∷ boxes) all = refl

pub checkbox_change_eq :
    (g : Grid) (sel : List ℕ) → g.selected ≡ some sel → checkbox_change g ≡ some (changed g sel)
checkbox_change_eq g sel h =
    subst (λ s. checkbox_change (record g { selected = s }) ≡ some (changed g sel)) (sym h)
      (unfold changed in
        checkbox_change-changed g.has_checked_array sel g.checkbox g.checkedbox g.checkedbox_all)

pub changed-Changed :
    (g : Grid) (sel : List ℕ)
    → IsValid g sel
    → Changed g (changed g sel) sel (update_all sel g.checkedbox)
unfolding changed
changed-Changed g sel v = record {
  valid = record {
    selects = refl;
    array = v.array;
    distinct = IsDistinct-update_all sel g.checkedbox v.distinct;
    ordered = v.ordered;
  };
  shown = refl;
  boxes = refl;
  chosen = λ id. contains-update_all id 0 sel g.checkedbox v.distinct v.ordered;
  head = refl;
}

-- `checkboxChange` succeeds on a valid grid and leaves one: an id is selected exactly if its box is
-- checked, or if it has no box and was selected before; the outer binding shows the selection, and
-- the box in the head is checked exactly if there are boxes and all are checked.
pub checkbox_change_lem :
    (g : Grid) (sel : List ℕ)
    → IsValid g sel
    → (g' : Grid) × (sel' : List ℕ) × (checkbox_change g ≡ some g') × Changed g g' sel sel'
checkbox_change_lem g sel v = (
  changed g sel,
  update_all sel g.checkedbox,
  checkbox_change_eq g sel v.selects,
  changed-Changed g sel v,
)
