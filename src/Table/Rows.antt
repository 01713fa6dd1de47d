-- ===== src/Table/Rows.antt =====
-- What happens when other rows are shown.
use mathlib.Core.Path.{ap₂}
use chat_bot_hub.Prelude.{
  ℕ, Bool, true, ◌≡◌, refl, ◌∙◌, ap, none, some, List, [], ◌∷◌, arith, if◌then◌else◌,
}
use chat_bot_hub.Table.{
  Checked, Grid, contains, put, update, update_all, boxes_from, checkbox_change, rows_changed,
}
use chat_bot_hub.Table.Selection.{IsOrdered, box_of}
use chat_bot_hub.Table.Change.{IsValid, changed, checkbox_change_eq}
use chat_bot_hub.Table.Toggle.{IsOrdered-put, box_of-put}

-- Each box shows whether its row is selected.
abbrev Agrees : List ℕ → Checked → Type 0
Agrees sel [] = Unit {0}
Agrees sel ((id, b) ∷ m) = (b ≡ contains id sel) × Agrees sel m

update-contains : (sel : List ℕ) (id : ℕ) → update sel id (contains id sel) ≡ sel
unfolding update
update-contains sel id = ground arith

update_all-Agrees : (sel : List ℕ) (m : Checked) → Agrees sel m → update_all sel m ≡ sel
unfolding update_all
update_all-Agrees sel [] h = refl
update_all-Agrees sel ((id, b) ∷ m) h = rw (h.0, update-contains) (update_all-Agrees sel m h.1)

Agrees-put :
    (sel : List ℕ) (id : ℕ) (m : Checked) → Agrees sel m → Agrees sel (put id (contains id sel) m)
unfolding put
Agrees-put sel id [] h = (refl, tt)
Agrees-put sel id ((j, c) ∷ m) h = ground (arith, Agrees-put sel id m h.1)

Agrees-boxes_from :
    (sel ids : List ℕ) (m : Checked) → Agrees sel m → Agrees sel (boxes_from true (some sel) ids m)
unfolding boxes_from
Agrees-boxes_from sel [] m h = h
Agrees-boxes_from sel (id ∷ ids) m h =
    Agrees-boxes_from sel ids (put id (contains id sel) m) (Agrees-put sel id m h)

IsOrdered-boxes_from :
    (sel ids : List ℕ) (m : Checked)
    → IsOrdered 0 m
    → IsOrdered 0 (boxes_from true (some sel) ids m)
unfolding boxes_from
IsOrdered-boxes_from sel [] m o = o
IsOrdered-boxes_from sel (id ∷ ids) m o =
    IsOrdered-boxes_from sel ids _ (IsOrdered-put 0 id (contains id sel) m (omega arith) o)

box_of-boxes_from :
    (j : ℕ) (sel ids : List ℕ) (m : Checked)
    → IsOrdered 0 m
    → box_of j (boxes_from true (some sel) ids m)
      ≡ (if contains j ids then some (contains j sel) else box_of j m)
unfolding boxes_from contains
box_of-boxes_from j sel [] m o = refl
box_of-boxes_from j sel (id ∷ ids) m o =
    let o' = IsOrdered-put 0 id (contains id sel) m (omega arith) o in
    box_of-boxes_from j sel ids (put id (contains id sel) m) o'
    ∙ ground (arith, box_of-put 0 j id (contains id sel) m o)

-- When other rows are shown, the selection stays as it is, and each of the new boxes shows whether
-- its row is selected.
pub rows_changed_lem :
    (g : Grid) (sel ids : List ℕ)
    → IsValid g sel
    → (g' : Grid) × (rows_changed g ids ≡ some g')
      × IsValid g' sel
      × ((j : ℕ)
          → box_of j g'.checkedbox ≡ (if contains j ids then some (contains j sel) else none))
unfolding rows_changed changed
rows_changed_lem g sel ids v =
    let boxes = boxes_from true (some sel) ids [] in
    let h : Grid = record g { checkedbox = boxes } in
    let same_boxes : boxes_from g.has_checked_array g.selected ids [] ≡ boxes =
      ap₂ (λ has s. boxes_from has s ids []) v.array v.selects in
    (
      changed h sel,
      ap (λ m. checkbox_change (record g { checkedbox = m })) same_boxes
          ∙ checkbox_change_eq h sel v.selects,
      record {
        selects = ap some (update_all-Agrees sel boxes (Agrees-boxes_from sel ids [] tt));
        array = v.array;
        distinct = v.distinct;
        ordered = IsOrdered-boxes_from sel ids [] tt;
      },
      λ j. box_of-boxes_from j sel ids [] tt ∙ no_box j (contains j ids) (contains j sel),
    )
  where
    no_box :
        (j : ℕ) (b c : Bool) → (if b then some c else box_of j []) ≡ (if b then some c else none)
    no_box j b c = unfold box_of in refl
