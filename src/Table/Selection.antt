-- ===== src/Table/Selection.antt =====
-- The list of selected ids as a set: what one change, or all the boxes shown, do to it.
use chat_bot_hub.Prelude.{
  ℕ, ◌+◌, ◌≤◌, ◌<◌, Bool, true, false, ◌≡◌, refl, Option, none, some, List, [], ◌∷◌, ◌++◌, arith,
  ◌==◌, if◌then◌else◌,
}
use chat_bot_hub.Table.{Checked, contains, remove, update, update_all}

abbrev pub IsDistinct : List ℕ → Type 0
IsDistinct [] = Unit {0}
IsDistinct (x ∷ xs) = (contains x xs ≡ false) × IsDistinct xs

-- The keys increase from `lo` on.
abbrev pub IsOrdered : ℕ → Checked → Type 0
IsOrdered lo [] = Unit {0}
IsOrdered lo ((id, b) ∷ m) = (lo ≤ id) × IsOrdered (id + 1) m

unfoldable pub box_of : ℕ → Checked → Option Bool
box_of id [] = none
box_of id ((j, b) ∷ m) = if j == id then some b else box_of id m

contains-append :
    (j : ℕ) (xs ys : List ℕ)
    → contains j (xs ++ ys) ≡ (if contains j xs then true else contains j ys)
unfolding contains
contains-append j [] ys = refl
contains-append j (x ∷ xs) ys = ground (arith, contains-append j xs ys)

contains-remove :
    (j id : ℕ) (xs : List ℕ)
    → IsDistinct xs
    → contains j (remove id xs) ≡ (if id == j then false else contains j xs)
unfolding contains remove
contains-remove j id [] h = ground arith
contains-remove j id (x ∷ xs) h = ground (arith, contains-remove j id xs h.1)

IsDistinct-remove : (id : ℕ) (xs : List ℕ) → IsDistinct xs → IsDistinct (remove id xs)
unfolding remove
IsDistinct-remove id [] h = tt
IsDistinct-remove id (x ∷ xs) h =
    ground (arith, IsDistinct-remove id xs h.1, contains-remove x id xs h.1)

IsDistinct-append :
    (id : ℕ) (xs : List ℕ) → IsDistinct xs → contains id xs ≡ false → IsDistinct (xs ++ id ∷ [])
unfolding contains
IsDistinct-append id [] h k = (refl, tt)
IsDistinct-append id (x ∷ xs) h k =
    ground (arith, IsDistinct-append id xs h.1, contains-append x xs (id ∷ []))

contains-update :
    (j id : ℕ) (b : Bool) (sel : List ℕ)
    → IsDistinct sel
    → contains j (update sel id b) ≡ (if id == j then b else contains j sel)
unfolding update
contains-update j id b sel h =
    ground (arith, contains-remove j id sel h, contains-append j sel (id ∷ []), single j id)
  where
    single : (j id : ℕ) → contains j (id ∷ []) ≡ (id == j)
    single j id = unfold contains in ground arith

IsDistinct-update :
    (id : ℕ) (b : Bool) (sel : List ℕ) → IsDistinct sel → IsDistinct (update sel id b)
unfolding update
IsDistinct-update id b sel h =
    ground (arith, IsDistinct-remove id sel h, IsDistinct-append id sel h)

pub IsDistinct-update_all :
    (sel : List ℕ) (m : Checked) → IsDistinct sel → IsDistinct (update_all sel m)
unfolding update_all
IsDistinct-update_all sel [] h = h
IsDistinct-update_all sel ((id, b) ∷ m) h =
    IsDistinct-update_all (update sel id b) m (IsDistinct-update id b sel h)

box_of-none : (j lo : ℕ) (m : Checked) → IsOrdered lo m → j < lo → box_of j m ≡ none
unfolding box_of
box_of-none j lo [] h k = refl
box_of-none j lo ((id, b) ∷ m) h k = ground (arith, box_of-none j (id + 1) m h.1)

abbrev pub box_or : Option Bool → Bool → Bool
box_or none d = d
box_or (some b) d = b

-- After the loop an id is selected if its box is checked, or if it has no box and was selected.
pub contains-update_all :
    (j lo : ℕ) (sel : List ℕ) (m : Checked)
    → IsDistinct sel
    → IsOrdered lo m
    → contains j (update_all sel m) ≡ box_or (box_of j m) (contains j sel)
unfolding update_all box_of
contains-update_all j lo sel [] h o = refl
contains-update_all j lo sel ((id, b) ∷ m) h o = ground (
  arith,
  contains-update_all j (id + 1) (update sel id b) m (IsDistinct-update id b sel h) o.1,
  contains-update j id b sel h,
  box_of-none j (id + 1) m o.1,
)
