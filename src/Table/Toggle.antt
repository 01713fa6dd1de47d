-- ===== src/Table/Toggle.antt =====
-- A click on a box of a row, and on the box in the head.
use chat_bot_hub.Prelude.{
  ℕ, ◌+◌, ◌≤◌, Bool, true, false, ◌≡◌, refl, ◌∙◌, Option, none, some, List, [], ◌∷◌, arith, ◌==◌,
  if◌then◌else◌,
}
use chat_bot_hub.Table.{
  Checked, Grid, contains, put, all_checked, set_all, checkbox_all_change, toggle,
}
use chat_bot_hub.Table.Selection.{IsOrdered, box_of}
use chat_bot_hub.Table.Change.{IsValid, is_nonempty, checkbox_change_lem}

pub IsOrdered-le : (lo hi : ℕ) (m : Checked) → lo ≤ hi → IsOrdered hi m → IsOrdered lo m
IsOrdered-le lo hi [] h o = tt
IsOrdered-le lo hi ((id, b) ∷ m) h o = (omega arith, o.1)

pub IsOrdered-put :
    (lo id : ℕ) (b : Bool) (m : Checked) → lo ≤ id → IsOrdered lo m → IsOrdered lo (put id b m)
unfolding put
IsOrdered-put lo id b [] h o = (h, tt)
IsOrdered-put lo id b ((j, c) ∷ m) h o = ground (arith, IsOrdered-put (j + 1) id b m, o)

pub box_of-put :
    (lo j id : ℕ) (b : Bool) (m : Checked)
    → IsOrdered lo m
    → box_of j (put id b m) ≡ (if id == j then some b else box_of j m)
unfolding put box_of
box_of-put lo j id b [] o = refl
box_of-put lo j id b ((k, c) ∷ m) o = ground (arith, box_of-put (k + 1) j id b m o.1)

-- A click on a box selects or unselects its row, and changes no row without a box.
pub toggle_lem :
    (g : Grid) (sel : List ℕ) (id : ℕ) (b : Bool)
    → IsValid g sel
    → (g' : Grid) × (sel' : List ℕ) × (toggle g id b ≡ some g')
      × IsValid g' sel'
      × (contains id sel' ≡ b)
      × ((j : ℕ)
          → box_of j g.checkedbox ≡ none
          → (id == j) ≡ false
          → contains j sel' ≡ contains j sel)
unfolding toggle
toggle_lem g sel id b v =
    let h : Grid = record g { checkedbox = put id b g.checkedbox } in
    let (g', sel', e, c) = checkbox_change_lem h sel (record {
      selects = v.selects;
      array = v.array;
      distinct = v.distinct;
      ordered = IsOrdered-put 0 id b g.checkedbox (omega arith) v.ordered;
    }) in
    (
      g',
      sel',
      e,
      c.valid,
      c.chosen id ∙ (ground (arith, box_of-put 0 id id b g.checkedbox v.ordered)),
      λ j none_there other. c.chosen j ∙ ground (arith, box_of-put 0 j id b g.checkedbox v.ordered),
    )

pub box_of-set_all :
    (j : ℕ) (b : Bool) (m : Checked)
    → box_of j (set_all b m) ≡ elim (box_of j m) [ none ↦ none | some _ ↦ some b ]
unfolding box_of set_all
box_of-set_all j b [] = refl
box_of-set_all j b ((id, c) ∷ m) = ground (arith, box_of-set_all j b m)

IsOrdered-set_all : (lo : ℕ) (b : Bool) (m : Checked) → IsOrdered lo m → IsOrdered lo (set_all b m)
unfolding set_all
IsOrdered-set_all lo b [] o = tt
IsOrdered-set_all lo b ((id, c) ∷ m) o = (o.0, IsOrdered-set_all (id + 1) b m o.1)

all_checked-set_all :
    (b : Bool) (box : ℕ × Bool) (m : Checked) → all_checked (set_all b (box ∷ m)) ≡ b
unfolding all_checked set_all
all_checked-set_all b (id, c) [] = ground arith
all_checked-set_all b (id, c) (box ∷ m) = ground (arith, all_checked-set_all b box m)

-- A box that exists takes the value `b`.
abbrev pub some_box : Option Bool → Bool → Bool → Bool
some_box none b d = d
some_box (some _) b d = b

all_change_parts :
    (g : Grid) (sel : List ℕ) (b : Bool) (m : Checked)
    → g.checkedbox ≡ m
    → IsValid g sel
    → (g' : Grid) × (sel' : List ℕ) × (checkbox_all_change (record g { checkedbox = m }) b
        ≡ some g')
      × IsValid g' sel'
      × (g'.checkedbox_all ≡ b)
      × ((j : ℕ) → contains j sel' ≡ some_box (box_of j m) b (contains j sel))
      × (g'.checkedbox ≡ set_all b m)
unfolding checkbox_all_change box_of set_all
all_change_parts g sel b [] e v = (
  record g { checkedbox = []; checkedbox_all = b },
  sel,
  refl,
  record { selects = v.selects; array = v.array; distinct = v.distinct; ordered = tt },
  refl,
  λ j. refl,
  refl,
)
all_change_parts g sel b (box ∷ boxes) e v =
    let h : Grid = record g { checkedbox = set_all b (box ∷ boxes); checkedbox_all = b } in
    let (g', sel', r, c) = checkbox_change_lem h sel (record {
      selects = v.selects;
      array = v.array;
      distinct = v.distinct;
      ordered = IsOrdered-set_all 0 b (box ∷ boxes) (rw e at v.ordered);
    }) in
    (
      g',
      sel',
      r,
      c.valid,
      c.head ∙ ground (arith, all_checked-set_all b box boxes, nonempty b box boxes),
      λ j. c.chosen j ∙ ground (arith, box_of-set_all j b (box ∷ boxes)),
      c.boxes,
    )
  where
    nonempty : (b : Bool) (box : ℕ × Bool) (m : Checked) → is_nonempty (set_all b (box ∷ m)) ≡ true
    nonempty b (id, c) m = unfold set_all in refl

-- The box in the head selects all rows that have a box or none of them, and no other row; the other
-- boxes take its value, and it keeps the value that it was given.
pub checkbox_all_change_lem :
    (g : Grid) (sel : List ℕ) (b : Bool)
    → IsValid g sel
    → (g' : Grid) × (sel' : List ℕ) × (checkbox_all_change g b ≡ some g')
      × IsValid g' sel'
      × (g'.checkedbox_all ≡ b)
      × ((j : ℕ) → contains j sel' ≡ some_box (box_of j g.checkedbox) b (contains j sel))
      × (g'.checkedbox ≡ set_all b g.checkedbox)
checkbox_all_change_lem g sel b v = all_change_parts g sel b g.checkedbox refl v
