-- ===== src/Sidebar/Clicked.antt =====
-- What a click on a link of a submenu makes of the element at a place.
use chat_bot_hub.Prelude.{
  ℕ, true, false, some, List, ◌==◌, get_elem?, ◌≡◌, ap, sym, ◌∙◌, arith, if◌then◌else◌, Bool-cases,
  inl, inr,
}
use chat_bot_hub.Sidebar.{Item, slide_up, slide_down, close, turn, slide_expand}
use chat_bot_hub.Sidebar.Menu.{written, expanded_lem}

-- The element at a place behind a click on a link of a submenu.
pub expanded_at :
    (items : List Item) (i j : ℕ) (it a : Item)
    → get_elem? items i ≡ some it
    → it.has_sub ≡ true
    → get_elem? (slide_expand items i) j ≡ some a
    → (x : Item) × (get_elem? items j ≡ some x)
      × (a ≡ (if j == i then turn (close it) else close x))
expanded_at items i j it a h k g =
    written close items i j (turn (close it)) a
      (ap (λ (l : List Item). get_elem? l j) (sym (expanded_lem items i it h k)) ∙ g)

pub open_at :
    (i j : ℕ) (it x a : Item)
    → a ≡ (if j == i then turn (close it) else close x)
    → a.is_open ≡ true
    → j ≡ i
unfolding turn close slide_up slide_down
open_at i j it x a h k = ground (arith, h, k)

pub turn_shown : (y : Item) → (turn y).will_show ≡ (turn y).is_open
unfolding turn slide_up slide_down
turn_shown y = ground arith

pub close_shown :
    (x : Item)
    → (x.always_open ≡ false → x.will_show ≡ x.is_open)
    → (close x).always_open ≡ false
    → (close x).will_show ≡ (close x).is_open
unfolding close slide_up
close_shown x s k = elim (Bool-cases x.always_open) [
  | inl always ↦ ground (arith, k, always)
  | inr sometimes ↦ ground (arith, s sometimes, sometimes)
]
