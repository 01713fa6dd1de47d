-- ===== src/Sidebar.antt =====
-- The sidebar: frontend/static/app/layout/directives/sidebar.directive.js. The classes and the
-- visibility of elements are the state; a jQuery animation changes the visibility when it ends.
pub mod Menu
pub mod Clicked
pub mod Tidy
pub mod Collapse
mod Tests
use chat_bot_hub.Prelude.{
  ℕ, zero, suc, ◌+◌, String, str_eq, Bool, true, false, not, Option, none, some, List, [], ◌∷◌, map,
  get_elem?, set, if◌then◌else◌,
}

-- An element `li` of one list, with the submenu in it: `is_open` is its class, `visible` what
-- `is(":visible")` yields of the submenu, and `will_show` whether it is visible once the animations
-- that were begun have ended.
pub record Item : Type 0 where
  pub has_sub : Bool
  pub always_open : Bool
  pub is_open : Bool
  pub visible : Bool
  pub will_show : Bool

-- `slideUp` keeps an element visible until its end.
unfoldable pub slide_up : Item → Item
slide_up it = record it { will_show = false }

unfoldable pub slide_down : Item → Item
slide_down it = record it { visible = true; will_show = true }

-- What happens to each `li.open` of the list.
unfoldable pub close : Item → Item
close it =
    if it.is_open
    then record (if it.always_open then it else slide_up it) { is_open = false }
    else it

-- What happens to the element of the link that was clicked.
unfoldable pub turn : Item → Item
turn it =
    if it.visible
    then slide_up (record it { is_open = false })
    else slide_down (record it { is_open = true })

-- `sildeExpand` for a link in the element at the place; `viewPortWidth < breakpoint` is
-- 1280 < 992, so that without a submenu nothing happens.
unfoldable pub slide_expand : List Item → ℕ → List Item
slide_expand items i = elim (get_elem? items i) [
  | none ↦ items
  | some it ↦ if it.has_sub then set (map close items) i (turn (close it)) else items
]

-- The animations of an element end.
unfoldable pub settle : Item → Item
settle it = record it { visible = it.will_show }

unfoldable pub ended : List Item → ℕ → List Item
ended items i = elim (get_elem? items i) [ none ↦ items | some it ↦ set items i (settle it) ]

-- A link of the sidebar: its `hash` and the place of the submenu that it stands in.
pub record Link : Type 0 where
  pub hash : String
  pub sub : Option ℕ

-- For a link that leads to the new address: its submenu is opened, unless it is visible. Outside a
-- submenu `sildeExpand` is given no element, and does nothing.
unfoldable pub follow : String → List Item → Link → List Item
follow hash items l = elim l.sub [
  | none ↦ items
  | some i ↦ elim (get_elem? items i) [
    | none ↦ items
    | some it ↦
        if str_eq l.hash hash then (if it.visible then items else slide_expand items i) else items
  ]
]

-- `$locationChangeSuccess`: the loop over the links.
unfoldable pub on_location : String → List Item → List Link → List Item
on_location hash items [] = items
on_location hash items (l ∷ ls) = on_location hash (follow hash items l) ls

-- What happens to a list: a click on the link of an element, the end of its animations, and a change
-- of the address.
pub data Change : Type 0 where
  clicked animation_ended : ℕ → Change
  address_changed : String → Change

unfoldable pub changed : List Link → List Item → Change → List Item
changed links items (clicked i) = slide_expand items i
changed links items (animation_ended i) = ended items i
changed links items (address_changed hash) = on_location hash items links

unfoldable pub changes : List Link → List Item → List Change → List Item
changes links items [] = items
changes links items (c ∷ cs) = changes links (changed links items c) cs

-- The button that collapses the sidebar: the class of the body, that of the menu, and how many times
-- the two handlers of the mouse are bound.
pub record Bar : Type 0 where
  pub body_closed : Bool
  pub menu_closed : Bool
  pub hovers : ℕ

-- `sildeToggle`.
unfoldable pub slide_toggle : Bar → Bar
slide_toggle b =
    if b.body_closed
    then record { body_closed = false; menu_closed = false; hovers = 0 }
    else record { body_closed = true; menu_closed = true; hovers = b.hovers + 1 }

-- `sildeEnter` and `sildeLeave`.
unfoldable pub slide_enter : Bar → Bar
slide_enter b = if b.menu_closed then record b { menu_closed = false } else b

unfoldable pub slide_leave : Bar → Bar
slide_leave b = record b { menu_closed = true }

pub data Event : Type 0 where
  toggler_clicked mouse_entered mouse_left : Event

-- Each of the handlers that are bound runs.
unfoldable pub times : ℕ → (Bar → Bar) → Bar → Bar
times zero f b = b
times (suc n) f b = times n f (f b)

unfoldable pub on_event : Bar → Event → Bar
on_event b toggler_clicked = slide_toggle b
on_event b mouse_entered = times b.hovers slide_enter b
on_event b mouse_left = times b.hovers slide_leave b

unfoldable pub run : Bar → List Event → Bar
run b [] = b
run b (e ∷ es) = run (on_event b e) es

abbrev pub expanded : Bar
expanded = record { body_closed = false; menu_closed = false; hovers = 0 }
