-- ===== src/Sidebar/Tests.antt =====
-- The sidebar with an open and a hidden submenu.
use chat_bot_hub.Prelude.{
  get_elem?, some, Bool, true, false, not, ◌&&◌, some, List, [], ◌∷◌, get_elem?, ◌≡◌, if◌then◌else◌,
}
use chat_bot_hub.Sidebar.{
  Link, Change, clicked, animation_ended, address_changed, Item, Event, toggler_clicked,
  mouse_entered, mouse_left, run, expanded,
}
use chat_bot_hub.Sidebar.Collapse.{collapsed, is_inside, run-collapsed}

abbrev item : Bool → Item
item open_ = record {
  has_sub = true;
  always_open = false;
  is_open = open_;
  visible = open_;
  will_show = open_;
}

abbrev items : List Item
items = item true ∷ item false ∷ []

abbrev events : List Event
events = toggler_clicked ∷ mouse_left ∷ mouse_entered ∷ []

run-collapsed_example :
    ((run expanded events).body_closed ≡ collapsed false events)
    × ((run expanded events).hovers ≡ (if collapsed false events then 1 else 0))
    × ((run expanded events).menu_closed ≡ (collapsed false events && not (is_inside false events)))
run-collapsed_example = run-collapsed events

abbrev links : List Link
links = record { hash = "#/app/manage/botslist"; sub = some 0 } ∷ []

abbrev steps : List Change
steps = clicked 1 ∷ animation_ended 0 ∷ address_changed "#/app/manage/botslist" ∷ []
