-- ===== src/View/Tests.antt =====
-- The split bar of a grid that is 300 pixels high.
use chat_bot_hub.View.FullHeight
use chat_bot_hub.View.FullHeight.{Measures, started, firings, run-watches}
use chat_bot_hub.Prelude.{
  true, List, ◌+◌, if◌then◌else◌, [], ◌∷◌, false, ◌≡◌, refl, some, none, arith,
}
use chat_bot_hub.Js.{nan}
use chat_bot_hub.Prelude.Int.{pos, ◌+ℤ◌, ◌-ℤ◌, ◌≤ℤ◌}
use chat_bot_hub.View.{
  Ctrl, Grid, Grip, style_of, linked, down_arrow, grab, move, top_value, here, next, down,
}
use chat_bot_hub.View.Arrows.{IsConsistent, Reach-IsConsistent}
use chat_bot_hub.View.Drag.{IsGrip, move_lem}

abbrev ctrl : Ctrl
ctrl = record {
  header_height = pos 40;
  footer_height = pos 300;
  style_obj = style_of (pos 40) (pos 300);
  is_hide = false;
}

abbrev grip : Grip
grip = record {
  top = pos 500;
  current_y = pos 603;
  window_height = pos 900;
  container_height = pos 800;
}

abbrev held : Grid
held = grab grip (linked ctrl (pos 300))

is_held : held.drag ≡ some grip
unfolding grab linked
is_held = refl

grip-IsGrip : IsGrip grip (pos 3)
grip-IsGrip = record { place = unfold ◌+ℤ◌ ◌-ℤ◌ in refl; below = omega arith }

dragged_to_top : (move (pos 10) held).tmp_top ≡ pos 604
unfolding move grab linked top_value ◌+ℤ◌ ◌-ℤ◌
dragged_to_top = refl

has_room : held.max_height +ℤ pos 150 ≤ℤ grip.container_height
unfolding grab linked ◌+ℤ◌
has_room = omega arith

move_lem_example :
    (pos 150 ≤ℤ (move (pos 10) held).tmp_top)
    × ((move (pos 10) held).tmp_top ≤ℤ grip.container_height -ℤ held.max_height +ℤ pos 3)
move_lem_example = move_lem held grip (pos 3) (pos 10) is_held grip-IsGrip has_room

abbrev lowered : Grid
lowered = down_arrow (linked ctrl (pos 300))

at_rest : (linked ctrl (pos 300)).drag ≡ none
unfolding linked
at_rest = refl

Reach-IsConsistent_example : IsConsistent lowered
Reach-IsConsistent_example =
    Reach-IsConsistent ctrl (pos 300) lowered refl (next here (down at_rest))

start-IsConsistent : IsConsistent (linked ctrl (pos 300))
start-IsConsistent = Reach-IsConsistent ctrl (pos 300) (linked ctrl (pos 300)) refl here

abbrev measured : Measures
measured = record { page = pos 900; window = pos 700; excluded = [] }

abbrev heights : List FullHeight.Event
heights = FullHeight.resized ∷ FullHeight.timer_fired measured ∷ FullHeight.resized ∷ []

run-watches_example :
    ((FullHeight.run true nan started heights).height_watches ≡ 1 + firings true heights)
    × ((FullHeight.run true nan started heights).if_watches
        ≡ (if true then firings true heights else 0))
run-watches_example = run-watches true nan heights
