-- ===== src/Sidebar/Collapse.antt =====
-- What the button and the mouse do to the sidebar.
use chat_bot_hub.Prelude.{
  Bool, true, false, not, ◌&&◌, List, [], ◌∷◌, ◌≡◌, refl, ap, ◌∙◌, if◌then◌else◌,
}
use chat_bot_hub.Sidebar.{
  Bar, Event, toggler_clicked, mouse_entered, mouse_left, slide_toggle, slide_enter, slide_leave,
  times, on_event, run, expanded,
}

-- Behind an odd number of clicks on the button, if it was not collapsed at first.
unfoldable pub collapsed : Bool → List Event → Bool
collapsed c [] = c
collapsed c (toggler_clicked ∷ es) = collapsed (not c) es
collapsed c (mouse_entered ∷ es) = collapsed c es
collapsed c (mouse_left ∷ es) = collapsed c es

-- Whether the last event was that the mouse entered.
unfoldable pub is_inside : Bool → List Event → Bool
is_inside b [] = b
is_inside b (toggler_clicked ∷ es) = is_inside false es
is_inside b (mouse_entered ∷ es) = is_inside true es
is_inside b (mouse_left ∷ es) = is_inside false es

-- The state that the two say.
abbrev bar : Bool → Bool → Bar
bar closed inside = record {
  body_closed = closed;
  menu_closed = closed && not inside;
  hovers = if closed then 1 else 0;
}

toggle-bar :
    (closed inside : Bool) → on_event (bar closed inside) toggler_clicked ≡ bar (not closed) false
unfolding on_event slide_toggle slide_enter slide_leave times
toggle-bar true true = refl
toggle-bar true false = refl
toggle-bar false true = refl
toggle-bar false false = refl

enter-bar : (closed inside : Bool) → on_event (bar closed inside) mouse_entered ≡ bar closed true
unfolding on_event slide_toggle slide_enter slide_leave times
enter-bar true true = refl
enter-bar true false = refl
enter-bar false true = refl
enter-bar false false = refl

leave-bar : (closed inside : Bool) → on_event (bar closed inside) mouse_left ≡ bar closed false
unfolding on_event slide_toggle slide_enter slide_leave times
leave-bar true true = refl
leave-bar true false = refl
leave-bar false true = refl
leave-bar false false = refl

run-bar :
    (closed inside : Bool) (es : List Event)
    → run (bar closed inside) es ≡ bar (collapsed closed es) (is_inside inside es)
unfolding run collapsed is_inside
run-bar closed inside [] = refl
run-bar closed inside (toggler_clicked ∷ es) =
    ap (λ (b : Bar). run b es) (toggle-bar closed inside) ∙ run-bar (not closed) false es
run-bar closed inside (mouse_entered ∷ es) =
    ap (λ (b : Bar). run b es) (enter-bar closed inside) ∙ run-bar closed true es
run-bar closed inside (mouse_left ∷ es) =
    ap (λ (b : Bar). run b es) (leave-bar closed inside) ∙ run-bar closed false es

-- In every run from the expanded sidebar: the body is collapsed exactly behind an odd number of
-- clicks on the button; the handlers of the mouse are bound once while it is, and not otherwise; and
-- the menu is collapsed exactly if the body is and the last event was not that the mouse entered.
pub run-collapsed :
    (es : List Event)
    → ((run expanded es).body_closed ≡ collapsed false es)
      × ((run expanded es).hovers ≡ (if collapsed false es then 1 else 0))
      × ((run expanded es).menu_closed ≡ (collapsed false es && not (is_inside false es)))
run-collapsed es = let e = run-bar false false es in rw e (refl, refl, refl)
