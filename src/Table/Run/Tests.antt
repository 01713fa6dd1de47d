-- ===== src/Table/Run/Tests.antt =====
-- Two pages of rows, of which 7 and 9 are selected at the start.
use chat_bot_hub.Prelude.{ℕ, true, false, ◌≡◌, refl, some, List, [], ◌∷◌}
use chat_bot_hub.Table.{
  init, contains, put, update, update_all, all_checked, set_all, boxes_from, checkbox_change,
  checkbox_all_change, rows_changed,
}
use chat_bot_hub.Table.Selection.{IsDistinct}
use chat_bot_hub.Table.Run.{
  Page, opened, Event, timer_fired, shows, clicked, all_clicked, checkbox_init, show_rows,
  click_all, step, run,
}
use chat_bot_hub.Table.Run.Laws.{InStep, run-opened}
use chat_bot_hub.Table.Run.Late.{AllAvoid, IsLate, run-IsLate}

abbrev start : List ℕ
start = 9 ∷ 7 ∷ []

start-IsDistinct : IsDistinct start
unfolding contains
start-IsDistinct = (refl, (refl, tt))

abbrev events : List Event
events =
    shows (3 ∷ 7 ∷ []) ∷ timer_fired ∷ clicked 3 true ∷ shows (9 ∷ 8 ∷ []) ∷ all_clicked false ∷ []

run-opened_example :
    (p : Page) × (sel : List ℕ) × (run false events (opened (some start)) ≡ some p) × InStep p sel
run-opened_example = run-opened start events start-IsDistinct

abbrev late : List Event
late = shows (3 ∷ 7 ∷ []) ∷ clicked 3 true ∷ all_clicked true ∷ []

late_avoids : AllAvoid 7 late
late_avoids = (tt, (refl, (tt, tt)))

has_7 : contains 7 start ≡ true
unfolding contains
has_7 = refl

run-IsLate_example :
    (p : Page) × (sel : List ℕ) × (run false (timer_fired ∷ late) (opened (some start)) ≡ some p)
    × IsLate 7 p sel
run-IsLate_example = run-IsLate 7 false start late start-IsDistinct has_7 late_avoids

-- With a filter a page of the same length is not noticed: the box in the head selects the rows of the
-- page before.
unnoticed :
    run true
      (shows (1 ∷ 2 ∷ []) ∷ timer_fired ∷ shows (3 ∷ 4 ∷ []) ∷ all_clicked true ∷ [])
      (opened (some []))
    ≡ some (record {
      grid = record {
        has_checked_array = true;
        selected = some (1 ∷ 2 ∷ []);
        checkbox = some (1 ∷ 2 ∷ []);
        checkedbox = (1, true) ∷ (2, true) ∷ [];
        checkedbox_all = true;
      };
      rows = some (3 ∷ 4 ∷ []);
      ready = true;
      watched = true;
    })
unfolding run step opened init checkbox_init show_rows click_all rows_changed boxes_from
    checkbox_change checkbox_all_change set_all update_all update contains put all_checked
unnoticed = refl
