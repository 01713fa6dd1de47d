-- ===== src/Table/Run.antt =====
-- The checkboxes of a table over time: the timer of `link`, the watches that it sets in `checkboxInit`,
-- the rows that are shown, and the clicks.
pub mod Laws
pub mod Late
mod Tests
use chat_bot_hub.Prelude.{
  ℕ, Bool, true, false, ◌&&◌, not, Option, none, some, List, [], ◌∷◌, length, ◌==◌, if◌then◌else◌,
}
use chat_bot_hub.Table.{Grid, init, contains, put, checkbox_all_change, toggle, rows_changed}

-- `rows` are the ids of `filter_grid_data`, none as long as it is undefined; `ready` says whether
-- `checkboxInit` has run, and `watched` whether it has set a watch.
pub record Page : Type 0 where
  pub grid : Grid
  pub rows : Option (List ℕ)
  pub ready : Bool
  pub watched : Bool

-- `link`.
unfoldable pub opened : Option (List ℕ) → Page
opened checkbox = record { grid = init checkbox; rows = none; ready = false; watched = false }

pub data Event : Type 0 where
  timer_fired : Event
  shows : List ℕ → Event
  clicked : ℕ → Bool → Event
  all_clicked : Bool → Event

abbrev pub with_grid : Page → Option Grid → Option Page
with_grid p none = none
with_grid p (some g) = some (record p { grid = g })

-- `checkboxInit`: a watch is only set where there is data, and is called at once.
unfoldable pub checkbox_init : Option (List ℕ) → Page → Option Page
checkbox_init none p = some (record p { ready = true })
checkbox_init (some ids) p =
    with_grid (record p { ready = true; watched = true }) (rows_changed p.grid ids)

abbrev pub same_length : Option (List ℕ) → List ℕ → Bool
same_length none ids = false
same_length (some old) ids = length old == length ids

-- Other rows are shown, in another array. With a filter only their number is watched.
unfoldable pub show_rows : Bool → List ℕ → Page → Option Page
show_rows filtered ids p =
    let next = record p { rows = some ids } in
    if p.watched && not (filtered && same_length p.rows ids)
    then with_grid next (rows_changed p.grid ids)
    else some next

abbrev pub is_shown : Option (List ℕ) → ℕ → Bool
is_shown none id = false
is_shown (some ids) id = contains id ids

-- The box of a row that is shown. Before `checkboxInit` there is no handler yet.
unfoldable pub click : ℕ → Bool → Page → Option Page
click id b p =
    if is_shown p.rows id
    then (if p.ready
        then with_grid p (toggle p.grid id b)
        else some (record p { grid = record p.grid { checkedbox = put id b p.grid.checkedbox } }))
    else some p

unfoldable pub click_all : Bool → Page → Option Page
click_all b p =
    if p.ready
    then with_grid p (checkbox_all_change p.grid b)
    else some (record p { grid = record p.grid { checkedbox_all = b } })

-- The timer fires once.
unfoldable pub step : Bool → Event → Page → Option Page
step filtered timer_fired p = if p.ready then some p else checkbox_init p.rows p
step filtered (shows ids) p = show_rows filtered ids p
step filtered (clicked id b) p = click id b p
step filtered (all_clicked b) p = click_all b p

infixl 5 ◌then_run◌
abbrev pub ◌then_run◌ : Option Page → (Page → Option Page) → Option Page
none then_run k = none
some p then_run k = k p

-- None is a TypeError.
unfoldable pub run : Bool → List Event → Page → Option Page
run filtered [] p = some p
run filtered (e ∷ es) p = step filtered e p then_run run filtered es
