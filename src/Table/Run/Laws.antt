-- ===== src/Table/Run/Laws.antt =====
-- What the boxes show of the selection in every run.
use chat_bot_hub.Prelude.{
  ℕ, Bool, true, false, ◌&&◌, Option, none, some, List, [], ◌∷◌, if◌then◌else◌, ◌≡◌, refl, ap, ◌∙◌,
  arith,
}
use chat_bot_hub.Table.{Grid, init, contains, put, checkbox_all_change, toggle, rows_changed}
use chat_bot_hub.Table.Selection.{IsDistinct, box_of}
use chat_bot_hub.Table.Change.{IsValid, checkbox_change_lem}
use chat_bot_hub.Table.Toggle.{IsOrdered-put, box_of-put, checkbox_all_change_lem, box_of-set_all}
use chat_bot_hub.Table.Rows.{rows_changed_lem}
use chat_bot_hub.Table.Run.{
  Page, opened, Event, timer_fired, shows, clicked, all_clicked, with_grid, checkbox_init, is_shown,
  show_rows, click, click_all, step, run,
}

-- Each row that is shown has a box, which is checked exactly if the row is selected, and there is no
-- other box.
abbrev pub Shows : Option (List ℕ) → List ℕ → Grid → Type 0
Shows rows sel g =
    (j : ℕ) → box_of j g.checkedbox ≡ (if is_shown rows j then some (contains j sel) else none)

pub record InStep (p : Page) (sel : List ℕ) : Type 0 where
  pub valid : IsValid p.grid sel
  pub early : p.ready ≡ false → p.watched ≡ false
  pub agree : p.watched ≡ true → Shows p.rows sel p.grid

-- An operation succeeds, and the page and the selection then satisfy `I`.
abbrev pub Goes : (Page → List ℕ → Type 0) → Option Page → Type 0
Goes I o = (p : Page) × (sel : List ℕ) × (o ≡ some p) × I p sel

pub Goes-if :
    (I : Page → List ℕ → Type 0) (b : Bool) (o q : Option Page)
    → (b ≡ true → Goes I o)
    → (b ≡ false → Goes I q)
    → Goes I (if b then o else q)
Goes-if I true o q h k = h refl
Goes-if I false o q h k = k refl

pub Goes-refl : (I : Page → List ℕ → Type 0) (p : Page) (sel : List ℕ) → I p sel → Goes I (some p)
Goes-refl I p sel i = (p, sel, refl, i)

toggle-Shows :
    (rows : Option (List ℕ)) (g : Grid) (sel : List ℕ) (id : ℕ) (b : Bool)
    → IsValid g sel
    → (g' : Grid) × (sel' : List ℕ) × (toggle g id b ≡ some g')
      × IsValid g' sel'
      × (is_shown rows id ≡ true → Shows rows sel g → Shows rows sel' g')
unfolding toggle
toggle-Shows rows g sel id b v =
    let ordered = IsOrdered-put 0 id b g.checkedbox (omega arith) v.ordered in
    let (g', sel', e, c) =
      checkbox_change_lem (record g { checkedbox = put id b g.checkedbox }) sel
        (record {
          selects = v.selects;
          array = v.array;
          distinct = v.distinct;
          ordered = ordered;
        }) in
    (
      g',
      sel',
      e,
      c.valid,
      λ here s j.
          ap (box_of j) c.boxes
          ∙ ground (arith, box_of-put 0 j id b g.checkedbox v.ordered, c.chosen j, s j, here),
    )

all-Shows :
    (rows : Option (List ℕ)) (g : Grid) (sel : List ℕ) (b : Bool)
    → IsValid g sel
    → (g' : Grid) × (sel' : List ℕ) × (checkbox_all_change g b ≡ some g')
      × IsValid g' sel'
      × (Shows rows sel g → Shows rows sel' g')
all-Shows rows g sel b v =
    let (g', sel', e, valid, head, chosen, boxes) = checkbox_all_change_lem g sel b v in
    (
      g',
      sel',
      e,
      valid,
      λ s j. ap (box_of j) boxes ∙ ground (arith, box_of-set_all j b g.checkedbox, chosen j, s j),
    )

-- The grid after an operation, put back into the page.
with_grid-InStep :
    (p : Page) (o : Option Grid) (g : Grid) (sel : List ℕ)
    → o ≡ some g
    → (p.ready ≡ false → p.watched ≡ false)
    → IsValid g sel
    → (p.watched ≡ true → Shows p.rows sel g)
    → Goes InStep (with_grid p o)
with_grid-InStep p o g sel e early valid agree =
    (record p { grid = g }, sel, rw e refl, record { valid = valid; early = early; agree = agree })

-- `checkboxInit` has run.
no_longer : (b : Bool) → true ≡ false → b ≡ false
no_longer b h = absurd (cc)

rows_changed-InStep :
    (p : Page) (ids sel : List ℕ)
    → p.rows ≡ some ids
    → (p.ready ≡ false → p.watched ≡ false)
    → IsValid p.grid sel
    → Goes InStep (with_grid p (rows_changed p.grid ids))
rows_changed-InStep p ids sel e early valid =
    let (g, same, kept, boxes) = rows_changed_lem p.grid sel ids valid in
    with_grid-InStep p (rows_changed p.grid ids) g sel same early kept (λ _ j. rw e (boxes j))

checkbox_init-InStep :
    (rows : Option (List ℕ)) (p : Page) (sel : List ℕ)
    → p.rows ≡ rows
    → InStep p sel
    → Goes InStep (checkbox_init rows p)
unfolding checkbox_init
checkbox_init-InStep none p sel e i = (
  record p { ready = true },
  sel,
  refl,
  record { valid = i.valid; early = no_longer p.watched; agree = i.agree },
)
checkbox_init-InStep (some ids) p sel e i =
    rows_changed-InStep (record p { ready = true; watched = true }) ids sel e (no_longer true)
      i.valid

-- A page without a watch, whatever its boxes.
unwatched-InStep : (p : Page) (sel : List ℕ) → p.watched ≡ false → IsValid p.grid sel → InStep p sel
unwatched-InStep p sel w valid = record {
  valid = valid;
  early = λ _. w;
  agree = λ (h : p.watched ≡ true). absurd (ground (arith, h, w));
}

show_rows-InStep :
    (ids : List ℕ) (p : Page) (sel : List ℕ) → InStep p sel → Goes InStep (show_rows false ids p)
unfolding show_rows
show_rows-InStep ids p sel i =
    let next = record p { rows = some ids } in
    Goes-if InStep (p.watched && true) (with_grid next (rows_changed p.grid ids)) (some next)
      (λ w. rows_changed-InStep next ids sel refl i.early i.valid)
      (λ w. Goes-refl InStep next sel (unwatched-InStep next sel (ground (arith, w)) i.valid))

click-InStep :
    (id : ℕ) (b : Bool) (p : Page) (sel : List ℕ) → InStep p sel → Goes InStep (click id b p)
unfolding click
click-InStep id b p sel i =
    let (g, sel', e, valid, kept) = toggle-Shows p.rows p.grid sel id b i.valid in
    let early : Page = record p {
      grid = record p.grid { checkedbox = put id b p.grid.checkedbox };
    } in
    Goes-if InStep (is_shown p.rows id) _ (some p)
      (λ here.
        Goes-if InStep p.ready (with_grid p (toggle p.grid id b)) (some early)
          (λ ready.
            with_grid-InStep p (toggle p.grid id b) g sel' e i.early valid
              (λ w. kept here (i.agree w)))
          (λ unready. Goes-refl InStep early sel (
            unwatched-InStep early sel (i.early unready) (record {
              selects = i.valid.selects;
              array = i.valid.array;
              distinct = i.valid.distinct;
              ordered = IsOrdered-put 0 id b p.grid.checkedbox (omega arith) i.valid.ordered;
            }))))
      (λ away. Goes-refl InStep p sel i)

click_all-InStep : (b : Bool) (p : Page) (sel : List ℕ) → InStep p sel → Goes InStep (click_all b p)
unfolding click_all
click_all-InStep b p sel i =
    let (g, sel', e, valid, kept) = all-Shows p.rows p.grid sel b i.valid in
    let early : Page = record p { grid = record p.grid { checkedbox_all = b } } in
    Goes-if InStep p.ready (with_grid p (checkbox_all_change p.grid b)) (some early)
      (λ ready.
        with_grid-InStep p (checkbox_all_change p.grid b) g sel' e i.early valid
          (λ w. kept (i.agree w)))
      (λ unready. Goes-refl InStep early sel (
        unwatched-InStep early sel (i.early unready) (record {
          selects = i.valid.selects;
          array = i.valid.array;
          distinct = i.valid.distinct;
          ordered = i.valid.ordered;
        })))

step-InStep : (e : Event) (p : Page) (sel : List ℕ) → InStep p sel → Goes InStep (step false e p)
unfolding step
step-InStep timer_fired p sel i =
    Goes-if InStep p.ready (some p) (checkbox_init p.rows p) (λ _. Goes-refl InStep p sel i)
      (λ _. checkbox_init-InStep p.rows p sel refl i)
step-InStep (shows ids) p sel i = show_rows-InStep ids p sel i
step-InStep (clicked id b) p sel i = click-InStep id b p sel i
step-InStep (all_clicked b) p sel i = click_all-InStep b p sel i

run-InStep :
    (es : List Event) (p : Page) (sel : List ℕ) → InStep p sel → Goes InStep (run false es p)
unfolding run
run-InStep [] p sel i = Goes-refl InStep p sel i
run-InStep (e ∷ es) p sel i =
    let (q, sel', eq, j) = step-InStep e p sel i in rw (run, eq) (run-InStep es q sel' j)

-- Without a filter, and with an array of distinct ids selected at the start, no run throws, whatever is
-- shown, clicked and fired in what order: the selection keeps distinct, and once a watch is set each
-- row that is shown has a box, which is checked exactly if the row is selected, and no other row has.
pub run-opened :
    (ids : List ℕ) (es : List Event)
    → IsDistinct ids
    → (p : Page) × (sel : List ℕ) × (run false es (opened (some ids)) ≡ some p) × InStep p sel
unfolding opened init
run-opened ids es d = run-InStep es (opened (some ids)) ids (
    unwatched-InStep (opened (some ids)) ids refl
      (record { selects = refl; array = refl; distinct = d; ordered = tt }))
