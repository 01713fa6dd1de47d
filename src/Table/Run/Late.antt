-- ===== src/Table/Run/Late.antt =====
-- A table whose data comes after the timer of `link`.
use chat_bot_hub.Prelude.{
  ℕ, Bool, true, false, ◌&&◌, not, Option, none, some, List, [], ◌∷◌, ◌==◌, ◌≡◌, refl, ap, ◌∙◌,
  arith,
}
use chat_bot_hub.Table.{Grid, init, contains, put, checkbox_all_change, toggle}
use chat_bot_hub.Table.Selection.{IsDistinct, box_of}
use chat_bot_hub.Table.Change.{IsValid, checkbox_change_lem}
use chat_bot_hub.Table.Toggle.{IsOrdered-put, box_of-put, checkbox_all_change_lem, box_of-set_all}
use chat_bot_hub.Table.Run.{
  Page, opened, Event, timer_fired, shows, clicked, all_clicked, with_grid, checkbox_init, is_shown,
  same_length, show_rows, click, click_all, step, run,
}
use chat_bot_hub.Table.Run.Laws.{Goes, Goes-if, Goes-refl}

-- No event is a click on this row.
abbrev pub Avoids : ℕ → Event → Type 0
Avoids j (clicked id b) = (id == j) ≡ false
Avoids j _ = Unit {0}

abbrev pub AllAvoid : ℕ → List Event → Type 0
AllAvoid j [] = Unit {0}
AllAvoid j (e ∷ es) = Avoids j e × AllAvoid j es

-- The row is selected, and has no box.
pub record Misses (j : ℕ) (g : Grid) (sel : List ℕ) : Type 0 where
  pub valid : IsValid g sel
  pub no_box : box_of j g.checkedbox ≡ none
  pub selected_lem : contains j sel ≡ true

pub record IsLate (j : ℕ) (p : Page) (sel : List ℕ) : Type 0 where
  pub ready_lem : p.ready ≡ true
  pub unwatched : p.watched ≡ false
  pub misses : Misses j p.grid sel

module _ (j : ℕ) where
  abbrev MissesAfter : Option Grid → Type 0
  MissesAfter o = (g : Grid) × (sel : List ℕ) × (o ≡ some g) × Misses j g sel

  toggle-Misses :
      (g : Grid) (sel : List ℕ) (id : ℕ) (b : Bool)
      → (id == j) ≡ false
      → Misses j g sel
      → MissesAfter (toggle g id b)
  unfolding toggle
  toggle-Misses g sel id b other m =
      let ordered = IsOrdered-put 0 id b g.checkedbox (omega arith) m.valid.ordered in
      let kept : box_of j (put id b g.checkedbox) ≡ none =
        ground (arith, box_of-put 0 j id b g.checkedbox m.valid.ordered, other, m.no_box) in
      let (g', sel', e, c) =
        checkbox_change_lem (record g { checkedbox = put id b g.checkedbox }) sel
          (record {
            selects = m.valid.selects;
            array = m.valid.array;
            distinct = m.valid.distinct;
            ordered = ordered;
          }) in
      (
        g',
        sel',
        e,
        record {
          valid = c.valid;
          no_box = ap (box_of j) c.boxes ∙ kept;
          selected_lem = c.chosen j ∙ rw kept m.selected_lem;
        },
      )

  all-Misses :
      (g : Grid) (sel : List ℕ) (b : Bool) → Misses j g sel → MissesAfter (checkbox_all_change g b)
  all-Misses g sel b m =
      let (g', sel', e, valid, head, chosen, boxes) = checkbox_all_change_lem g sel b m.valid in
      (
        g',
        sel',
        e,
        record {
          valid = valid;
          no_box = ap (box_of j) boxes ∙ ground (arith, box_of-set_all j b g.checkedbox, m.no_box);
          selected_lem = chosen j ∙ ground (arith, m.no_box, m.selected_lem);
        },
      )

  with_grid-IsLate :
      (p : Page) (o : Option Grid)
      → p.ready ≡ true
      → p.watched ≡ false
      → MissesAfter o
      → Goes (IsLate j) (with_grid p o)
  with_grid-IsLate p o r u (g, sel, e, m) =
      (record p { grid = g }, sel, rw e refl, record { ready_lem = r; unwatched = u; misses = m })

  show_rows-IsLate :
      (filtered : Bool) (ids : List ℕ) (p : Page) (sel : List ℕ)
      → IsLate j p sel
      → Goes (IsLate j) (show_rows filtered ids p)
  unfolding show_rows
  show_rows-IsLate filtered ids p sel i =
      let next = record p { rows = some ids } in
      Goes-if (IsLate j) (p.watched && not (filtered && same_length p.rows ids)) _ (some next)
        (λ w. absurd (ground (arith, w, i.unwatched)))
        (λ _.
          Goes-refl (IsLate j) next sel
            (record { ready_lem = i.ready_lem; unwatched = i.unwatched; misses = i.misses }))

  click-IsLate :
      (id : ℕ) (b : Bool) (p : Page) (sel : List ℕ)
      → (id == j) ≡ false
      → IsLate j p sel
      → Goes (IsLate j) (click id b p)
  unfolding click
  click-IsLate id b p sel other i =
      Goes-if (IsLate j) (is_shown p.rows id) _ (some p)
        (λ here.
          Goes-if (IsLate j) p.ready (with_grid p (toggle p.grid id b)) _
            (λ r. with_grid-IsLate p _ r i.unwatched (toggle-Misses p.grid sel id b other i.misses))
            (λ r. absurd (ground (arith, r, i.ready_lem))))
        (λ away. Goes-refl (IsLate j) p sel i)

  click_all-IsLate :
      (b : Bool) (p : Page) (sel : List ℕ) → IsLate j p sel → Goes (IsLate j) (click_all b p)
  unfolding click_all
  click_all-IsLate b p sel i =
      Goes-if (IsLate j) p.ready (with_grid p (checkbox_all_change p.grid b)) _
        (λ r. with_grid-IsLate p _ r i.unwatched (all-Misses p.grid sel b i.misses))
        (λ r. absurd (ground (arith, r, i.ready_lem)))

  step-IsLate :
      (filtered : Bool) (e : Event) (p : Page) (sel : List ℕ)
      → Avoids j e
      → IsLate j p sel
      → Goes (IsLate j) (step filtered e p)
  unfolding step
  step-IsLate filtered timer_fired p sel h i =
      Goes-if (IsLate j) p.ready (some p) _ (λ _. Goes-refl (IsLate j) p sel i)
        (λ r. absurd (ground (arith, r, i.ready_lem)))
  step-IsLate filtered (shows ids) p sel h i = show_rows-IsLate filtered ids p sel i
  step-IsLate filtered (clicked id b) p sel h i = click-IsLate id b p sel h i
  step-IsLate filtered (all_clicked b) p sel h i = click_all-IsLate b p sel i

  further-IsLate :
      (filtered : Bool) (es : List Event) (p : Page) (sel : List ℕ)
      → AllAvoid j es
      → IsLate j p sel
      → Goes (IsLate j) (run filtered es p)
  unfolding run
  further-IsLate filtered [] p sel h i = Goes-refl (IsLate j) p sel i
  further-IsLate filtered (e ∷ es) p sel h i =
      let (q, sel', eq, k) = step-IsLate filtered e p sel h.0 i in
      rw (run, eq) (further-IsLate filtered es q sel' h.1 k)

  -- If the timer fires before there is data, then whatever rows are shown and clicked later, with a
  -- filter or without, a row that was selected at the start and is not clicked itself stays selected
  -- and has no box, and no watch is set.
  pub run-IsLate :
      (filtered : Bool) (ids : List ℕ) (es : List Event)
      → IsDistinct ids
      → contains j ids ≡ true
      → AllAvoid j es
      → (p : Page) × (sel : List ℕ) × (run filtered (timer_fired ∷ es) (opened (some ids)) ≡ some p)
        × IsLate j p sel
  unfolding run step opened init checkbox_init box_of
  run-IsLate filtered ids es d c h = further-IsLate filtered es _ ids h (record {
    ready_lem = refl;
    unwatched = refl;
    misses = record {
      valid = record { selects = refl; array = refl; distinct = d; ordered = tt };
      no_box = refl;
      selected_lem = c;
    };
  })
