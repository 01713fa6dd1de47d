-- ===== src/Pager.antt =====
-- `tablePager` of frontend/static/app/common/directives/pager.directive.js: the links that
-- `bulidPager` writes under a table, and the clicks on them. Page numbers are integers.
pub mod Clicks
pub mod Links
mod Tests
use chat_bot_hub.Prelude.{
  ◌&&◌, ℕ, zero, suc, ◌+◌, ◌-◌, Bool, true, false, Option, none, some, if◌then◌else◌, List, [], ◌∷◌,
  ◌++◌, ltb, leb, ◌==◌, get_elem?,
}
use chat_bot_hub.Js.{Num, int, Value, is_nan, truthy}
use chat_bot_hub.Prelude.Int.{ℤ, pos, ltb_ℤ, pos_part}

-- An entry of the list; its page is that of `data-page`, and none for an entry without a link.
pub data Entry : Type 0 where
  number : ℕ → Entry
  active : ℕ → Entry
  first_page prev_page next_page last_page : Option ℕ → Entry

-- `if(curPage <= 1)`: the page after it; `prevPage` is the negated test.
unfoldable pub at_least_one : ℤ → ℕ
at_least_one cur = if ltb_ℤ (pos 1) cur then pos_part cur else 1

-- `if(curPage >= total)`: the page after it; `nextPage` is the negated test.
unfoldable pub at_most : ℕ → ℕ → ℕ
at_most total cur = if leb total cur then total else cur

-- The loop of `i` from its first argument down to 1.
unfoldable pub before : ℕ → ℕ → List ℕ
before zero cur = []
before (suc i) cur =
    let rest = before i cur in if leb cur (suc i) then rest else (cur - suc i) ∷ rest

-- The loop of `i` upward, with the number of rounds that are left.
unfoldable pub after : ℕ → ℕ → ℕ → ℕ → List ℕ
after zero i cur total = []
after (suc left) i cur total =
    let rest = after left (i + 1) cur total in if ltb total (i + cur) then [] else (i + cur) ∷ rest

unfoldable pub numbers : List ℕ → List Entry
numbers [] = []
numbers (p ∷ ps) = number p ∷ numbers ps

-- What is written for a current page between 1 and the total, with the two flags.
unfoldable pub entries : ℕ → ℕ → ℕ → Bool → Bool → List Entry
entries cur total num has_prev has_next =
    first_page (if cur == 1 then none else some 1)
    ∷ prev_page (if has_prev then some (cur - 1) else none)
    ∷ (numbers (before num cur)
        ++ (active cur
            ∷ (numbers (after num 1 cur total)
                ++ (next_page (if has_next then some (cur + 1) else none)
                    ∷ last_page (if cur == total then none else some total)
                    ∷ []))))

-- `bulidPager`; none is a pager that is hidden.
unfoldable pub build_pager : ℤ → ℤ → ℤ → Option (List Entry)
build_pager cur total num =
    let low : ℕ = at_least_one cur in
    let pages : ℕ = pos_part total in
    if ltb_ℤ (pos 1) total
    then some (entries (at_most pages low) pages (pos_part num) (ltb_ℤ (pos 1) cur) (ltb low pages))
    else none

-- `scope.ngModel`, and the pages that `pageChange` was called with, the latest first.
pub record Pager : Type 0 where
  pub ng_model : ℤ
  pub changes : List ℕ

-- A click on an entry; one without `data-page` has no handler.
unfoldable pub click : Pager → Option ℕ → Pager
click s none = s
click s (some page) = record { ng_model = pos page; changes = page ∷ s.changes }

abbrev pub page_of : Entry → Option ℕ
page_of (number p) = some p
page_of (active p) = none
page_of (first_page o) = o
page_of (prev_page o) = o
page_of (next_page o) = o
page_of (last_page o) = o

-- A click on the entry at an index of the pager that is shown.
unfoldable pub click_at : ℤ → ℤ → Pager → ℕ → Pager
click_at total num s index = elim (build_pager s.ng_model total num) [
  | none ↦ s
  | some es ↦ elim (get_elem? es index) [ none ↦ s | some e ↦ click s (page_of e) ]
]

unfoldable pub clicks : ℤ → ℤ → Pager → List ℕ → Pager
clicks total num s [] = s
clicks total num s (index ∷ more) = clicks total num (click_at total num s index) more

-- What `link` makes of `scope.ngModel`, a number, at the start; NaN counts as false.
unfoldable pub start : Num → Num
start n = if truthy (Value.num n) && is_nan n then n else int (pos 1)
