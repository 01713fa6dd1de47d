-- ===== src/Paging.antt =====
-- The page ranges of the contact lists: the handler of `$scope.paging.jump` in
-- frontend/static/app/manage/controller/chatusersCtrl.js and chatgroupsCtrl.js.
pub mod Range
pub mod Flow
mod Tests
use chat_bot_hub.Prelude.{
  ℕ, zero, suc, ◌+◌, ◌-◌, Bool, true, false, List, [], ◌∷◌, ◌++◌, ltb, leb, if◌then◌else◌,
}

-- An entry of `pagerange`: a page number, or one of the marks 'D1' and 'D2'.
pub data Slot : Type 0 where
  page : ℕ → Slot
  d1 d2 : Slot

-- A loop that pushes `rounds` successive numbers.
unfoldable pub pages : ℕ → ℕ → List Slot
pages from zero = []
pages from (suc rounds) = page from ∷ pages (from + 1) rounds

abbrev pub headpad : ℕ
headpad = 3

abbrev pub tailpad : ℕ
tailpad = 3

abbrev pub middlepad : ℕ
middlepad = 3

-- The first page of the middle part, and whether the mark 'D1' stands before it.
unfoldable pub before : ℕ → ℕ × Bool
before p = let b = p - middlepad in if leb b headpad then (headpad + 1, false) else (b, true)

-- The last page of the middle part, and whether the mark 'D2' stands behind it.
unfoldable pub after : ℕ → ℕ → ℕ × Bool
after p pagecount =
    let a = p + middlepad in
    if leb (pagecount - tailpad) a then (pagecount - tailpad - 1, false) else (a, true)

unfoldable pub marked : Bool → Slot → List Slot
marked flag mark = if flag then mark ∷ [] else []

-- `pagerange` for more than 20 pages.
unfoldable pub folded_range : ℕ → ℕ → List Slot
folded_range p pagecount =
    let (b, gap) = before p in
    let (a, more) = after p pagecount in
    pages 1 headpad
    ++ (marked gap d1
        ++ (pages b (a + 1 - b) ++ (marked more d2 ++ pages (pagecount - tailpad) tailpad)))

unfoldable pub page_range : ℕ → ℕ → List Slot
page_range p pagecount = if ltb 20 pagecount then folded_range p pagecount else pages 1 pagecount
