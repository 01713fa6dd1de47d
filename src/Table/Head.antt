-- ===== src/Table/Head.antt =====
-- `bulidThead` of frontend/static/app/common/directives/table.directive.js: the head of a table and the
-- widths of its columns. Elements are records in place of their HTML.
use chat_bot_hub.Prelude.{
  ℕ, ◌+◌, ◌≤◌, String, str_eq, Bool, true, false, ◌&&◌, ◌||◌, Option, none, some, List, [], ◌∷◌,
  ◌==◌, length, ◌≡◌, refl, arith, if◌then◌else◌,
}

-- An entry of `grid_options.fields`; a missing text and the empty one count as false.
pub record Field : Type 0 where
  pub field : String
  pub sort : Option String
  pub width : Option String
  pub class_name : Option String
  pub hide_field : Bool

-- A cell of the head: the box for all rows, or a field with its place, which is what `sortName` gets.
pub data Cell : Type 0 where
  box : Cell
  cell : ℕ → Option String → Option String → String → Cell

-- The widths of the `col` elements, the cells, and whether the head sorts.
pub record Head : Type 0 where
  pub cols : List String
  pub cells : List Cell
  pub is_sort : Bool

unfoldable pub filled : Option String → Option String
filled none = none
filled (some s) = if str_eq s "" then none else some s

unfoldable pub is_filled : Option String → Bool
is_filled o = elim (filled o) [ none ↦ false | some s ↦ true ]

-- The loop over the fields from a place on; `hides` is `hide_col == "1"`.
unfoldable pub each_field : Bool → ℕ → List Field → Head
each_field hides j [] = record { cols = []; cells = []; is_sort = false }
each_field hides j (f ∷ fs) =
    let more = each_field hides (j + 1) fs in
    if hides && f.hide_field then more else record {
      cols = elim (filled f.width) [ none ↦ more.cols | some w ↦ w ∷ more.cols ];
      cells = cell j (filled f.sort) (filled f.class_name) f.field ∷ more.cells;
      is_sort = is_filled f.sort || more.is_sort;
    }

-- With a checkbox its cell and its column, two percent wide, stand in front.
unfoldable pub build_head : Bool → Bool → List Field → Head
build_head hides has_checkbox fields =
    let h = each_field hides 0 fields in
    if has_checkbox
    then record { cols = "2%" ∷ h.cols; cells = box ∷ h.cells; is_sort = h.is_sort }
    else h

-- Each field that is shown has a width.
unfoldable pub all_wide : Bool → List Field → Bool
all_wide hides [] = true
all_wide hides (f ∷ fs) = ((hides && f.hide_field) || is_filled f.width) && all_wide hides fs

each_field_lem :
    (hides : Bool) (j : ℕ) (fs : List Field)
    → (length (each_field hides j fs).cols ≤ length (each_field hides j fs).cells)
      × ((length (each_field hides j fs).cols == length (each_field hides j fs).cells)
          ≡ all_wide hides fs)
unfolding each_field all_wide is_filled
each_field_lem hides j [] = (omega arith, refl)
each_field_lem hides j (f ∷ fs) =
    let more = each_field_lem hides (j + 1) fs in
    (ground (arith, more.0), ground (arith, more.0, more.1))

-- There are as many columns with a width as cells in the head exactly if each field that is shown has a
-- width; otherwise there are fewer.
pub build_head_lem :
    (hides has_checkbox : Bool) (fields : List Field)
    → (length (build_head hides has_checkbox fields).cols
        ≤ length (build_head hides has_checkbox fields).cells)
      × ((length (build_head hides has_checkbox fields).cols
            == length (build_head hides has_checkbox fields).cells)
          ≡ all_wide hides fields)
unfolding build_head
build_head_lem hides has_checkbox fields =
    let h = each_field_lem hides 0 fields in (ground (arith, h.0), ground (arith, h.1))
