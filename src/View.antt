-- ===== src/View.antt =====
-- The page's layout: `hyViewCtrl`, the header and the footer, and `hyViewDetailGrid` with its split
-- bar, in frontend/static/app/common/directives/view-layout.directive.js. Heights are integers; what
-- the page measures is given to the operations that read it.
pub mod Arrows
pub mod Drag
pub mod FullHeight
mod Tests
use chat_bot_hub.Prelude.{Bool, true, false, not, ◌||◌, ◌≡◌, Option, none, some, if◌then◌else◌}
use chat_bot_hub.Prelude.Int.{ℤ, pos, negsuc, ◌+ℤ◌, ◌-ℤ◌, ltb_ℤ}
use chat_bot_hub.Js.{Num, int, nan, is_zero}

-- `contentScope.styleObj`.
pub record Style : Type 0 where
  pub margin_top : ℤ
  pub padding_top : ℤ
  pub margin_bottom : ℤ
  pub padding_bottom : ℤ

-- The controller: the two heights, and the content's style and `isHide`.
pub record Ctrl : Type 0 where
  pub header_height : ℤ
  pub footer_height : ℤ
  pub style_obj : Style
  pub is_hide : Bool

-- The watch of the heights.
unfoldable pub style_of : ℤ → ℤ → Style
style_of header footer = record {
  margin_top = pos 0 -ℤ header;
  padding_top = header;
  margin_bottom = pos 0 -ℤ footer;
  padding_bottom = footer;
}

unfoldable pub watched : Ctrl → Ctrl
watched c = record c { style_obj = style_of c.header_height c.footer_height }

-- `calcHeight` of the header and the footer: the given height, unless it is NaN or 0, or else the
-- measured one; and the difference, or 0.
unfoldable pub outer_height : Num → ℤ → Num → ℤ
outer_height given measured diff =
    (elim given [ nan ↦ measured | int h ↦ if is_zero (int h) then measured else h ])
    +ℤ (elim diff [ nan ↦ pos 0 | int d ↦ d ])

-- `setHeaderHeight` and `setFooterHeight`, with the watch that follows.
unfoldable pub set_header_height : Ctrl → ℤ → Ctrl
set_header_height c height = watched (record c { header_height = height })

unfoldable pub set_footer_height : Ctrl → ℤ → Ctrl
set_footer_height c height = watched (record c { footer_height = height })

unfoldable pub set_content_hide : Ctrl → Bool → Ctrl
set_content_hide c is_hide = record c { is_hide = is_hide }

-- What the handler of `mousedown` notes: `params.top` and `params.currentY`, and the heights of the
-- window and of the container.
pub record Grip : Type 0 where
  pub top : ℤ
  pub current_y : ℤ
  pub window_height : ℤ
  pub container_height : ℤ

-- The grid: its `hyViewDetailGrid`, the variables of `link`, and the handlers on the window while
-- the bar is dragged.
pub record Grid : Type 0 where
  pub ctrl : Ctrl
  pub footer_height : ℤ
  pub expand : Bool
  pub height : ℤ
  pub tmp_top : ℤ
  pub is_hide_content : Bool
  pub max_height : ℤ
  pub drag : Option Grip

unfoldable pub linked : Ctrl → ℤ → Grid
linked c height = record {
  ctrl = c;
  footer_height = height;
  expand = true;
  height = height;
  tmp_top = height;
  is_hide_content = false;
  max_height = c.header_height +ℤ pos 100 +ℤ pos 56;
  drag = none;
}

unfoldable pub change_footer_height : Grid → Grid
change_footer_height g = record g {
  expand = not g.expand;
  footer_height = if g.expand then pos 34 else g.height;
}

unfoldable pub down_arrow : Grid → Grid
down_arrow g =
    if g.is_hide_content
    then record g {
      ctrl = set_content_hide g.ctrl false;
      footer_height = g.tmp_top;
      is_hide_content = false;
    }
    else record g { expand = false; footer_height = pos 12 }

-- With the height of `#container`.
unfoldable pub up_arrow : ℤ → Grid → Grid
up_arrow container g =
    if g.expand
    then record g {
      ctrl = set_content_hide g.ctrl true;
      is_hide_content = true;
      footer_height = container -ℤ g.ctrl.header_height;
    }
    else record g { expand = true; footer_height = g.tmp_top }

-- `mousedown` on the bar.
unfoldable pub grab : Grip → Grid → Grid
grab grip g = if not g.expand || g.is_hide_content then g else record g { drag = some grip }

-- The top of the bar for a position of the mouse.
unfoldable pub top_value : ℤ → Grip → ℤ → ℤ
top_value max_height grip now_y =
    let free : ℤ = grip.top +ℤ (now_y -ℤ grip.current_y) in
    let low : ℤ =
      if ltb_ℤ (grip.window_height -ℤ now_y) (pos 150)
      then grip.container_height -ℤ pos 150
      else free in
    if ltb_ℤ now_y (max_height +ℤ grip.window_height -ℤ grip.container_height)
    then max_height
    else low

-- `mousemove` on the window, if the bar is dragged.
unfoldable pub move : ℤ → Grid → Grid
move now_y g = elim g.drag [
  | none ↦ g
  | some grip ↦ record g { tmp_top = grip.container_height -ℤ top_value g.max_height grip now_y }
]

-- `mouseup` on the window, if the bar is dragged.
unfoldable pub release : Grid → Grid
release g = elim g.drag [
  | none ↦ g
  | some grip ↦ record g { footer_height = g.tmp_top; drag = none }
]

-- What the user does with the split bar; a click on an arrow comes after the release of the bar
-- that holds it.
pub data Step (g : Grid) : Grid → Type 0 where
  down : g.drag ≡ none → Step g (down_arrow g)
  up : (container : ℤ) → g.drag ≡ none → Step g (up_arrow container g)
  grabbed : (grip : Grip) → Step g (grab grip g)
  moved : (now_y : ℤ) → Step g (move now_y g)
  released : Step g (release g)

pub data Reach (g : Grid) : Grid → Type 0 where
  here : Reach g g
  next : {t u : Grid} → Reach g t → Step t u → Reach g u
