-- ===== src/View/Arrows.antt =====
-- The states that the arrows and the split bar lead to.
use chat_bot_hub.Prelude.{
  Bool, true, false, not, ◌||◌, ◌≡◌, refl, sym, ap, ◌∙◌, none, some, arith, Bool-cases,
  Option-cases, inl, inr, if◌then◌else◌,
}
use mathlib.Core.Path.{subst}
use chat_bot_hub.Prelude.Int.{ℤ, pos}
use chat_bot_hub.View.{
  Ctrl, Grid, Grip, linked, set_content_hide, down_arrow, up_arrow, grab, move, release, Step, down,
  up, grabbed, moved, released, Reach, here, next,
}

-- The content is hidden exactly if the grid notes it, and then the grid is expanded; a grid that
-- is not expanded is 12 pixels high; an expanded one beside the content has the height of the bar
-- unless it is being dragged; and only such a grid is dragged.
pub record IsConsistent (g : Grid) : Type 0 where
  pub hidden : g.ctrl.is_hide ≡ g.is_hide_content
  pub expanded : g.is_hide_content ≡ true → g.expand ≡ true
  pub shut : g.expand ≡ false → g.footer_height ≡ pos 12
  pub shown :
      g.expand ≡ true → g.is_hide_content ≡ false → g.drag ≡ none → g.footer_height ≡ g.tmp_top
  pub dragged : (grip : Grip) → g.drag ≡ some grip → (g.expand ≡ true) × (g.is_hide_content ≡ false)

if_true {ℓ} : {A : Type ℓ} {b : Bool} (x y : A) → b ≡ true → (if b then x else y) ≡ x
if_true x y h = rw h refl

if_false {ℓ} : {A : Type ℓ} {b : Bool} (x y : A) → b ≡ false → (if b then x else y) ≡ y
if_false x y h = rw h refl

free_parts : (a b : Bool) → (not a || b) ≡ false → (a ≡ true) × (b ≡ false)
free_parts a b h = ground (arith, h)

down-IsConsistent : (g : Grid) → g.drag ≡ none → IsConsistent g → IsConsistent (down_arrow g)
unfolding down_arrow set_content_hide
down-IsConsistent g d c = elim (Bool-cases g.is_hide_content) [
  | inl h ↦
      rw (down_arrow, h)
        (record {
          hidden = refl;
          expanded = λ e. c.expanded h;
          shut = λ e. cc (c.expanded h);
          shown = λ e f k. refl;
          dragged = λ grip e. cc;
        })
  | inr h ↦
      rw (down_arrow, h)
        (record {
          hidden = cc c.hidden;
          expanded = λ e. cc;
          shut = λ e. refl;
          shown = λ e. cc;
          dragged = λ grip e. cc;
        })
]

up-IsConsistent :
    (container : ℤ) (g : Grid)
    → g.drag ≡ none
    → IsConsistent g
    → IsConsistent (up_arrow container g)
unfolding up_arrow set_content_hide
up-IsConsistent container g d c = elim (Bool-cases g.expand) [
  | inl h ↦
      rw (up_arrow, h)
        (record {
          hidden = refl;
          expanded = λ e. refl;
          shut = λ e. cc;
          shown = λ e f k. cc;
          dragged = λ grip e. cc;
        })
  | inr h ↦
      rw (up_arrow, h)
        (record {
          hidden = c.hidden;
          expanded = λ e. refl;
          shut = λ e. cc;
          shown = λ e f k. refl;
          dragged = λ grip e. cc;
        })
]

grab-IsConsistent : (grip : Grip) (g : Grid) → IsConsistent g → IsConsistent (grab grip g)
unfolding grab
grab-IsConsistent grip g c = elim (Bool-cases (not g.expand || g.is_hide_content)) [
  | inl stuck ↦ subst IsConsistent (sym (if_true _ _ stuck)) c
  | inr free ↦ subst IsConsistent (sym (if_false _ _ free)) (record {
    hidden = c.hidden;
    expanded = c.expanded;
    shut = c.shut;
    shown = λ e f d. cc;
    dragged = λ q e. free_parts g.expand g.is_hide_content free;
  })
]

move-IsConsistent : (now_y : ℤ) (g : Grid) → IsConsistent g → IsConsistent (move now_y g)
unfolding move
move-IsConsistent now_y g c = elim (Option-cases g.drag) [
  | inl free ↦ rw (move, free) c
  | inr (grip, d) ↦
      rw (move, d)
        (record {
          hidden = c.hidden;
          expanded = c.expanded;
          shut = c.shut;
          shown = λ e f k. cc;
          dragged = c.dragged;
        })
]

release-IsConsistent : (g : Grid) → IsConsistent g → IsConsistent (release g)
unfolding release
release-IsConsistent g c = elim (Option-cases g.drag) [
  | inl free ↦ rw (release, free) c
  | inr (grip, d) ↦
      rw (release, d)
        (record {
          hidden = c.hidden;
          expanded = c.expanded;
          shut = λ e. cc ((c.dragged grip d).0);
          shown = λ e f k. refl;
          dragged = λ q e. cc;
        })
]

Step-IsConsistent : {g h : Grid} → Step g h → IsConsistent g → IsConsistent h
Step-IsConsistent {g = g} (down d) c = down-IsConsistent g d c
Step-IsConsistent {g = g} (up container d) c = up-IsConsistent container g d c
Step-IsConsistent {g = g} (grabbed grip) c = grab-IsConsistent grip g c
Step-IsConsistent {g = g} (moved now_y) c = move-IsConsistent now_y g c
Step-IsConsistent {g = g} released c = release-IsConsistent g c

linked-IsConsistent :
    (ctrl : Ctrl) (height : ℤ) → ctrl.is_hide ≡ false → IsConsistent (linked ctrl height)
unfolding linked
linked-IsConsistent ctrl height h = record {
  hidden = h;
  expanded = λ e. cc;
  shut = λ e. cc;
  shown = λ e f d. refl;
  dragged = λ grip e. cc;
}

-- Whatever the user does with the arrows and the bar, from the start on: the content is hidden
-- exactly if the grid notes it, and then the grid is expanded; a grid that is not expanded is 12
-- pixels high; an expanded one beside the content has the height of the bar unless it is being
-- dragged; and only such a grid is dragged.
pub Reach-IsConsistent :
    (ctrl : Ctrl) (height : ℤ) (g : Grid)
    → ctrl.is_hide ≡ false
    → Reach (linked ctrl height) g
    → IsConsistent g
Reach-IsConsistent ctrl height g h here = linked-IsConsistent ctrl height h
Reach-IsConsistent ctrl height g h (next r st) =
    Step-IsConsistent st (Reach-IsConsistent ctrl height _ h r)

-- In a consistent state that shows both the content and the grid, with the bar at rest, each of
-- the two arrows takes back what the other did.
pub down_arrow-up_arrow :
    (g : Grid) (container : ℤ)
    → IsConsistent g
    → g.expand ≡ true
    → g.is_hide_content ≡ false
    → g.drag ≡ none
    → (down_arrow (up_arrow container g) ≡ g) × (up_arrow container (down_arrow g) ≡ g)
unfolding down_arrow up_arrow set_content_hide
down_arrow-up_arrow g container c h k d = (
  ap down_arrow (if_true _ _ h) ∙ cc (c.hidden, c.shown h k d),
  ap (up_arrow container) (if_false _ _ k) ∙ cc (c.shown h k d),
)
