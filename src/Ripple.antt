-- ===== src/Ripple.antt =====
-- The directive of frontend/static/app/common/directives/ui-ripple.directive.js: a press on an element
-- draws a circle that grows, and a release of the mouse lets it fade. Each press adds a handler to the
-- document, which keeps the circle and its size.
pub mod Laws
mod Tests
use chat_bot_hub.Prelude.{
  ℕ, zero, suc, Bool, true, false, Option, none, some, List, [], ◌∷◌, ◌++◌, if◌then◌else◌, ◌==◌,
}

-- The numbers of the language, as far as the directive calculates with them.
pub record Reckoning (R : Type 0) : Type 0 where
  minus : R → R → R
  -- `* 1.8`, `* 1.33` and `-size / 2`.
  times_1_8 : R → R
  times_1_33 : R → R
  half_below : R → R

-- What the directive measures when the mouse goes down.
pub record Press (R : Type 0) : Type 0 where
  outer_width : R
  page_x : R
  page_y : R
  left : R
  top : R

-- The square of a circle, in pixels, as `animate` is given it.
pub record Square (R : Type 0) : Type 0 where
  height : R
  width : R
  margin_top : R
  margin_left : R

-- The closure of one press: its circle, and the calls of `animate` that fade it, each with the square
-- where it sets one.
pub record Touch (R : Type 0) : Type 0 where
  top : R
  left : R
  grows_to : Square R
  size : R
  complete : Bool
  attached : Bool
  fades : List (Option (Square R))

pub data Event (R : Type 0) : Type 0 where
  mouse_down : Press R → Event R
  mouse_up : Event R
  -- The circle of a press, counted from 0, has grown; one of its fading animations is complete.
  grown faded : ℕ → Event R

-- `map`, with the place of each.
unfoldable pub map_at {ℓ} : {A : Type ℓ} → (ℕ → A → A) → ℕ → List A → List A
map_at f k [] = []
map_at f k (x ∷ xs) = f k x ∷ map_at f (suc k) xs

module _ {R : Type 0} (r : Reckoning R) where
  unfoldable pub square : R → Square R
  square size = record {
    height = size;
    width = size;
    margin_top = r.half_below size;
    margin_left = r.half_below size;
  }

  -- The handler of `mousedown`.
  unfoldable pub touch : Press R → Touch R
  touch e =
      let size = r.times_1_8 e.outer_width in
      record {
        top = r.minus e.page_y e.top;
        left = r.minus e.page_x e.left;
        grows_to = square size;
        size = size;
        complete = false;
        attached = true;
        fades = [];
      }

  -- The handler of `mouseup`.
  unfoldable pub release : Touch R → Touch R
  release t =
      if t.complete
      then (let size = r.times_1_33 t.size in
          record t { size = size; fades = t.fades ++ some (square size) ∷ [] })
      else record t { fades = t.fades ++ none ∷ [] }

  -- What an event does to the closure of the press at a place.
  unfoldable pub hear : Event R → ℕ → Touch R → Touch R
  hear (mouse_down e) k t = t
  hear mouse_up k t = release t
  hear (grown i) k t = if i == k then record t { complete = true } else t
  hear (faded i) k t = if i == k then record t { attached = false } else t

  unfoldable pub pressed : Event R → List (Touch R)
  pressed (mouse_down e) = touch e ∷ []
  pressed _ = []

  unfoldable pub step : Event R → List (Touch R) → List (Touch R)
  step e ts = map_at (hear e) 0 ts ++ pressed e

  unfoldable pub run : List (Event R) → List (Touch R) → List (Touch R)
  run [] ts = ts
  run (e ∷ es) ts = run es (step e ts)

  -- Whether the element is disabled is asked once, when the directive is linked.
  unfoldable pub link : Bool → List (Event R) → List (Touch R)
  link enabled es = if enabled then run es [] else []
