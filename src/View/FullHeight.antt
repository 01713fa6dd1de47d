-- ===== src/View/FullHeight.antt =====
-- `hyFullheight` of frontend/static/app/common/directives/view-layout.directive.js: an element that is
-- as high as the page or the window, less other elements. What the page measures is given to the timer's
-- callback.
use chat_bot_hub.Prelude.{
  ℕ, ◌+◌, ◌==◌, Bool, true, false, not, ◌&&◌, Option, none, some, List, [], ◌∷◌, ◌≡◌, refl, ◌∙◌,
  ◌⊎◌, inl, inr, Bool-cases, arith, if◌then◌else◌,
}
use chat_bot_hub.Prelude.Int.{ℤ, pos, ◌+ℤ◌, ◌-ℤ◌, ltb_ℤ, ◌≤ℤ◌}
use chat_bot_hub.Js.{Num, int, nan}

-- The variables of `link` and the css height of the element, none for `auto`: whether a timer runs, and
-- how many watches of `hyFullheightIf` and of the page's height were set.
pub record Full : Type 0 where
  pub set_height : Bool
  pub waiting : Bool
  pub if_watches : ℕ
  pub height_watches : ℕ
  pub height : Option ℤ

abbrev pub started : Full
started = record {
  set_height = true;
  waiting = true;
  if_watches = 0;
  height_watches = 1;
  height = none;
}

-- `page.innerHeight()`, `$win.innerHeight()`, and the outer heights of the elements that are left out.
pub record Measures : Type 0 where
  pub page : ℤ
  pub window : ℤ
  pub excluded : List ℤ

unfoldable pub exclusion_height : List ℤ → ℤ
exclusion_height [] = pos 0
exclusion_height (h ∷ hs) = h +ℤ exclusion_height hs

-- `initializeWindowSize`: a timer that runs is cancelled.
unfoldable pub initialize : Full → Full
initialize f = record f { waiting = true }

-- The timer's callback, with whether there is `hyFullheightIf`, and `parseInt(attrs.hyDiffHeight)`.
unfoldable pub on_timer : Bool → Num → Measures → Full → Full
on_timer has_if diff m f =
    let page : ℤ = if ltb_ℤ m.page m.window then m.window else m.page in
    let less : ℤ = elim diff [ nan ↦ pos 0 | int d ↦ d ] in
    record {
      set_height = f.set_height;
      waiting = false;
      if_watches = f.if_watches + (if has_if then 1 else 0);
      height_watches = f.height_watches + 1;
      height =
          if f.set_height then some (page -ℤ exclusion_height m.excluded -ℤ less) else f.height;
    }

-- A watch of `hyFullheightIf`, with the new and the old value.
unfoldable pub on_if : Bool → Bool → Full → Full
on_if new old f =
    if new && not old
    then record f { set_height = true }
    else if not new
    then record f { set_height = false; height = none }
    else f

pub data Event : Type 0 where
  resized : Event
  timer_fired : Measures → Event
  if_changed : Bool → Bool → Event

-- A timer that does not run does not fire, and without a watch there is no change of the condition.
unfoldable pub step : Bool → Num → Full → Event → Full
step has_if diff f resized = initialize f
step has_if diff f (timer_fired m) = if f.waiting then on_timer has_if diff m f else f
step has_if diff f (if_changed new old) = if f.if_watches == 0 then f else on_if new old f

unfoldable pub run : Bool → Num → Full → List Event → Full
run has_if diff f [] = f
run has_if diff f (e ∷ es) = run has_if diff (step has_if diff f e) es

-- The times that the timer fired.
unfoldable pub firings : Bool → List Event → ℕ
firings waiting [] = 0
firings waiting (resized ∷ es) = firings true es
firings waiting (timer_fired m ∷ es) = (if waiting then 1 else 0) + firings false es
firings waiting (if_changed new old ∷ es) = firings waiting es

watches-step :
    (has_if : Bool) (diff : Num) (f : Full) (e : Event) (es : List Event)
    → ((step has_if diff f e).height_watches + firings (step has_if diff f e).waiting es
        ≡ f.height_watches + firings f.waiting (e ∷ es))
      × ((step has_if diff f e).if_watches
            + (if has_if then firings (step has_if diff f e).waiting es else 0)
          ≡ f.if_watches + (if has_if then firings f.waiting (e ∷ es) else 0))
unfolding step initialize on_timer on_if firings
watches-step has_if diff f resized es = (refl, refl)
watches-step has_if diff f (timer_fired m) es = (ground arith, ground arith)
watches-step has_if diff f (if_changed new old) es = (ground arith, ground arith)

watches-run :
    (has_if : Bool) (diff : Num) (f : Full) (es : List Event)
    → ((run has_if diff f es).height_watches ≡ f.height_watches + firings f.waiting es)
      × ((run has_if diff f es).if_watches
          ≡ f.if_watches + (if has_if then firings f.waiting es else 0))
unfolding run
watches-run has_if diff f [] = unfold firings in (ground arith, ground arith)
watches-run has_if diff f (e ∷ es) =
    let more = watches-run has_if diff (step has_if diff f e) es in
    let one = watches-step has_if diff f e es in (more.0 ∙ one.0, more.1 ∙ one.1)

-- Behind any run each time that the timer fired has set one more watch of the height, and of the
-- condition if there is one, and none was taken away.
pub run-watches :
    (has_if : Bool) (diff : Num) (es : List Event)
    → ((run has_if diff started es).height_watches ≡ 1 + firings true es)
      × ((run has_if diff started es).if_watches ≡ (if has_if then firings true es else 0))
run-watches has_if diff es =
    let counts = watches-run has_if diff started es in (counts.0, counts.1 ∙ ground arith)

-- The height that is left of a page.
unfoldable pub full_height : Num → Measures → ℤ → ℤ
full_height diff m page =
    page -ℤ exclusion_height m.excluded -ℤ (elim diff [ nan ↦ pos 0 | int d ↦ d ])

-- When the timer fires and the height is not left to the page, the element is as high as the page or the
-- window, whichever is higher, less what is excluded.
pub on_timer_lem :
    (has_if : Bool) (diff : Num) (m : Measures) (f : Full)
    → f.set_height ≡ true
    → (page : ℤ) × ((on_timer has_if diff m f).height ≡ some (full_height diff m page))
      × (m.page ≤ℤ page)
      × (m.window ≤ℤ page)
      × ((page ≡ m.page) ⊎ (page ≡ m.window))
unfolding on_timer full_height
on_timer_lem has_if diff m f h = (
  if ltb_ℤ m.page m.window then m.window else m.page,
  ground (arith, h),
  ground arith,
  ground arith,
  elim (Bool-cases (ltb_ℤ m.page m.window)) [
    | inl low ↦ inr (rw low refl)
    | inr high ↦ inl (rw high refl)
  ],
)
