-- ===== src/Feedback/Blocks/Targets.antt =====
-- The overlays that the interceptors ask for name an element.
use chat_bot_hub.Prelude.{
  ℕ, String, str_eq, true, false, none, some, List, [], ◌∷◌, ◌≡◌, refl, ap, arith, and_parts, leb,
}
use chat_bot_hub.Http.{
  Effect, toast_error, complete_bar, block_ui, unblock_ui, remove_token, redirect_later,
  rearm_later, Event, run, fresh,
}
use chat_bot_hub.Feedback.Blocks.{
  base_of, named, block_at, unblock_at, Options, Overlay, blocks, unblocks_at, block, unblock,
  serve,
}
use chat_bot_hub.Feedback.Blocks.Named.{is_named, all_named, has_target, all_targets, Named-run}

-- The service draws the overlay on the element, takes it away from there, or is not asked.
abbrev pub Served : (String → ℕ) → ℕ → Effect → Type 0
Served height window (block_ui id) =
    (o : Overlay) × (serve height window (block_ui id) ≡ some (blocks o)) × (o.target ≡ id)
Served height window (unblock_ui id) = serve height window (unblock_ui id) ≡ some (unblocks_at id)
Served height window e = serve height window e ≡ none

abbrev pub AllServed : (String → ℕ) → ℕ → List Effect → Type 0
AllServed height window [] = Unit {0}
AllServed height window (e ∷ es) = Served height window e × AllServed height window es

named-filled : (id : String) → is_named id ≡ true → named (some id) ≡ some id
named-filled id h = let filled : str_eq id "" ≡ false = ground (arith, h) in rw filled refl

-- The options that the interceptors give.
abbrev plain : String → Options
plain id = record {
  target = some id;
  boxed = false;
  message = none;
  z_index = none;
  overlay_color = none;
  cenrer_y = false;
}

abbrev overlay : (String → ℕ) → ℕ → String → Overlay
overlay height window id = record {
  target = id;
  message = none;
  boxed = false;
  base_z = base_of none;
  color = none;
  center_y = leb (height id) window;
}

Served-target :
    (height : String → ℕ) (window : ℕ) (e : Effect) → has_target e ≡ true → Served height window e
unfolding serve has_target block unblock block_at unblock_at
Served-target height window (block_ui id) h = (
  overlay height window id,
  ap (λ t. some (block_at height window (plain id) t)) (named-filled id h),
  refl,
)
Served-target height window (unblock_ui id) h = ap (λ t. some (unblock_at t)) (named-filled id h)
Served-target height window (toast_error s) h = refl
Served-target height window complete_bar h = refl
Served-target height window remove_token h = refl
Served-target height window (redirect_later s) h = refl
Served-target height window rearm_later h = refl

AllServed-targets :
    (height : String → ℕ) (window : ℕ) (es : List Effect)
    → all_targets es ≡ true
    → AllServed height window es
unfolding all_targets
AllServed-targets height window [] h = tt
AllServed-targets height window (e ∷ es) h =
    let parts : (has_target e ≡ true) × (all_targets es ≡ true) = and_parts h in
    (Served-target height window e parts.0, AllServed-targets height window es parts.1)

-- In every run of the interceptors from the start, whatever the heights of the page, each overlay that
-- they ask the service for is drawn on its element, and each that they have taken away is taken from its
-- element: the service never throws, and never blocks or frees the whole page.
pub run-AllServed :
    (height : String → ℕ) (window : ℕ) (es : List Event) → AllServed height window (run fresh es).1
run-AllServed height window es =
    AllServed-targets height window (run fresh es).1
      (Named-run es fresh (unfold all_named in refl)).targets
