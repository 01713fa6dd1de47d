-- ===== src/Lists/Laws.antt =====
-- What the list pages show, and what the closing of a dialog does.
use chat_bot_hub.Prelude.{
  String, Bool, true, false, not, ◌&&◌, ◌||◌, Option, none, some, List, [], ◌∷◌, ◌++◌, ◌≡◌, refl,
  ap, sym, ◌∙◌, arith, ltb,
}
use chat_bot_hub.Dialogs.{lists}
use chat_bot_hub.Lists.{
  Plan, Scope, Effect, asks, toast_error, type_error, ask_list, refresh, init_view, on_consts,
  on_list, on_list_failure, open_dialog, on_close, Event, refreshed, recovered, dialog_opened,
  dialog_closed, consts_failed, consts_answered, list_answered, list_failed, step, run, opened,
}

unfoldable pub is_some {ℓ} : {A : Type ℓ} → Option A → Bool
is_some none = false
is_some (some a) = true

-- The list is on the page or awaited only where the constants are there.
abbrev pub IsReady : Scope → Type 0
IsReady s = ((is_some s.body || ltb 0 s.list_pending) && not (is_some s.consts)) ≡ false

IsReady-step :
    (names : List String) (p : Plan) (s : Scope) (e : Event)
    → p.has_consts ≡ true
    → IsReady s
    → IsReady (step names p s e).0
unfolding step refresh ask_list init_view on_consts on_list on_list_failure open_dialog on_close
    is_some
IsReady-step names p s e c h = ground (arith, c, h)

IsReady-run :
    (names : List String) (p : Plan) (s : Scope) (es : List Event)
    → p.has_consts ≡ true
    → IsReady s
    → IsReady (run names p s es).0
unfolding run
IsReady-run names p s [] c h = h
IsReady-run names p s (e ∷ es) c h =
    IsReady-run names p (step names p s e).0 es c (IsReady-step names p s e c h)

opened-IsReady : (p : Plan) → p.has_consts ≡ true → IsReady (opened p)
unfolding opened refresh is_some
opened-IsReady p c = ground (arith, c)

-- On a page that asks for the constants first, a list is shown or awaited, in every run, only when the
-- constants are there.
pub run-IsReady :
    (names : List String) (p : Plan) (es : List Event)
    → p.has_consts ≡ true
    → IsReady (run names p (opened p) es).0
run-IsReady names p es c = IsReady-run names p (opened p) es c (opened-IsReady p c)

-- The events but for the openings and the closings of dialogs.
unfoldable pub without_dialogs : List Event → List Event
without_dialogs [] = []
without_dialogs (dialog_opened ∷ es) = without_dialogs es
without_dialogs (dialog_closed ∷ es) = without_dialogs es
without_dialogs (refreshed ∷ es) = refreshed ∷ without_dialogs es
without_dialogs (recovered ∷ es) = recovered ∷ without_dialogs es
without_dialogs (consts_failed ∷ es) = consts_failed ∷ without_dialogs es
without_dialogs (consts_answered v ∷ es) = consts_answered v ∷ without_dialogs es
without_dialogs (list_answered v ∷ es) = list_answered v ∷ without_dialogs es
without_dialogs (list_failed v ∷ es) = list_failed v ∷ without_dialogs es

watched-step :
    (names : List String) (p : Plan) (s : Scope) (e : Event)
    → lists names "then" ≡ false
    → s.watched ≡ 0
    → (step names p s e).0.watched ≡ 0
unfolding step refresh ask_list init_view on_consts on_list on_list_failure open_dialog on_close
watched-step names p s e c h = ground (arith, c, h)

opening_lem :
    (names : List String) (s : Scope) → lists names "then" ≡ false → (open_dialog names s).0 ≡ s
unfolding open_dialog
opening_lem names s c = rw (open_dialog, c) refl

closing_lem : (p : Plan) (s : Scope) → s.watched ≡ 0 → (on_close p s).0 ≡ s
unfolding on_close
closing_lem p s h = ground (arith, h)

-- The keys that are asked for.
unfoldable pub requests : List Effect → List String
requests [] = []
requests (asks key ∷ es) = key ∷ requests es
requests (toast_error v title ∷ es) = requests es
requests (type_error ∷ es) = requests es

requests-append : (es fs : List Effect) → requests (es ++ fs) ≡ requests es ++ requests fs
unfolding requests
requests-append [] fs = refl
requests-append (asks key ∷ es) fs = ap (key ∷◌) (requests-append es fs)
requests-append (toast_error v title ∷ es) fs = requests-append es fs
requests-append (type_error ∷ es) fs = requests-append es fs

-- The scope and the requests of two runs are the same.
unfoldable IsSame : Scope × List Effect → Scope × List Effect → Type 0
IsSame a b = (a.0 ≡ b.0) × (requests a.1 ≡ requests b.1)

IsSame-cons :
    (names : List String) (p : Plan) (s : Scope) (e : Event) (es fs : List Event)
    → IsSame (run names p (step names p s e).0 es) (run names p (step names p s e).0 fs)
    → IsSame (run names p s (e ∷ es)) (run names p s (e ∷ fs))
unfolding run IsSame
IsSame-cons names p s e es fs h = (
  h.0,
  requests-append (step names p s e).1 (run names p (step names p s e).0 es).1
      ∙ ap (requests (step names p s e).1 ++◌) h.1
      ∙ sym (requests-append (step names p s e).1 (run names p (step names p s e).0 fs).1),
)

-- An event that changes nothing and asks for nothing.
IsSame-drop :
    (names : List String) (p : Plan) (s : Scope) (e : Event) (es fs : List Event)
    → (step names p s e).0 ≡ s
    → requests (step names p s e).1 ≡ []
    → IsSame (run names p s es) (run names p s fs)
    → IsSame (run names p s (e ∷ es)) (run names p s fs)
unfolding run IsSame
IsSame-drop names p s e es fs h k same = (
  ap (λ (t : Scope). (run names p t es).0) h ∙ same.0,
  requests-append (step names p s e).1 (run names p (step names p s e).0 es).1
      ∙ ap (◌++ requests (run names p (step names p s e).0 es).1) k
      ∙ ap (λ (t : Scope). requests (run names p t es).1) h
      ∙ same.1,
)

from-without_dialogs :
    (names : List String) (p : Plan) (s : Scope) (es : List Event)
    → lists names "then" ≡ false
    → s.watched ≡ 0
    → IsSame (run names p s es) (run names p s (without_dialogs es))
unfolding without_dialogs step open_dialog
from-without_dialogs names p s [] c h = unfold IsSame in (refl, refl)
from-without_dialogs names p s (dialog_opened ∷ es) c h =
    IsSame-drop names p s dialog_opened es (without_dialogs es) (opening_lem names s c)
      (unfold step open_dialog requests in rw c refl) (from-without_dialogs names p s es c h)
from-without_dialogs names p s (dialog_closed ∷ es) c h =
    IsSame-drop names p s dialog_closed es (without_dialogs es) (closing_lem p s h)
      (unfold step on_close requests in ground (arith, h)) (from-without_dialogs names p s es c h)
from-without_dialogs names p s (refreshed ∷ es) c h =
    IsSame-cons names p s refreshed es (without_dialogs es) (
      from-without_dialogs names p (step names p s refreshed).0 es c
        (watched-step names p s refreshed c h))
from-without_dialogs names p s (recovered ∷ es) c h =
    IsSame-cons names p s recovered es (without_dialogs es) (
      from-without_dialogs names p (step names p s recovered).0 es c
        (watched-step names p s recovered c h))
from-without_dialogs names p s (consts_failed ∷ es) c h =
    IsSame-cons names p s consts_failed es (without_dialogs es) (
      from-without_dialogs names p (step names p s consts_failed).0 es c
        (watched-step names p s consts_failed c h))
from-without_dialogs names p s (consts_answered v ∷ es) c h =
    IsSame-cons names p s (consts_answered v) es (without_dialogs es) (
      from-without_dialogs names p (step names p s (consts_answered v)).0 es c
        (watched-step names p s (consts_answered v) c h))
from-without_dialogs names p s (list_answered v ∷ es) c h =
    IsSame-cons names p s (list_answered v) es (without_dialogs es) (
      from-without_dialogs names p (step names p s (list_answered v)).0 es c
        (watched-step names p s (list_answered v) c h))
from-without_dialogs names p s (list_failed v ∷ es) c h =
    IsSame-cons names p s (list_failed v) es (without_dialogs es) (
      from-without_dialogs names p (step names p s (list_failed v)).0 es c
        (watched-step names p s (list_failed v) c h))

opened-watched : (p : Plan) → (opened p).watched ≡ 0
unfolding opened refresh ask_list
opened-watched p = ground arith

-- If what `$modal.open` returns has no `then`, dialogs never refresh a page: in every run the scope and
-- the requests are those of the run without the openings and closings of dialogs.
pub run-without_dialogs :
    (names : List String) (p : Plan) (es : List Event)
    → lists names "then" ≡ false
    → ((run names p (opened p) es).0 ≡ (run names p (opened p) (without_dialogs es)).0)
      × (requests (run names p (opened p) es).1
          ≡ requests (run names p (opened p) (without_dialogs es)).1)
run-without_dialogs names p es c =
    unfold IsSame in from-without_dialogs names p (opened p) es c (opened-watched p)
