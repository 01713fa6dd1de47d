-- ===== src/Bots/Actions/Inputs.antt =====
-- The inputs of all actions against the form that shows them and against `sendAction`.
use mathlib.Core.Bool.{and-eq-true_iff}
use mathlib.Core.Option.{some-injective}
use mathlib.Core.Path.{subst}
use chat_bot_hub.Prelude.{
  String, str_eq, Bool, true, false, not, ◌&&◌, ◌||◌, ◌≡◌, refl, sym, none, some, List, [], ◌∷◌,
  arith, Object, get, inl, inr, Bool-cases,
}
use chat_bot_hub.Bots.SendAction.Laws.{is_int_name}
use chat_bot_hub.Bots.Actions.{actions}
use chat_bot_hub.Bots.Actions.Common.{Param}

-- The form has a widget for this kind of input.
abbrev pub has_widget : Param → Bool
has_widget p = str_eq p.kind "string" || str_eq p.kind "int" || str_eq p.kind "longstring"

abbrev pub has_display : Param → Bool
has_display p = elim p.display [ none ↦ false | some _ ↦ true ]

abbrev same : Bool → Bool → Bool
same true b = b
same false b = not b

unfoldable pub named : String → List Param → Bool
named name [] = false
named name (p ∷ ps) = str_eq p.name name || named name ps

-- The inputs have different names, so no two of them share a property of the form's data.
abbrev pub IsDistinct : List Param → Type 0
IsDistinct [] = Unit {0}
IsDistinct (p ∷ ps) = (named p.name ps ≡ false) × IsDistinct ps

abbrev pub All : (Param → Type 0) → List Param → Type 0
All P [] = Unit {0}
All P (p ∷ ps) = P p × All P ps

-- What holds of an input of a form.
pub record IsSound (p : Param) : Type 0 where
  pub widget : has_widget p ≡ true
  pub converted : str_eq p.kind "int" ≡ is_int_name p.name
  pub labelled : has_display p ≡ not (str_eq p.name "xml")

sound : Param → Bool
sound p =
    has_widget p
    && (same (str_eq p.kind "int") (is_int_name p.name)
        && same (has_display p) (not (str_eq p.name "xml")))

all_sound : List Param → Bool
all_sound [] = true
all_sound (p ∷ ps) = sound p && (not (named p.name ps) && all_sound ps)

every_sound : Object (List Param) → Bool
every_sound [] = true
every_sound ((name, ps) ∷ o) = all_sound ps && every_sound o

eq_of_same : (a b : Bool) → same a b ≡ true → a ≡ b
eq_of_same true b h = sym h
eq_of_same false b h = ground arith

sound-IsSound : (p : Param) → sound p ≡ true → IsSound p
unfolding sound
sound-IsSound p h =
    let (widget, rest) = (and-eq-true_iff _ _).0 h in
    let (converted, labelled) = (and-eq-true_iff _ _).0 rest in
    record {
      widget = widget;
      converted = eq_of_same _ _ converted;
      labelled = eq_of_same _ _ labelled;
    }

all_sound-All : (ps : List Param) → all_sound ps ≡ true → All IsSound ps × IsDistinct ps
unfolding all_sound
all_sound-All [] h = (tt, tt)
all_sound-All (p ∷ ps) h =
    let (here, rest) = (and-eq-true_iff _ _).0 h in
    let (fresh, later) = (and-eq-true_iff _ _).0 rest in
    let (all, distinct) = all_sound-All ps later in
    ((sound-IsSound p here, all), (ground arith, distinct))

every_sound-get :
    (o : Object (List Param)) (name : String) {ps : List Param}
    → every_sound o ≡ true
    → get o name ≡ some ps
    → all_sound ps ≡ true
unfolding every_sound get
every_sound-get [] name h e = cc
every_sound-get ((key, qs) ∷ o) name {ps} h e =
    let (here, later) = (and-eq-true_iff _ _).0 h in
    elim (Bool-cases (str_eq key name)) [
      | inl found ↦
          let same_inputs : some qs ≡ some ps = rw found at e in
          subst (λ r. all_sound r ≡ true) (some-injective _ _ same_inputs) here
      | inr other ↦ every_sound-get o name later (rw other at e)
    ]

actions_sound : every_sound actions ≡ true
unfolding every_sound all_sound sound named actions
actions_sound = refl

-- Every input of every action has a widget in the form, is an "int" exactly if `sendAction` turns
-- it into a number, and has a label unless it is named "xml"; the inputs of an action have
-- different names.
pub actions_lem :
    (name : String) (ps : List Param) → get actions name ≡ some ps → All IsSound ps × IsDistinct ps
actions_lem name ps e = all_sound-All ps (every_sound-get actions name actions_sound e)
