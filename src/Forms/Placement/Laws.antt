-- ===== src/Forms/Placement/Laws.antt =====
-- What each element that holds controls gets.
use mathlib.Core.List.{append_assoc, append-nil}
use chat_bot_hub.Prelude.{
  ℕ, String, Option, none, some, List, [], ◌∷◌, ◌++◌, map, ◌==◌, if◌then◌else◌, ◌≡◌, refl, sym, ap,
  ◌∙◌, Bool-cases, Option-cases, inl, inr,
}
use chat_bot_hub.Forms.Messages.{Element, validate_attrs, format_validate}
use chat_bot_hub.Forms.Messages.Laws.{present, format_validate_lem}
use chat_bot_hub.Forms.Placement.{
  Control, Block, Dom, untouched, named, class_value, block, add_dom, format_control, each_control,
  Outcome, no_form_name, written, compile_named, compile,
}

-- The messages of a control.
unfoldable pub elements_of : Control → List Element
elements_of c = elim (format_validate c.attributes validate_attrs) [ none ↦ [] | some es ↦ es ]

-- What one control adds to an element.
unfoldable pub block_in : String → ℕ → Control → List Block
block_in form holder c = elim (named c.name) [
  | none ↦ []
  | some name ↦ if c.parent == holder then block form name (elements_of c) ∷ [] else []
]

unfoldable pub class_in : String → ℕ → Control → Option String
class_in form holder c = elim (named c.name) [
  | none ↦ none
  | some name ↦ if c.parent == holder then some (class_value form name) else none
]

unfoldable pub blocks_in : String → ℕ → List Control → List Block
blocks_in form holder [] = []
blocks_in form holder (c ∷ cs) = block_in form holder c ++ blocks_in form holder cs

abbrev pub later : Option String → Option String → Option String
later none before = before
later (some s) before = some s

-- The class that the last control in an element gives it.
unfoldable pub last_class : String → ℕ → List Control → Option String
last_class form holder [] = none
last_class form holder (c ∷ cs) = later (last_class form holder cs) (class_in form holder c)

abbrev Placed : String → List Control → Dom → Dom → Type 0
Placed form cs dom d =
    (holder : ℕ)
    → ((d holder).blocks ≡ (dom holder).blocks ++ blocks_in form holder cs)
      × ((d holder).ng_class ≡ later (last_class form holder cs) (dom holder).ng_class)

abbrev After : String → Control → Dom → Dom → Type 0
After form c dom d =
    (holder : ℕ)
    → ((d holder).blocks ≡ (dom holder).blocks ++ block_in form holder c)
      × ((d holder).ng_class ≡ later (class_in form holder c) (dom holder).ng_class)

elements_of-eq :
    (c : Control) (es : List Element)
    → format_validate c.attributes validate_attrs ≡ some es
    → elements_of c ≡ es
unfolding elements_of
elements_of-eq c es f = rw (elements_of, f) refl

-- What `addDom` does, if the control's element is this one.
add_dom-at :
    (form name : String) (es : List Element) (parent holder : ℕ) (dom : Dom)
    → ((add_dom form name es parent dom holder).blocks
        ≡ (dom holder).blocks ++ (if parent == holder then block form name es ∷ [] else []))
      × ((add_dom form name es parent dom holder).ng_class
          ≡ later
              (if parent == holder then some (class_value form name) else none)
              (dom holder).ng_class)
unfolding add_dom
add_dom-at form name es parent holder dom = elim (Bool-cases (parent == holder)) [
  | inl here ↦ rw here (refl, refl)
  | inr away ↦ rw away (sym (append-nil (dom holder).blocks), refl)
]

format_control-After :
    (form : String) (c : Control) (dom : Dom)
    → (d : Dom) × (format_control form c dom ≡ some d) × After form c dom d
unfolding format_control block_in class_in
format_control-After form c dom = elim (Option-cases (named c.name)) [
  | inl e ↦ (
    dom,
    rw (format_control, e) refl,
    λ holder. (rw (block_in, e) (sym (append-nil (dom holder).blocks)), rw (class_in, e) refl),
  )
  | inr (name, e) ↦
      let (es, f, g) = format_validate_lem c.attributes in
      (
        add_dom form name es c.parent dom,
        rw (format_control, e, f) refl,
        λ holder.
            let placed = add_dom-at form name es c.parent holder dom in
            (rw (block_in, e, elements_of-eq c es f) placed.0, rw (class_in, e) placed.1),
      )
]

later_assoc : (a b c : Option String) → later a (later b c) ≡ later (later a b) c
later_assoc none b c = refl
later_assoc (some s) b c = refl

each_control-Placed :
    (form : String) (cs : List Control) (dom : Dom)
    → (d : Dom) × (each_control form cs dom ≡ some d) × Placed form cs dom d
unfolding each_control blocks_in last_class
each_control-Placed form [] dom =
    (dom, refl, λ holder. (sym (append-nil (dom holder).blocks), refl))
each_control-Placed form (c ∷ cs) dom =
    let (next, e, one) = format_control-After form c dom in
    let (d, f, more) = each_control-Placed form cs next in
    (
      d,
      rw (each_control, e) f,
      λ holder. (
        (more holder).0
            ∙ ap (◌++ blocks_in form holder cs) (one holder).0
            ∙ append_assoc (dom holder).blocks (block_in form holder c) (blocks_in form holder cs),
        (more holder).1
            ∙ ap (later (last_class form holder cs)) (one holder).1
            ∙ later_assoc (last_class form holder cs) (class_in form holder c)
                (dom holder).ng_class,
      ),
    )

abbrev pub Compiled : Option String → List Control → Outcome → Type 0
Compiled none cs o = o ≡ no_form_name
Compiled (some form) cs o =
    (d : Dom) × (o ≡ written d)
    × ((holder : ℕ)
        → ((d holder).blocks ≡ blocks_in form holder cs)
          × ((d holder).ng_class ≡ last_class form holder cs))

compile_named-Compiled :
    (form : Option String) (cs : List Control) → Compiled form cs (compile_named form cs)
unfolding compile_named
compile_named-Compiled none cs = refl
compile_named-Compiled (some form) cs =
    let (d, e, placed) = each_control-Placed form cs untouched in
    (
      d,
      rw e refl,
      λ holder. ((placed holder).0, (placed holder).1 ∙ later_none (last_class form holder cs)),
    )
  where
    later_none : (o : Option String) → later o none ≡ o
    later_none none = refl
    later_none (some s) = refl

elements_of-present :
    (c : Control) → map (λ e. e.ng_message) (elements_of c) ≡ present c.attributes validate_attrs
elements_of-present c =
    let (es, f, g) = format_validate_lem c.attributes in
    ap (map (λ e. e.ng_message)) (elements_of-eq c es f) ∙ g

-- The directive throws exactly on a form without a name, whatever the controls and their attributes.
-- Otherwise each element that holds controls gets one block for each control in it that has a name, in
-- their order, and the class of the last of these; and a block has one message for each validated
-- attribute of its control.
pub compile_lem :
    (form : Option String) (cs : List Control)
    → Compiled (named form) cs (compile form cs)
      × ((c : Control)
          → map (λ e. e.ng_message) (elements_of c) ≡ present c.attributes validate_attrs)
unfolding compile
compile_lem form cs = (compile_named-Compiled (named form) cs, elements_of-present)
