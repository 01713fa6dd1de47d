-- ===== src/Forms/Placement.antt =====
-- Where `formValidate` of frontend/static/app/common/directives/form-validate.directive.js puts the
-- messages of the controls of a form. Elements that hold controls are known by numbers; names of forms
-- and controls have no `$`.
pub mod Laws
mod Tests
use chat_bot_hub.Prelude.{
  ℕ, String, str_eq, ◌<>◌, Bool, Option, none, some, List, [], ◌∷◌, ◌++◌, Object, ◌==◌,
  if◌then◌else◌,
}
use chat_bot_hub.Forms.Messages.{Element, validate_attrs, format_validate}

-- A control: its attribute `name`, its other attributes, and the element that holds it.
pub record Control : Type 0 where
  pub name : Option String
  pub attributes : Object String
  pub parent : ℕ

-- What is appended: the value of `ng-messages`, the condition of the element in it, and the messages.
pub record Block : Type 0 where
  pub ng_messages : String
  pub ng_if : String
  pub elements : List Element

-- What an element that holds controls gets: `ng-class`, none as long as it is not written, and the
-- blocks.
pub record Holder : Type 0 where
  pub ng_class : Option String
  pub blocks : List Block

abbrev pub Dom : Type 0
Dom = ℕ → Holder

abbrev pub untouched : Dom
untouched holder = record { ng_class = none; blocks = [] }

-- `elem.attr('name')` is a text that does not count as false.
abbrev pub named : Option String → Option String
named none = none
named (some s) = if str_eq s "" then none else some s

-- `addHasErrorClassName`.
unfoldable pub class_value : String → String → String
class_value form name =
    "{'has-error': " <> (form <> (".showError && " <> (form <> ("." <> (name <> ".$invalid}")))))

unfoldable pub block : String → String → List Element → Block
block form name elements = record {
  ng_messages = form <> ("." <> (name <> ".$error"));
  ng_if = form <> ".showError";
  elements = elements;
}

-- `addDom`.
unfoldable pub add_dom : String → String → List Element → ℕ → Dom → Dom
add_dom form name elements parent dom holder =
    if parent == holder
    then record {
      ng_class = some (class_value form name);
      blocks = (dom holder).blocks ++ block form name elements ∷ [];
    }
    else dom holder

-- `formatValidate`; none is a TypeError.
unfoldable pub format_control : String → Control → Dom → Option Dom
format_control form c dom = elim (named c.name) [
  | none ↦ some dom
  | some name ↦ elim (format_validate c.attributes validate_attrs) [
    | none ↦ none
    | some elements ↦ some (add_dom form name elements c.parent dom)
  ]
]

-- `$inputs.each`.
unfoldable pub each_control : String → List Control → Dom → Option Dom
each_control form [] dom = some dom
each_control form (c ∷ cs) dom = elim (format_control form c dom) [
  | none ↦ none
  | some next ↦ each_control form cs next
]

pub data Outcome : Type 0 where
  no_form_name : Outcome
  type_error : Outcome
  written : Dom → Outcome

abbrev pub finished : Option Dom → Outcome
finished none = type_error
finished (some dom) = written dom

unfoldable pub compile_named : Option String → List Control → Outcome
compile_named none controls = no_form_name
compile_named (some name) controls = finished (each_control name controls untouched)

-- `compile`, of the form's attribute `name` and its controls.
unfoldable pub compile : Option String → List Control → Outcome
compile form controls = compile_named (named form) controls
