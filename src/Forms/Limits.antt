-- ===== src/Forms/Limits.antt =====
-- The validators of numbers in frontend/static/app/common/directives/form-validate.directive.js:
-- maxval and minval of both modules, interger and requiredselect. The numbers of the language are
-- given: a type with what the validators do with its values.
pub mod Laws
mod Tests
use chat_bot_hub.Prelude.{
  String, str_eq, Bool, true, false, ◌||◌, not, Option, none, some, List, [], ◌∷◌, ◌≡◌,
  if◌then◌else◌,
}
use chat_bot_hub.Js.{Value, undefined, null, num, str, bool, obj, arr, get_field}

-- What a parser is given: what was typed, or the number that the parser before it gave.
pub data Input (F : Type 0) : Type 0 where
  typed : String → Input F
  number : F → Input F

pub record Floats (F : Type 0) : Type 0 where
  pub parse_float : Input F → F
  pub parse_int : Input F → F
  -- The number that a value counts as in comparisons and for `isNaN`.
  pub to_number : Input F → F
  pub le : F → F → Bool
  pub eq : F → F → Bool
  pub is_nan : F → Bool
  pub parse_float-number : (x : F) → parse_float (number x) ≡ x

-- The control: what `$setValidity` was last called with for the two limits, and the model's value.
pub record Control (F : Type 0) : Type 0 where
  pub max_valid : Bool
  pub min_valid : Bool
  pub model : Option F

module _ {F : Type 0} (fl : Floats F) where
  -- A parser of a limit, given by its test: the validity that it sets, and what it returns.
  unfoldable pub limit_parser : (F → Bool) → Input F → Bool × Option F
  limit_parser holds v =
      let x = fl.parse_float v in if holds x then (true, some x) else (fl.is_nan x, none)

  -- Whether `link` pushes the parser of a limit.
  unfoldable pub has_parser : Input F → Bool
  has_parser limit = not (fl.is_nan (fl.to_number limit))

  unfoldable pub maxval : Input F → Input F → Bool × Option F
  maxval limit v = limit_parser (λ x. fl.le x (fl.to_number limit)) v

  unfoldable pub minval : Input F → Input F → Bool × Option F
  minval limit v = limit_parser (λ x. fl.le (fl.to_number limit) x) v

  -- `interger`: the validity that it sets, and what it returns.
  unfoldable pub interger : Input F → Bool × Option F
  interger v =
      if fl.eq (fl.parse_int v) (fl.to_number v)
      then (true, some (fl.parse_int v))
      else (false, none)

  -- What is left to the parser of maxval, which is only called with what is not undefined. It stands
  -- behind that of minval, because link functions are called in the reverse order of the names.
  unfoldable pub after_min : Input F → Option F → Control F → Control F
  after_min high none c = record c { model = none }
  after_min high (some x) c = record c {
    max_valid = (maxval high (number x)).0;
    model = (maxval high (number x)).1;
  }

  -- A text is typed into a control with both limits.
  unfoldable pub type_text : Input F → Input F → String → Control F → Control F
  type_text low high t c =
      after_min high (minval low (typed t)).1 (record c { min_valid = (minval low (typed t)).0 })

  unfoldable pub run : Input F → Input F → List String → Control F → Control F
  run low high [] c = c
  run low high (t ∷ ts) c = run low high ts (type_text low high t c)

-- `link` of requiredselect: the validity for a value of the model, on an element that is a `select`.
unfoldable pub requiredselect : Value → Bool
requiredselect (obj fs) = elim (get_field fs "id") [ str s ↦ not (str_eq s "") | _ ↦ true ]
requiredselect _ = true
