-- ===== src/Forms/Messages/Laws.antt =====
-- Which messages a control gets.
use chat_bot_hub.Prelude.{
  String, str_eq, ◌<>◌, Bool, true, false, ◌&&◌, Option, none, some, List, [], ◌∷◌, Object, get,
  map, ◌≡◌, refl, ap, if◌then◌else◌, Bool-cases, Option-cases, inl, inr,
}
use mathlib.Core.Bool.{false≢true}
use chat_bot_hub.Forms.Messages.{
  validate_attrs, default_msg, replace_zero, has_ng, slice_three, own_or_default, get_error_msg,
  Element, build_error_element, format_validate,
}

-- The attributes that the control has, in the order of the list, without their `ng-`.
unfoldable pub present : Object String → List String → List String
present input [] = []
present input (a ∷ more) =
    let rest = present input more in
    elim (get input a) [ none ↦ rest | some value ↦ (if has_ng a then slice_three a else a) ∷ rest ]

-- Each attribute of the list has a default message.
unfoldable pub all_default : List String → Bool
all_default [] = true
all_default (a ∷ more) =
    (elim (get default_msg a) [ none ↦ false | some msg ↦ true ]) && all_default more

default_all : all_default validate_attrs ≡ true
unfolding all_default get
default_all = refl

pub own_or_default-some :
    (own : Option String) (msg : String) → (m : String) × (own_or_default own (some msg) ≡ some m)
unfolding own_or_default
own_or_default-some none msg = (msg, refl)
own_or_default-some (some own) msg = elim (Bool-cases (str_eq own "")) [
  | inl blank ↦ (msg, rw blank refl)
  | inr filled ↦ (own, rw filled refl)
]

get_error_msg-some :
    (input : Object String) (value a msg : String)
    → get default_msg a ≡ some msg
    → (m : String) × (get_error_msg input value a ≡ some m)
unfolding get_error_msg
get_error_msg-some input value a msg h =
    let chosen : (m : String) × (own_or_default (get input (a <> "-error-msg")) (some msg)
          ≡ some m) =
      own_or_default-some (get input (a <> "-error-msg")) msg in
    let shown : String = if str_eq a "maxval" then "{{" <> value <> "}}" else value in
    (replace_zero chosen.0 shown, rw (get_error_msg, h, chosen.1) refl)

has_default :
    (a : String) (more : List String)
    → all_default (a ∷ more) ≡ true
    → ((msg : String) × (get default_msg a ≡ some msg)) × (all_default more ≡ true)
unfolding all_default
has_default a more h = elim (Option-cases (get default_msg a)) [
  | inl missing ↦ absurd (false≢true (rw missing at h))
  | inr (msg, found) ↦ ((msg, found), rw found at h)
]

format_all :
    (input : Object String) (attrs : List String)
    → all_default attrs ≡ true
    → (elements : List Element) × (format_validate input attrs ≡ some elements)
      × (map (λ e. e.ng_message) elements ≡ present input attrs)
unfolding format_validate present all_default build_error_element
format_all input [] h = ([], refl, refl)
format_all input (a ∷ more) h =
    let d : ((msg : String) × (get default_msg a ≡ some msg)) × (all_default more ≡ true) =
      has_default a more h in
    let later : (elements : List Element) × (format_validate input more ≡ some elements)
        × (map (λ e. e.ng_message) elements ≡ present input more) =
      format_all input more d.1 in
    elim (Option-cases (get input a)) [
      | inl absent ↦
          (later.0, rw (format_validate, absent) (later.1), rw (present, absent) (later.2))
      | inr (value, found) ↦
          let m : (m : String) × (get_error_msg input value a ≡ some m) =
            get_error_msg-some input value a d.0.0 d.0.1 in
          (
            build_error_element a m.0 ∷ later.0,
            rw (format_validate, found, m.1, later.1) refl,
            rw (present, found) (ap ((if has_ng a then slice_three a else a) ∷◌) later.2),
          )
    ]

-- Whatever attributes a control has, no message is missing, and it gets one element for each
-- validated attribute that it has, in their order, named without "ng-".
pub format_validate_lem :
    (input : Object String)
    → (elements : List Element) × (format_validate input validate_attrs ≡ some elements)
      × (map (λ e. e.ng_message) elements ≡ present input validate_attrs)
format_validate_lem input = format_all input validate_attrs default_all
