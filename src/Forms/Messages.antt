-- ===== src/Forms/Messages.antt =====
-- The messages that `formValidate` of
-- frontend/static/app/common/directives/form-validate.directive.js writes for a control of a form.
-- The values of attributes have no `$`, which a replacement text would read in its own way.
pub mod Laws
use Prim.Native.Char.{code}
use Prim.Native.String
use chat_bot_hub.Prelude.{
  String, str_eq, ◌<>◌, Bool, true, false, ◌&&◌, ◌||◌, Option, none, some, List, [], ◌∷◌, Object,
  get, if◌then◌else◌, ◌==◌,
}

-- `validateAttrs`.
abbrev pub validate_attrs : List String
validate_attrs =
    "required" ∷ "mobile" ∷ "email" ∷ "number" ∷ "ng-minlength" ∷ "ng-maxlength" ∷ "maxval"
    ∷ "minval" ∷ "ng-pattern" ∷ "interger" ∷ "money" ∷ "zipcode" ∷ "idcard" ∷ "requiredselect"
    ∷ "chinese" ∷ []

-- `defaultMsg`.
abbrev pub default_msg : Object String
default_msg =
    ("required", "该项不能为空")
    ∷ ("mobile", "手机号码格式不正确")
    ∷ ("email", "邮箱格式不正确")
    ∷ ("number", "该项必须是数字")
    ∷ ("ng-minlength", "该项不能小于{0}位数")
    ∷ ("ng-maxlength", "该项不能大于{0}位数")
    ∷ ("maxval", "该项数值不能大于{0}")
    ∷ ("minval", "该项数值不能小于{0}")
    ∷ ("ng-pattern", "该项不符合规则")
    ∷ ("interger", "该项必须为整数")
    ∷ ("money", "该项不符合规范")
    ∷ ("requiredselect", "该项不能为空")
    ∷ ("zipcode", "邮编格式不正确")
    ∷ ("idcard", "身份证格式不正确")
    ∷ ("chinese", "该项只能输入中文")
    ∷ []

-- The text is `0}`, or begins with it; and what follows these two characters.
abbrev begins_zero : String → Bool
begins_zero String.[] = false
begins_zero (String.◌∷◌ c String.[]) = false
begins_zero (String.◌∷◌ c (String.◌∷◌ d s)) = code c == b'0' && code d == b'}'

abbrev past_two : String → String
past_two String.[] = ""
past_two (String.◌∷◌ c String.[]) = ""
past_two (String.◌∷◌ c (String.◌∷◌ d s)) = s

-- `msg.replace('{0}', value)`.
unfoldable pub replace_zero : String → String → String
replace_zero String.[] value = String.[]
replace_zero (String.◌∷◌ c s) value =
    let rest : String = replace_zero s value in
    if code c == b'{' && begins_zero s then value <> past_two s else String.◌∷◌ c rest

-- `attr.indexOf('ng-') > -1`, and `attr.slice(3)`.
abbrev begins_ng : String → Bool
begins_ng (String.◌∷◌ c (String.◌∷◌ d (String.◌∷◌ e s))) =
    code c == b'n' && (code d == b'g' && code e == b'-')
begins_ng _ = false

unfoldable pub has_ng : String → Bool
has_ng String.[] = false
has_ng (String.◌∷◌ c s) = let later = has_ng s in begins_ng (String.◌∷◌ c s) || later

unfoldable pub slice_three : String → String
slice_three (String.◌∷◌ c (String.◌∷◌ d (String.◌∷◌ e s))) = s
slice_three _ = ""

-- `$input.attr(validateAttr + '-error-msg') || defaultErrorMsg`.
unfoldable pub own_or_default : Option String → Option String → Option String
own_or_default none msg = msg
own_or_default (some own) msg = if str_eq own "" then msg else some own

-- `getErrorMsg`, of the control's attributes; none is the TypeError of a missing message.
unfoldable pub get_error_msg : Object String → String → String → Option String
get_error_msg input attr_value validate_attr =
    let value : String =
      if str_eq validate_attr "maxval" then "{{" <> attr_value <> "}}" else attr_value in
    elim (own_or_default (get input (validate_attr <> "-error-msg"))
      (get default_msg validate_attr)) [ none ↦ none | some msg ↦ some (replace_zero msg value) ]

-- An element: what its `ng-message` names, and its text.
pub record Element : Type 0 where
  pub ng_message : String
  pub text : String

-- `buildErrorElement`.
unfoldable pub build_error_element : String → String → Element
build_error_element validate_attr error_msg = record {
  ng_message = if has_ng validate_attr then slice_three validate_attr else validate_attr;
  text = error_msg;
}

-- The loop of `formatValidate` over the attributes that are validated.
unfoldable pub format_validate : Object String → List String → Option (List Element)
format_validate input [] = some []
format_validate input (validate_attr ∷ more) =
    let rest : Option (List Element) = format_validate input more in
    elim (get input validate_attr) [
      | none ↦ rest
      | some attr_value ↦ elim (get_error_msg input attr_value validate_attr) [
        | none ↦ none
        | some msg ↦ elim rest [
          | none ↦ none
          | some elements ↦ some (build_error_element validate_attr msg ∷ elements)
        ]
      ]
    ]
