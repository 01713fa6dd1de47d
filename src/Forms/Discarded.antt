-- ===== src/Forms/Discarded.antt =====
-- The older `formValidate` of frontend/static/app/common/directives/form-validate.directive.js, in the
-- module dh.formValidateDirective, which the comment there discards: the expressions and the messages
-- that it writes for a control. An attribute `custom` or `custom-condition` holds an expression that is
-- taken as an operand; the names of forms and controls are identifiers.
pub mod Laws
pub mod Validators
use Prim.Native.Char.{code}
use Prim.Native.String
use chat_bot_hub.Prelude.{
  String, str_eq, ◌<>◌, Bool, true, false, ◌&&◌, ◌||◌, Option, none, some, List, [], ◌∷◌, ◌++◌,
  ◌==◌, Object, get, if◌then◌else◌,
}
use chat_bot_hub.Js.{codes}
use chat_bot_hub.Forms.{Parsed, accept, is_chinese, mobile_re, email_re}
use chat_bot_hub.Forms.Regex.{Re, cls, seq, times, up_to, test}
use chat_bot_hub.Forms.Messages.{own_or_default, replace_zero}

-- `validateAttrs`.
abbrev pub validate_attrs : List String
validate_attrs =
    "required" ∷ "mobile" ∷ "email" ∷ "alipaycard" ∷ "username" ∷ "ng-minlength" ∷ "ng-maxlength"
    ∷ "number" ∷ "maxval" ∷ "minval" ∷ "ng-pattern" ∷ "requiredselect" ∷ "interger" ∷ "money" ∷ []

-- `defaultMsg`.
abbrev pub default_msg : Object String
default_msg =
    ("required", "该项不能为空")
    ∷ ("number", "该项必须是数字")
    ∷ ("email", "邮箱格式不正确")
    ∷ ("mobile", "手机号码格式不正确")
    ∷ ("username", "姓名应为等于或大于2位中文汉字")
    ∷ ("alipaycard", "请输入手机号或者邮箱")
    ∷ ("ng-minlength", "该项不能小于{0}位数")
    ∷ ("ng-maxlength", "该项不能大于{0}位数")
    ∷ ("maxval", "该项数值不能大于{0}")
    ∷ ("minval", "该项数值不能小于{0}")
    ∷ ("ng-pattern", "该项不符合规则")
    ∷ ("money", "该项不符合规范")
    ∷ ("interger", "该项必须为整数")
    ∷ ("requiredselect", "该项不能为空")
    ∷ ("custom", "该项不符合规则")
    ∷ []

-- An operand of `&&`: `form.input.$error.name` of the control and the name, or the text of an
-- attribute.
pub data Operand : Type 0 where
  error_of : String → String → Operand
  condition : String → Operand

-- What stands behind `form.submit && ` in the expression that `buildExpression` returns.
unfoldable pub build_expression : Object String → String → String → List Operand
build_expression attrs input validate_name =
    if str_eq validate_name "custom"
    then (elim (get attrs "custom") [ none ↦ condition "undefined" | some text ↦ condition text ])
      ∷ []
    else error_of input validate_name
      ∷ (elim (get attrs "custom-condition") [ none ↦ [] | some text ↦ condition text ∷ [] ])

-- `getErrorMsg`; none is the TypeError of a missing message.
unfoldable pub get_error_msg : Object String → String → String → Option String
get_error_msg attrs validate_attr validate_val =
    elim (own_or_default (get attrs (validate_attr <> "-error-msg"))
      (get default_msg validate_attr)) [
        | none ↦ none
        | some msg ↦ some (replace_zero msg validate_val)
      ]

-- A `span` that stands behind the control, with the operands of its `ng-if`.
pub record Span : Type 0 where
  pub shown_if : List Operand
  pub message : String

-- The spans in the order of the page, and the alternatives that `formExpression` joins by `||`; none
-- is the empty text.
pub record Written : Type 0 where
  pub spans : List Span
  pub form_expression : Option (List (List Operand))

abbrev pub blank : Written
blank = record { spans = []; form_expression = none }

-- `formExpression` with one alternative more.
unfoldable pub extend_expression : Option (List (List Operand)) → List Operand → List (List Operand)
extend_expression none e = e ∷ []
extend_expression (some es) e = es ++ e ∷ []

-- `buildExpression` and `addDom`, which puts the span in front of those that are there.
unfoldable pub add_dom : Object String → String → String → String → Written → Written
add_dom attrs input validate_name msg w =
    let e : List Operand = build_expression attrs input validate_name in
    record {
      spans = record { shown_if = e; message = msg } ∷ w.spans;
      form_expression = some (extend_expression w.form_expression e);
    }

-- The loop over the attributes that are validated.
unfoldable pub each_attr : Object String → String → List String → Written → Option Written
each_attr attrs input [] w = some w
each_attr attrs input (v ∷ vs) w = elim (get attrs v) [
  | none ↦ each_attr attrs input vs w
  | some val ↦ elim (get_error_msg attrs v val) [
    | none ↦ none
    | some msg ↦ each_attr attrs input vs (add_dom attrs input v msg w)
  ]
]

-- The loop's round for a control; `ng-class` of its row is set if there is a `formExpression`.
unfoldable pub compile_input : Object String → Option Written
compile_input attrs = elim (get attrs "name") [
  | none ↦ some blank
  | some input ↦ if str_eq input "" then some blank else elim (get attrs "custom") [
    | none ↦ each_attr attrs input validate_attrs blank
    | some val ↦ elim (get_error_msg attrs "custom" val) [
      | none ↦ none
      | some msg ↦ some (add_dom attrs input "custom" msg blank)
    ]
  ]
]

-- What the expressions read on the page: whether the form was submitted, the errors of its controls,
-- and which conditions hold.
pub record Shown : Type 0 where
  pub submit : Bool
  pub errors : String → String → Bool
  pub holds : String → Bool

unfoldable pub has_dash : String → Bool
has_dash String.[] = false
has_dash (String.◌∷◌ c s) = let more = has_dash s in code c == b'-' || more

-- In an expression a dash subtracts: of `$error.ng` and `minlength`, which are both undefined, AngularJS
-- makes the number zero.
unfoldable pub is_true : Shown → Operand → Bool
is_true s (error_of input name) = if has_dash name then false else s.errors input name
is_true s (condition text) = s.holds text

unfoldable pub all_true : Shown → List Operand → Bool
all_true s [] = true
all_true s (o ∷ os) = is_true s o && all_true s os

-- A span is on the page.
unfoldable pub any_span : Shown → List Span → Bool
any_span s [] = false
any_span s (sp ∷ sps) = (s.submit && all_true s sp.shown_if) || any_span s sps

unfoldable pub any_true : Shown → List (List Operand) → Bool
any_true s [] = false
any_true s (e ∷ es) = all_true s e || any_true s es

-- The row has the class `has-error`.
unfoldable pub has_error : Shown → Option (List (List Operand)) → Bool
has_error s none = false
has_error s (some es) = s.submit && any_true s es

-- `NAME`.
abbrev name_re : Re
name_re = seq (times 2 (cls is_chinese)) (up_to 13 (cls is_chinese))

-- The validators `username` and `alipaycard`, which the newer module does not have.
unfoldable pub username : String → Parsed
username v = accept (test name_re (codes v) || str_eq v "") v

unfoldable pub alipaycard : String → Parsed
alipaycard v = accept (test mobile_re (codes v) || test email_re (codes v)) v
