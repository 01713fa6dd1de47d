-- ===== src/Forms/Discarded/Laws.antt =====
-- Which messages of the older `formValidate` are shown, and when the row of a control is marked.
use mathlib.Core.Bool.{false≢true}
use chat_bot_hub.Prelude.{
  String, str_eq, ◌<>◌, Bool, true, false, not, ◌&&◌, ◌||◌, Option, none, some, List, [], ◌∷◌, ◌++◌,
  Object, get, ◌≡◌, refl, ◌∙◌, arith, Option-cases, inl, inr,
}
use chat_bot_hub.Forms.Messages.{own_or_default, replace_zero}
use chat_bot_hub.Forms.Messages.Laws.{own_or_default-some}
use chat_bot_hub.Forms.Discarded.{
  validate_attrs, default_msg, Operand, build_expression, get_error_msg, Written, blank,
  extend_expression, add_dom, each_attr, compile_input, Shown, has_dash, is_true, all_true,
  any_span, any_true, has_error,
}

-- The condition of the control, if it has one.
unfoldable pub condition_holds : Shown → Option String → Bool
condition_holds s none = true
condition_holds s (some text) = s.holds text

-- An attribute of the list that the control has is in error, and is written without a dash.
unfoldable pub is_flagged : Shown → Object String → String → List String → Bool
is_flagged s attrs input [] = false
is_flagged s attrs input (v ∷ vs) =
    (elim (get attrs v) [
      | none ↦ false
      | some val ↦
          not (has_dash v) && (s.errors input v && condition_holds s (get attrs "custom-condition"))
    ])
    || is_flagged s attrs input vs

-- Each attribute of the list has a default message, and is not `custom`.
unfoldable pub all_known : List String → Bool
all_known [] = true
all_known (v ∷ vs) =
    (elim (get default_msg v) [ none ↦ false | some msg ↦ not (str_eq v "custom") ]) && all_known vs

known_attrs : all_known validate_attrs ≡ true
unfolding all_known get
known_attrs = refl

all_true-build_expression :
    (s : Shown) (attrs : Object String) (input v : String)
    → str_eq v "custom" ≡ false
    → all_true s (build_expression attrs input v)
      ≡ (not (has_dash v) && (s.errors input v && condition_holds s (get attrs "custom-condition")))
unfolding all_true build_expression is_true condition_holds
all_true-build_expression s attrs input v h = ground (arith, h)

any_true-append :
    (s : Shown) (es : List (List Operand)) (e : List Operand)
    → any_true s (es ++ e ∷ []) ≡ (any_true s es || all_true s e)
unfolding any_true
any_true-append s [] e = ground arith
any_true-append s (d ∷ es) e = ground (arith, any_true-append s es e)

has_error-extend :
    (s : Shown) (o : Option (List (List Operand))) (e : List Operand)
    → has_error s (some (extend_expression o e)) ≡ (has_error s o || (s.submit && all_true s e))
unfolding has_error extend_expression any_true
has_error-extend s none e = ground arith
has_error-extend s (some es) e = ground (arith, any_true-append s es e)

get_error_msg-some :
    (attrs : Object String) (v val msg : String)
    → get default_msg v ≡ some msg
    → (m : String) × (get_error_msg attrs v val ≡ some m)
unfolding get_error_msg
get_error_msg-some attrs v val msg h =
    let chosen : (m : String) × (own_or_default (get attrs (v <> "-error-msg")) (some msg)
          ≡ some m) =
      own_or_default-some (get attrs (v <> "-error-msg")) msg in
    (replace_zero chosen.0 val, rw (get_error_msg, h, chosen.1) refl)

known_parts :
    (v : String) (vs : List String)
    → all_known (v ∷ vs) ≡ true
    → ((msg : String) × (get default_msg v ≡ some msg))
      × (str_eq v "custom" ≡ false)
      × (all_known vs ≡ true)
unfolding all_known
known_parts v vs h = elim (Option-cases (get default_msg v)) [
  | inl missing ↦ absurd (false≢true (rw missing at h))
  | inr (msg, found) ↦ ((msg, found), ground (arith, h, found), ground (arith, h, found))
]

span-add_dom :
    (s : Shown) (attrs : Object String) (input v msg : String) (w : Written)
    → any_span s (add_dom attrs input v msg w).spans
      ≡ ((s.submit && all_true s (build_expression attrs input v)) || any_span s w.spans)
unfolding any_span add_dom
span-add_dom s attrs input v msg w = refl

error-add_dom :
    (s : Shown) (attrs : Object String) (input v msg : String) (w : Written)
    → has_error s (add_dom attrs input v msg w).form_expression
      ≡ (has_error s w.form_expression || (s.submit && all_true s (build_expression attrs input v)))
unfolding add_dom
error-add_dom s attrs input v msg w =
    has_error-extend s w.form_expression (build_expression attrs input v)

each_attr_lem :
    (s : Shown) (attrs : Object String) (input : String) (vs : List String) (w : Written)
    → all_known vs ≡ true
    → (r : Written) × (each_attr attrs input vs w ≡ some r)
      × (any_span s r.spans ≡ (any_span s w.spans || (s.submit && is_flagged s attrs input vs)))
      × (has_error s r.form_expression
          ≡ (has_error s w.form_expression || (s.submit && is_flagged s attrs input vs)))
unfolding each_attr is_flagged
each_attr_lem s attrs input [] w h = (w, refl, ground arith, ground arith)
each_attr_lem s attrs input (v ∷ vs) w h =
    let known = known_parts v vs h in
    elim (Option-cases (get attrs v)) [
      | inl missing ↦
          let more = each_attr_lem s attrs input vs w known.2 in
          (
            more.0,
            rw (each_attr, missing) more.1,
            rw (is_flagged, missing) more.2,
            rw (is_flagged, missing) more.3,
          )
      | inr (val, found) ↦
          let msg = get_error_msg-some attrs v val known.0.0 known.0.1 in
          let next : Written = add_dom attrs input v msg.0 w in
          let more = each_attr_lem s attrs input vs next known.2 in
          let shown = all_true-build_expression s attrs input v known.1 in
          (
            more.0,
            rw (each_attr, found, msg.1) more.1,
            rw (is_flagged, found)
                (ground (arith, more.2, shown, span-add_dom s attrs input v msg.0 w)),
            rw (is_flagged, found)
                (ground (arith, more.3, shown, error-add_dom s attrs input v msg.0 w)),
          )
    ]

-- For a control with a name and without an attribute `custom`: no message is missing; a message is
-- shown exactly if the form was submitted and, with its condition, one of the validated attributes
-- that the control has and that has no dash is in error; and exactly then its row is marked.
pub compile_input_lem :
    (s : Shown) (attrs : Object String) (input : String)
    → get attrs "name" ≡ some input
    → str_eq input "" ≡ false
    → get attrs "custom" ≡ none
    → (r : Written) × (compile_input attrs ≡ some r)
      × (any_span s r.spans ≡ (s.submit && is_flagged s attrs input validate_attrs))
      × (has_error s r.form_expression ≡ (s.submit && is_flagged s attrs input validate_attrs))
unfolding compile_input
compile_input_lem s attrs input h k n =
    let loop = each_attr_lem s attrs input validate_attrs blank known_attrs in
    (
      loop.0,
      rw (compile_input, h, k, n) loop.1,
      loop.2 ∙ unfold any_span in refl,
      loop.3 ∙ unfold has_error in refl,
    )
