-- ===== src/Forms/Limits/Laws.antt =====
-- What a control with both limits shows and holds after any texts.
use chat_bot_hub.Prelude.{
  String, Bool, ◌&&◌, ◌||◌, Option, none, some, List, [], ◌∷◌, ◌≡◌, refl, ap, ◌∙◌, arith,
  if◌then◌else◌,
}
use chat_bot_hub.Forms.Limits.{
  Input, typed, Floats, Control, limit_parser, maxval, minval, after_min, type_text, run,
}

abbrev pub last_text : List String → String → String
last_text [] t = t
last_text (u ∷ ts) t = last_text ts u

module _ {F : Type 0} where
  abbrev pub or_else : Option F → Option F → Option F
  or_else none o = o
  or_else (some x) o = some x

module _ {F : Type 0} (fl : Floats F) (low high : Input F) where
  -- The number of a text.
  abbrev pub number_of : String → F
  number_of t = fl.parse_float (typed t)

  abbrev pub above_min : F → Bool
  above_min x = fl.le (fl.to_number low) x

  abbrev pub below_max : F → Bool
  below_max x = fl.le x (fl.to_number high)

  abbrev pub kept : String → Option F
  kept t = if above_min (number_of t) then some (number_of t) else none

  -- The last number that is not below the lower limit.
  unfoldable pub last_kept : List String → Option F
  last_kept [] = none
  last_kept (t ∷ ts) = or_else (last_kept ts) (kept t)

  -- The validity of the upper limit then.
  abbrev pub verdict : Bool → Option F → Bool
  verdict before none = before
  verdict before (some x) = below_max x || fl.is_nan x

  abbrev pub min_judged : String → Bool
  min_judged t = above_min (number_of t) || fl.is_nan (number_of t)

  abbrev pub model_of : String → Option F
  model_of t =
      if above_min (number_of t) && below_max (number_of t) then some (number_of t) else none

  -- What one text, and what any further ones make of the control.
  pub record Judged (t : String) (before : Bool) (last : Option F) (c : Control F) : Type 0 where
    pub min_lem : c.min_valid ≡ min_judged t
    pub max_lem : c.max_valid ≡ verdict before last
    pub model_lem : c.model ≡ model_of t

  type_text-Judged :
      (t : String) (c : Control F) → Judged t c.max_valid (kept t) (type_text fl low high t c)
  unfolding type_text after_min maxval minval limit_parser
  type_text-Judged t c = record {
    min_lem = ground (arith, fl.parse_float-number (number_of t));
    max_lem = ground (arith, fl.parse_float-number (number_of t));
    model_lem = ground (arith, fl.parse_float-number (number_of t));
  }

  verdict-or_else :
      (before : Bool) (o p : Option F) → verdict (verdict before p) o ≡ verdict before (or_else o p)
  verdict-or_else before none p = refl
  verdict-or_else before (some x) p = refl

  -- After any texts typed into a control with both limits, it shows that it is below the lower limit
  -- exactly if the last text is a number that is; that it is above the upper limit exactly if the last
  -- number that was not below the lower limit is above the upper one, whatever was typed since (before
  -- the first such number, what it showed at the start); and its model holds a number exactly if the
  -- last text has it and it lies within the limits.
  pub run-Judged :
      (t : String) (ts : List String) (c : Control F)
      → Judged (last_text ts t) c.max_valid (last_kept (t ∷ ts)) (run fl low high (t ∷ ts) c)
  unfolding run last_kept
  run-Judged t [] c = type_text-Judged t c
  run-Judged t (u ∷ ts) c =
      let one = type_text-Judged t c in
      let more = run-Judged u ts (type_text fl low high t c) in
      record {
        min_lem = more.min_lem;
        max_lem =
            more.max_lem
            ∙ ap (λ b. verdict b (last_kept (u ∷ ts))) one.max_lem
            ∙ verdict-or_else c.max_valid (last_kept (u ∷ ts)) (kept t);
        model_lem = more.model_lem;
      }
