-- ===== src/Forms/Limits/Tests.antt =====
-- A control that takes whole numbers, with the numbers of Js in the place of those of the language.
use chat_bot_hub.Prelude.{Bool, true, false, none, [], ◌∷◌, ◌≡◌, refl, leb}
use chat_bot_hub.Prelude.Int.{pos, negsuc}
use chat_bot_hub.Js.{Num, int, is_nan, parse_int}
use chat_bot_hub.Forms.Limits.{
  Input, typed, number, Floats, Control, limit_parser, maxval, minval, after_min, type_text, run,
}
use chat_bot_hub.Forms.Limits.Laws.{Judged, last_kept, run-Judged}

abbrev le_int : Num → Num → Bool
le_int (int (pos m)) (int (pos n)) = leb m n
le_int (int (negsuc m)) (int (pos n)) = true
le_int (int (pos m)) (int (negsuc n)) = false
le_int (int (negsuc m)) (int (negsuc n)) = leb n m
le_int _ _ = false

abbrev read : Input Num → Num
read (typed s) = parse_int s
read (number x) = x

abbrev whole : Floats Num
whole = record {
  parse_float = read;
  parse_int = read;
  to_number = read;
  le = le_int;
  eq = λ a b. false;
  is_nan = is_nan;
  parse_float-number = λ x. refl;
}

abbrev fresh : Control Num
fresh = record { max_valid = true; min_valid = true; model = none }

-- The message for the upper limit stays behind a text that is below the lower one.
stale :
    run whole (typed "1") (typed "9") ("12" ∷ "0" ∷ []) fresh
    ≡ record { max_valid = false; min_valid = false; model = none }
unfolding run type_text after_min maxval minval limit_parser parse_int
stale = refl

run-Judged_example :
    Judged whole
      (typed "1")
      (typed "9")
      "0"
      true
      (last_kept whole (typed "1") (typed "9") ("12" ∷ "0" ∷ []))
      (run whole (typed "1") (typed "9") ("12" ∷ "0" ∷ []) fresh)
run-Judged_example = run-Judged whole (typed "1") (typed "9") "12" ("0" ∷ []) fresh
