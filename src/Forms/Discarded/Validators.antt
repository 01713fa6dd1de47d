-- ===== src/Forms/Discarded/Validators.antt =====
-- The validators of the module dh.formValidateDirective that the newer module has too: mobile, number,
-- money and requiredselect.
mod Tests
use chat_bot_hub.Prelude.{
  ℕ, ◌-◌, String, Bool, true, false, Option, none, some, not, ◌==◌, if◌then◌else◌,
}
use chat_bot_hub.Js.{
  Value, undefined, null, num, str, bool, obj, arr, get_field, truthy, codes, is_digit,
}
use chat_bot_hub.Forms.{Parsed, accept, char, mobile_re, number_re}
use chat_bot_hub.Forms.Regex.{Re, cls, seq, test, up_to, opt}

unfoldable pub mobile : String → Parsed
mobile v = accept (test mobile_re (codes v)) v

unfoldable pub number : String → Parsed
number v = accept (test number_re (codes v)) v

-- The attribute of `money`, which is none where it is no number.
unfoldable pub places : Option ℕ → ℕ
places none = 4
places (some n) = if n == 0 then 4 else n

-- The regular expression of `money`.
unfoldable pub money_re : ℕ → Re
money_re val = seq (opt (char b'-')) (
    seq (seq (cls is_digit) (up_to (val - 1) (cls is_digit)))
      (opt (seq (char b'.') (up_to 2 (cls is_digit)))))

unfoldable pub money : Option ℕ → String → Parsed
money attr v = accept (test (money_re (places attr)) (codes v)) v

-- `link` of requiredselect, on an element that is a `select`: the validity for a value of the model,
-- with the equality `==` of the language and the value that the attribute has, or -1.
unfoldable pub requiredselect : (Value → Value → Bool) → Value → Value → Value → Bool
requiredselect eq minus_one attr (obj fs) =
    not (eq (get_field fs "id") (if truthy attr then attr else minus_one))
requiredselect eq minus_one attr _ = true
