-- ===== src/Forms.antt =====
-- The validators of frontend/static/app/common/directives/form-validate.directive.js that test what
-- is typed against a regular expression. A text is the list of its code points, which are taken to
-- be below 2 ^ 16.
pub mod Regex
pub mod Messages
pub mod Discarded
pub mod Limits
pub mod Placement
pub mod Places
pub mod Search
mod Tests
use chat_bot_hub.Prelude.{
  ℕ, ◌-◌, String, Bool, true, false, ◌&&◌, ◌||◌, not, Option, none, some, if◌then◌else◌, leb, ◌==◌,
}
use chat_bot_hub.Js.{codes, is_digit}
use Regex.{Re, eps, cls, seq, alt, plus, test, found, times, up_to, opt}

abbrev pub between : ℕ → ℕ → ℕ → Bool
between low high c = leb low c && leb c high

-- `\w`.
abbrev pub is_word : ℕ → Bool
is_word c = between b'a' b'z' c || between b'A' b'Z' c || is_digit c || c == b'_'

-- `.`, which takes no line terminator.
abbrev pub is_any : ℕ → Bool
is_any c = not (c == 10 || c == 13 || c == 8232 || c == 8233)

-- `[\w\.-]`.
abbrev pub is_address : ℕ → Bool
is_address c = is_word c || c == b'.' || c == b'-'

-- `[\u4e00-\u9fa5]`.
abbrev pub is_chinese : ℕ → Bool
is_chinese c = between 19968 40869 c

abbrev pub char : ℕ → Re
char d = cls (λ c. c == d)

-- Three characters in a row, the first two of them given.
abbrev pub prefix : ℕ → ℕ → (ℕ → Bool) → Re
prefix c d f = seq (char c) (seq (char d) (cls f))

-- The alternatives that a mobile number begins with.
abbrev pub operator_re : Re
operator_re = alt (prefix b'1' b'3' is_digit) (
    alt (prefix b'1' b'5' (λ c. between b'0' b'3' c || between b'5' b'9' c)) (
      alt (prefix b'1' b'8' is_digit)
        (alt (prefix b'1' b'4' (λ c. c == b'5' || c == b'7')) (prefix b'1' b'7' is_digit))))

-- `MOBILE_REG`.
abbrev pub mobile_re : Re
mobile_re = seq operator_re (times 8 (cls is_digit))

-- `ZIPCODE_REG`, without anchors.
abbrev pub zipcode_re : Re
zipcode_re = seq (cls (between b'1' b'9')) (times 5 (cls is_digit))

-- `IDCARD`.
abbrev pub idcard_re : Re
idcard_re =
    alt (times 15 (cls is_digit))
      (seq (times 17 (cls is_digit)) (alt (cls is_digit) (alt (char b'X') (char b'x'))))

-- `EMAIL_REG`.
abbrev pub email_re : Re
email_re = seq (plus is_address) (
    seq (char b'@') (
      seq (plus is_address)
        (seq (char b'.') (seq (times 2 (cls is_word)) (up_to 2 (cls is_word))))))

-- `NUMBER_REG`; its point is not escaped.
abbrev pub number_re : Re
number_re = seq (opt (char b'-')) (seq (plus is_digit) (opt (seq (cls is_any) (plus is_digit))))

-- The regular expression of `chinese`.
abbrev pub chinese_re : Re
chinese_re = plus is_chinese

-- That of `money`, for the value of its attribute: at least one digit and so many at most.
unfoldable pub money_re : ℕ → Re
money_re val =
    seq (seq (cls is_digit) (up_to (val - 1) (cls is_digit)))
      (opt (seq (char b'.') (up_to 4 (cls is_digit))))

-- What a parser makes of the text: the validity that it sets, and the value; none is undefined.
pub record Parsed : Type 0 where
  pub valid : Bool
  pub value : Option String

abbrev pub accept : Bool → String → Parsed
accept true v = record { valid = true; value = some v }
accept false v = record { valid = false; value = none }

unfoldable pub email : String → Parsed
email v = accept (test email_re (codes v)) v

unfoldable pub mobile : String → Parsed
mobile v = accept (test mobile_re (codes v)) v

unfoldable pub zipcode : String → Parsed
zipcode v = accept (found zipcode_re (codes v)) v

unfoldable pub idcard : String → Parsed
idcard v = accept (test idcard_re (codes v)) v

unfoldable pub number : String → Parsed
number v = accept (test number_re (codes v)) v

unfoldable pub chinese : String → Parsed
chinese v = accept (test chinese_re (codes v)) v

unfoldable pub money : ℕ → String → Parsed
money val v = accept (test (money_re val) (codes v)) v
