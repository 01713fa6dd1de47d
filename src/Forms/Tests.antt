-- ===== src/Forms/Tests.antt =====
-- The validators on concrete texts.
use chat_bot_hub.Prelude.{
  get, none, ℕ, true, false, ◌&&◌, ◌==◌, leb, List, [], ◌∷◌, ◌≡◌, refl, String, Object, some,
  length, drop, get_or,
}
use chat_bot_hub.Js.{codes, is_digit}
use chat_bot_hub.Forms.Regex.{all, test, run, run_cls, run_plus, times, up_to}
use chat_bot_hub.Forms.{email, mobile, money, money_re}
use chat_bot_hub.Forms.Messages.{replace_zero}
use chat_bot_hub.Forms.Places.{is_operator, mobile_lem}
use chat_bot_hub.Forms.Discarded.{Shown}

email_taken : (email "a.b@hub.cn").valid ≡ true
unfolding email test run run_cls run_plus times up_to
email_taken = refl

money_taken : (money 3 "120.5").valid ≡ true
unfolding money money_re test run run_cls times up_to
money_taken = refl

money_refused : (money 3 "1200").valid ≡ false
unfolding money money_re test run run_cls times up_to
money_refused = refl

mobile_lem_example : (mobile "15412345678").valid ≡ (
    length (codes "15412345678") == 11
    && (is_operator
          (get_or (codes "15412345678") 0 0)
          (get_or (codes "15412345678") 1 0)
          (get_or (codes "15412345678") 2 0)
        && all is_digit (drop 3 (codes "15412345678"))))
mobile_lem_example = mobile_lem "15412345678"

abbrev one : List ℕ
one = b'1' ∷ []

abbrev two : List ℕ
two = b'2' ∷ []

digits_one : all is_digit one ≡ true
unfolding all
digits_one = refl

digits_two : leb 1 (length two) && all is_digit two ≡ true
unfolding all
digits_two = refl

abbrev control : Object String
control = ("ng-minlength", "2") ∷ ("required", "") ∷ ("required-error-msg", "name!") ∷ []

limit_text : replace_zero "该项不能小于{0}位数" "2" ≡ "该项不能小于2位数"
unfolding replace_zero
limit_text = refl

-- A control with a limit of its length and a condition.
abbrev attrs : Object String
attrs = ("name", "user") ∷ ("required", "") ∷ ("ng-minlength", "2") ∷ ("custom-condition", "c") ∷ []

-- Everything is in error, and the condition holds.
abbrev failing : Shown
failing = record { submit = true; errors = λ input name. true; holds = λ text. true }

named_user : get attrs "name" ≡ some "user"
unfolding get
named_user = refl

no_custom : get attrs "custom" ≡ none
unfolding get
no_custom = refl
