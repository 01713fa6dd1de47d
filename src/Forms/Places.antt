-- ===== src/Forms/Places.antt =====
-- Which texts `idcard` and `mobile` take.
use chat_bot_hub.Prelude.{
  ℕ, zero, suc, String, Bool, true, false, ◌&&◌, ◌||◌, not, List, [], ◌∷◌, ◌≡◌, refl, ◌∙◌, arith,
  length, take, drop, get_or, ◌==◌,
}
use chat_bot_hub.Js.{codes, is_digit}
use chat_bot_hub.Forms.Regex.{
  Re, cls, alt, run, run_cls, at_end, test, all, starts, run-times, test-times,
}
use chat_bot_hub.Forms.{char, mobile_re, idcard_re, accept, mobile, idcard}

pub valid_accept : (b : Bool) (v : String) → (accept b v).valid ≡ b
valid_accept true v = refl
valid_accept false v = refl

-- The digit or the X at the end of a number of 18 places.
abbrev pub is_check : ℕ → Bool
is_check c = is_digit c || c == b'X' || c == b'x'

run_check :
    (s : List ℕ)
    → run (alt (cls is_digit) (alt (char b'X') (char b'x'))) at_end s
      ≡ (length s == 1 && is_check (get_or s 0 0))
unfolding run run_cls
run_check [] = ground arith
run_check (c ∷ []) = ground arith
run_check (c ∷ d ∷ s) = ground arith

starts_last :
    (n : ℕ) (f g : ℕ → Bool) (k : List ℕ → Bool) (s : List ℕ)
    → ((t : List ℕ) → k t ≡ (length t == 1 && g (get_or t 0 0)))
    → starts n f k s ≡ (length s == suc n && (all f (take n s) && g (get_or s n 0)))
unfolding starts all
starts_last zero f g k s h = rw (h s) (ground arith)
starts_last (suc n) f g k [] h = ground arith
starts_last (suc n) f g k (c ∷ s) h = ground (arith, starts_last n f g k s h)

or_eq : {a b c d : Bool} → a ≡ b → c ≡ d → (a || c) ≡ (b || d)
or_eq e h = rw (e, h) refl

idcard_test :
    (s : List ℕ)
    → test idcard_re s ≡ (
        (length s == 15 && all is_digit s)
        || (length s == 18 && (all is_digit (take 17 s) && is_check (get_or s 17 0))))
unfolding test run
idcard_test s =
    let last : Re = alt (cls is_digit) (alt (char b'X') (char b'x')) in
    or_eq (test-times 15 is_digit s) (
      run-times 17 is_digit (run last at_end) s
      ∙ starts_last 17 is_digit is_check (run last at_end) s run_check)

-- An identity number is taken exactly if it has 15 digits, or 17 digits and then a digit or an X.
pub idcard_lem :
    (v : String)
    → (idcard v).valid ≡ (
        (length (codes v) == 15 && all is_digit (codes v))
        || (length (codes v) == 18
            && (all is_digit (take 17 (codes v)) && is_check (get_or (codes v) 17 0))))
unfolding idcard
idcard_lem v = valid_accept (test idcard_re (codes v)) v ∙ idcard_test (codes v)

-- The three digits that a mobile number begins with.
unfoldable pub is_operator : ℕ → ℕ → ℕ → Bool
is_operator c d e =
    c == b'1'
    && (d == b'3' && is_digit e
        || (d == b'5' && (is_digit e && not (e == b'4'))
            || (d == b'8' && is_digit e
                || (d == b'4' && (e == b'5' || e == b'7') || d == b'7' && is_digit e))))

mobile_test :
    (s : List ℕ)
    → test mobile_re s ≡ (
        length s == 11
        && (is_operator (get_or s 0 0) (get_or s 1 0) (get_or s 2 0) && all is_digit (drop 3 s)))
unfolding test run run_cls is_operator all
mobile_test [] = ground arith
mobile_test (c ∷ []) = ground arith
mobile_test (c ∷ d ∷ []) = ground arith
mobile_test (c ∷ d ∷ e ∷ s) = ground (arith, test-times 8 is_digit s)

-- A mobile number is taken exactly if it has 11 places, of which the first three are those of an
-- operator and the others are digits.
pub mobile_lem :
    (v : String)
    → (mobile v).valid ≡ (
        length (codes v) == 11
        && (is_operator (get_or (codes v) 0 0) (get_or (codes v) 1 0) (get_or (codes v) 2 0)
            && all is_digit (drop 3 (codes v))))
unfolding mobile
mobile_lem v = valid_accept (test mobile_re (codes v)) v ∙ mobile_test (codes v)
