-- ===== src/Forms/Search.antt =====
-- Which texts `zipcode` and `number` take.
use mathlib.Core.Logic.{◌↔◌}
use chat_bot_hub.Prelude.{
  ℕ, zero, suc, String, Bool, true, false, ◌&&◌, ◌||◌, List, [], ◌∷◌, ◌++◌, ◌≡◌, refl, sym, ap, ◌∙◌,
  arith, length, take, get_or, leb, Bool-cases, inl, inr,
}
use chat_bot_hub.Js.{codes, is_digit}
use chat_bot_hub.Forms.Regex.{
  Re, cls, seq, plus, run, run_cls, run_plus, at_end, test, found, opt, all, starts, run-times,
  test-plus,
}
use chat_bot_hub.Forms.Places.{valid_accept}
use chat_bot_hub.Forms.{between, is_any, zipcode_re, number_re, zipcode, number}

-- What `found` finds.
found_to :
    (r : Re) (s : List ℕ)
    → found r s ≡ true
    → (front rest : List ℕ) × (s ≡ front ++ rest) × (run r (λ t. true) rest ≡ true)
unfolding found
found_to r [] h = ([], [], refl, h)
found_to r (c ∷ s) h = elim (Bool-cases (run r (λ t. true) (c ∷ s))) [
  | inl now ↦ ([], c ∷ s, refl, now)
  | inr later ↦
      let more : (front rest : List ℕ) × (s ≡ front ++ rest) × (run r (λ t. true) rest ≡ true) =
        found_to r s (rw later at h) in
      (c ∷ more.0, more.1, ap (c ∷◌) more.2, more.3)
]

found_from :
    (r : Re) (front rest : List ℕ) → run r (λ t. true) rest ≡ true → found r (front ++ rest) ≡ true
unfolding found
found_from r [] [] h = h
found_from r [] (c ∷ s) h = rw h refl
found_from r (c ∷ front) rest h = ground (arith, found_from r front rest h)

starts_free :
    (n : ℕ) (f : ℕ → Bool) (s : List ℕ)
    → starts n f (λ t. true) s ≡ (leb n (length s) && all f (take n s))
unfolding starts all
starts_free zero f s = ground arith
starts_free (suc n) f [] = ground arith
starts_free (suc n) f (c ∷ s) = ground (arith, starts_free n f s)

zipcode_run :
    (s : List ℕ)
    → run zipcode_re (λ t. true) s
      ≡ (leb 6 (length s) && (between b'1' b'9' (get_or s 0 0) && all is_digit (take 6 s)))
unfolding run run_cls all
zipcode_run [] = ground arith
zipcode_run (c ∷ s) = ground (arith, run-times 5 is_digit (λ t. true) s, starts_free 5 is_digit s)

-- A text is taken for a zip code exactly if it contains six digits of which the first is not zero,
-- whatever stands before and after them.
pub zipcode_lem :
    (v : String)
    → ((zipcode v).valid ≡ true) ↔ (
        (front rest : List ℕ) × (codes v ≡ front ++ rest)
        × ((leb 6 (length rest)
              && (between b'1' b'9' (get_or rest 0 0) && all is_digit (take 6 rest)))
            ≡ true))
unfolding zipcode
zipcode_lem v =
    let valid : (zipcode v).valid ≡ found zipcode_re (codes v) =
      valid_accept (found zipcode_re (codes v)) v in
    (
      λ taken.
          let split : (front rest : List ℕ) × (codes v ≡ front ++ rest)
              × (run zipcode_re (λ t. true) rest ≡ true) =
            found_to zipcode_re (codes v) (sym valid ∙ taken) in
          (split.0, split.1, split.2, sym (zipcode_run split.1) ∙ split.3),
      λ split.
          valid
          ∙ ap (found zipcode_re) split.2
          ∙ found_from zipcode_re split.0 split.1 (zipcode_run split.1 ∙ split.3),
    )

all-append_not : (f : ℕ → Bool) (a b : List ℕ) (c : ℕ) → f c ≡ false → all f (a ++ c ∷ b) ≡ false
unfolding all
all-append_not f [] b c h = ground (arith, h)
all-append_not f (x ∷ a) b c h = ground (arith, all-append_not f a b c h)

-- What `NUMBER_REG` takes after the digits in front.
abbrev fraction : List ℕ → Bool
fraction s = run (opt (seq (cls is_any) (plus is_digit))) at_end s

bool_first :
    (x any digit tail more : Bool)
    → (x && true) ≡ true
    → digit ≡ false
    → tail ≡ true
    → (x && ((any && tail || false) || digit && more)) ≡ any
bool_first x any digit tail more d e h = ground (arith, d, e, h)

bool_more :
    {c : Bool} (x all_ any tail more : Bool)
    → (x && all_) ≡ true
    → tail ≡ false
    → (all_ ≡ true → more ≡ c)
    → (x && ((any && tail || false) || more)) ≡ c
bool_more x all_ any tail more d e h = ground (arith, d, e, h)

no_end : (s : List ℕ) → all is_digit s ≡ false → (leb 1 (length s) && all is_digit s) ≡ false
no_end s h = rw h (ground arith)

number_digits :
    (x : ℕ) (a b : List ℕ) (c : ℕ)
    → all is_digit (x ∷ a) ≡ true
    → is_digit c ≡ false
    → test (plus is_digit) b ≡ true
    → run_plus is_digit fraction (x ∷ a ++ c ∷ b) ≡ is_any c
unfolding run_plus run run_cls all test
number_digits x [] b c d e h = bool_first (is_digit x) (is_any c) (is_digit c) _ _ d e h
number_digits x (y ∷ a) b c d e h =
    bool_more (is_digit x) (all is_digit (y ∷ a)) (is_any y) _ _ d
      (test-plus is_digit (a ++ c ∷ b) ∙ no_end (a ++ c ∷ b) (all-append_not is_digit a b c e))
      (λ more. number_digits y a b c more e h)

number_test :
    (x : ℕ) (a b : List ℕ) (c : ℕ)
    → all is_digit (x ∷ a) ≡ true
    → is_digit c ≡ false
    → test (plus is_digit) b ≡ true
    → test number_re (x ∷ a ++ c ∷ b) ≡ is_any c
unfolding test run run_cls all
number_test x a b c d e h = ground (arith, d, number_digits x a b c d e h)

-- Two texts of digits with
-- a character between them that is no digit are taken as a number exactly if the character is no line terminator.
pub number_lem :
    (v : String) (x : ℕ) (a b : List ℕ) (c : ℕ)
    → codes v ≡ x ∷ a ++ c ∷ b
    → all is_digit (x ∷ a) ≡ true
    → is_digit c ≡ false
    → leb 1 (length b) && all is_digit b ≡ true
    → (number v).valid ≡ is_any c
unfolding number
number_lem v x a b c form d e h =
    valid_accept (test number_re (codes v)) v
    ∙ ap (test number_re) form
    ∙ number_test x a b c d e (test-plus is_digit b ∙ h)
