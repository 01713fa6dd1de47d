-- ===== src/Query/Decimal.antt =====
-- The decimal text of a number, with which the language joins a number to a text.
use chat_bot_hub.Prelude.{
  ltb→lt, Bool, and_both, ◌&&◌, not, ◌==◌, ℕ, zero, suc, ◌+◌, ◌-◌, ◌*◌, ◌/◌, ◌%◌, ◌<◌, true, List,
  [], ◌∷◌, if◌then◌else◌, ltb, ◌≡◌, refl, arith, ap, ◌∙◌, Bool-cases, inl, inr,
}
use chat_bot_hub.Forms.Regex.{all}
use chat_bot_hub.Query.Uri.Laws.{is_text, lacks}

-- Each round divides by ten; the digits that are found stand behind.
unfoldable pub digits_of : ℕ → ℕ → List ℕ → List ℕ
digits_of zero n acc = acc
digits_of (suc fuel) n acc =
    let more = digits_of fuel (n / 10) ((48 + n % 10) ∷ acc) in
    if ltb n 10 then (48 + n) ∷ acc else more

-- One round more than the number is enough.
unfoldable pub decimal : ℕ → List ℕ
decimal n = digits_of (n + 1) n []

-- The number that digits spell, behind those that were read.
unfoldable pub read_decimal : ℕ → List ℕ → ℕ
read_decimal m [] = m
read_decimal m (c ∷ s) = read_decimal (m * 10 + (c - 48)) s

read-digits_of :
    (fuel n : ℕ) (acc : List ℕ)
    → n < fuel
    → read_decimal 0 (digits_of fuel n acc) ≡ read_decimal n acc
unfolding digits_of read_decimal
read-digits_of zero n acc h = absurd (omega (arith, h))
read-digits_of (suc fuel) n acc h = elim (Bool-cases (ltb n 10)) [
  | inl small ↦ rw (digits_of, small) (ap (λ m. read_decimal m acc) (omega arith))
  | inr large ↦
      rw (digits_of, large)
        (read-digits_of fuel (n / 10) ((48 + n % 10) ∷ acc) (ground (arith, large, h))
          ∙ ap (λ m. read_decimal m acc) (omega arith))
]

-- The rounds suffice: the text spells the number.
pub read-decimal : (n : ℕ) → read_decimal 0 (decimal n) ≡ n
unfolding decimal read_decimal
read-decimal n = read-digits_of (n + 1) n [] (omega arith)

-- What is true of the ten digits is true of all that is written.
digits_of-all :
    (p : ℕ → Bool) (fuel n : ℕ) (acc : List ℕ)
    → ((d : ℕ) → d < 10 → p (48 + d) ≡ true)
    → all p acc ≡ true
    → all p (digits_of fuel n acc) ≡ true
unfolding digits_of all
digits_of-all p zero n acc each h = h
digits_of-all p (suc fuel) n acc each h = elim (Bool-cases (ltb n 10)) [
  | inl small ↦ rw (digits_of, small) (and_both (each n (ltb→lt n 10 small), h))
  | inr large ↦
      rw (digits_of, large)
        (digits_of-all p fuel (n / 10) ((48 + n % 10) ∷ acc) each
          (and_both (each (n % 10) (omega arith), h)))
]

pub decimal-all :
    (p : ℕ → Bool) (n : ℕ) → ((d : ℕ) → d < 10 → p (48 + d) ≡ true) → all p (decimal n) ≡ true
unfolding decimal all
decimal-all p n each = digits_of-all p (n + 1) n [] each refl

is_text-all : (s : List ℕ) → is_text s ≡ all (λ c. ltb c 1114112) s
unfolding is_text all
is_text-all [] = refl
is_text-all (c ∷ s) = ap (ltb c 1114112 &&◌) (is_text-all s)

pub lacks-all : (d : ℕ) (s : List ℕ) → lacks d s ≡ all (λ c. not (c == d)) s
unfolding lacks all
lacks-all d [] = refl
lacks-all d (c ∷ s) = ap (not (c == d) &&◌) (lacks-all d s)

pub decimal-is_text : (n : ℕ) → is_text (decimal n) ≡ true
decimal-is_text n =
    is_text-all (decimal n) ∙ decimal-all (λ c. ltb c 1114112) n (λ d h. ground (arith, h))
