-- ===== src/Lists/Times.antt =====
-- `tsToString` of the list pages: the text of a time. The parts of a date, in the local time zone, are
-- what the language's `Date` yields for the time.
use chat_bot_hub.Prelude.{
  ◌∙◌, not, ◌==◌, Bool-cases, ltb→lt, ℕ, zero, suc, ◌+◌, ◌-◌, ◌*◌, ◌/◌, ◌%◌, ◌<◌, true, false, not,
  Option, none, some, List, [], ◌∷◌, ◌++◌, ◌==◌, ltb, ◌≡◌, refl, arith, Bool-cases, inl, inr,
  ltb→lt,
}
use chat_bot_hub.Query.Cut.{before, after, cut-append}
use chat_bot_hub.Query.Decimal.{
  decimal, digits_of, read_decimal, read-decimal, decimal-all, lacks-all,
}
use chat_bot_hub.Query.Uri.Laws.{lacks}

-- `getFullYear()`, `getMonth()`, which counts from 0, and the rest.
pub record Parts : Type 0 where
  pub year : ℕ
  pub month : ℕ
  pub date : ℕ
  pub hours : ℕ
  pub minutes : ℕ
  pub seconds : ℕ

-- `s.substr(-2)`.
unfoldable pub last_two : List ℕ → List ℕ
last_two [] = []
last_two (a ∷ []) = a ∷ []
last_two (a ∷ b ∷ []) = a ∷ b ∷ []
last_two (a ∷ b ∷ c ∷ s) = last_two (b ∷ c ∷ s)

-- `("0" + n).substr(-2)`.
unfoldable pub padded : ℕ → List ℕ
padded n = last_two (b'0' ∷ decimal n)

-- The text of the parts.
unfoldable pub format : Parts → List ℕ
format d =
    decimal d.year
    ++ (b'-'
        ∷ (padded (d.month + 1)
            ++ (b'-'
                ∷ (padded d.date
                    ++ (b' '
                        ∷ (padded d.hours
                            ++ (b':' ∷ (padded d.minutes ++ (b':' ∷ padded d.seconds)))))))))

-- `tsToString`, with the milliseconds that one unit of the times has: 1000 for failing actions, and 1
-- on the other pages.
unfoldable pub ts_to_string : (ℕ → Parts) → ℕ → Option ℕ → List ℕ
ts_to_string parts_of unit none = []
ts_to_string parts_of unit (some t) = format (parts_of (t * unit))

abbrev two : ℕ → List ℕ
two n = (48 + n / 10) ∷ (48 + n % 10) ∷ []

digits_of-two : (fuel n : ℕ) → n < 100 → ltb n 10 ≡ false → 1 < fuel → digits_of fuel n [] ≡ two n
unfolding digits_of
digits_of-two zero n h k l = absurd (omega (arith, l))
digits_of-two (suc zero) n h k l = absurd (omega (arith, l))
digits_of-two (suc (suc fuel)) n h k l = ground (arith, h, k)

digits_of-one : (fuel n : ℕ) → n < 10 → 0 < fuel → digits_of fuel n [] ≡ (48 + n) ∷ []
unfolding digits_of
digits_of-one zero n h l = absurd (omega (arith, l))
digits_of-one (suc fuel) n h l = ground (arith, h)

padded-two : (n : ℕ) → n < 100 → padded n ≡ two n
unfolding padded last_two decimal
padded-two n h = elim (Bool-cases (ltb n 10)) [
  | inl small ↦
      rw (digits_of-one (n + 1) n (ltb→lt n 10 small) (omega arith))
        (ground (arith, ltb→lt n 10 small))
  | inr large ↦ rw (digits_of-two (n + 1) n h large (ground (arith, large))) refl
]

decimal-lacks : (n : ℕ) → lacks b'-' (decimal n) ≡ true
decimal-lacks n =
    lacks-all b'-' (decimal n) ∙ decimal-all (λ c. not (c == b'-')) n (λ d h. ground (arith, h))

abbrev value : ℕ → ℕ → ℕ
value a b = (a - 48) * 10 + (b - 48)

-- The parts that a text `MM-DD hh:mm:ss` spells behind the year.
unfoldable pub read_rest : ℕ → List ℕ → Option Parts
read_rest y (a ∷ b ∷ p ∷ c ∷ d ∷ q ∷ e ∷ f ∷ r ∷ g ∷ h ∷ s ∷ i ∷ j ∷ []) = some (record {
  year = y;
  month = value a b - 1;
  date = value c d;
  hours = value e f;
  minutes = value g h;
  seconds = value i j;
})
read_rest y _ = none

unfoldable pub read : List ℕ → Option Parts
read s = read_rest (read_decimal 0 (before b'-' s)) (after b'-' s)

-- The parts that a date of the language has.
pub record IsDate (d : Parts) : Type 0 where
  pub month_bound : d.month < 12
  pub date_bound : d.date < 32
  pub hours_bound : d.hours < 24
  pub minutes_bound : d.minutes < 60
  pub seconds_bound : d.seconds < 60

value-two : (n : ℕ) → n < 100 → value (48 + n / 10) (48 + n % 10) ≡ n
value-two n h = omega arith

-- The text behind the year.
abbrev behind : Parts → List ℕ
behind d =
    padded (d.month + 1)
    ++ (b'-'
        ∷ (padded d.date
            ++ (b' '
                ∷ (padded d.hours ++ (b':' ∷ (padded d.minutes ++ (b':' ∷ padded d.seconds)))))))

read_rest-behind : (d : Parts) → IsDate d → read_rest d.year (behind d) ≡ some d
unfolding read_rest
read_rest-behind d h =
    rw
      (
        padded-two (d.month + 1) (omega (arith, h.month_bound)),
        padded-two d.date (omega (arith, h.date_bound)),
        padded-two d.hours (omega (arith, h.hours_bound)),
        padded-two d.minutes (omega (arith, h.minutes_bound)),
        padded-two d.seconds (omega (arith, h.seconds_bound)),
      )
      (ground arith)

-- The text of a date tells its parts.
read-format : (d : Parts) → IsDate d → read (format d) ≡ some d
unfolding read format
read-format d h =
    let cut = cut-append b'-' (decimal d.year) (behind d) (decimal-lacks d.year) in
    rw (cut.0, cut.1, read-decimal d.year) (read_rest-behind d h)

-- If the date of a time has its parts in their ranges, the text that a page shows for the time tells
-- them, whatever the unit is.
pub read-ts_to_string :
    (parts_of : ℕ → Parts) (unit t : ℕ)
    → IsDate (parts_of (t * unit))
    → read (ts_to_string parts_of unit (some t)) ≡ some (parts_of (t * unit))
unfolding ts_to_string
read-ts_to_string parts_of unit t h = read-format (parts_of (t * unit)) h
