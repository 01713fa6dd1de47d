-- ===== src/Login/Pattern/Laws.antt =====
-- What every match of a pattern satisfies.
use chat_bot_hub.Prelude.{
  ℕ, zero, suc, Bool, true, Option, none, some, List, [], ◌∷◌, ◌++◌, ◌≡◌, ap, length, arith,
  Bool-cases, inl, inr,
}
use chat_bot_hub.Login.Pattern.{
  Pattern, eps, edge, cls, seq, alt, star, Found, Next, push, or_else, is_edge, take_cls, iterate,
  match, takes,
}

-- A property of results that the matcher keeps.
module _ (P : List ℕ → Found → Type 0) where
  abbrev All : Next → Type 0
  All k = (prev : Option ℕ) (s : List ℕ) → P s (k prev s)

  module _ (P-none : (s : List ℕ) → P s none)
      (P-push : (c : ℕ) (s : List ℕ) (o : Found) → P s o → P (c ∷ s) (push c o))
      (P-or : (s : List ℕ) (a b : Found) → P s a → P s b → P s (or_else a b)) where
    take_cls-All : (f : ℕ → Bool) (k : Next) → All k → All (take_cls f k)
    unfolding take_cls
    take_cls-All f k h prev [] = P-none []
    take_cls-All f k h prev (c ∷ s) = elim (Bool-cases (f c)) [
      | inl e ↦ rw e (P-push c s (k (some c) s) (h (some c) s))
      | inr e ↦ rw e (P-none (c ∷ s))
    ]

    iterate-All :
        (n : ℕ) (m : Next → Next)
        → ((k : Next) → All k → All (m k))
        → (k : Next) → All k
        → All (iterate n m k)
    unfolding iterate
    iterate-All zero m keep k h prev s = h prev s
    iterate-All (suc n) m keep k h prev s =
        P-or s _ _ (keep (iterate n m k) (iterate-All n m keep k h) prev s) (h prev s)

    pub match-All : (r : Pattern) (k : Next) → All k → All (match r k)
    unfolding match
    match-All eps k h prev s = h prev s
    match-All edge k h prev s = elim (Bool-cases (is_edge prev s)) [
      | inl e ↦ rw e (h prev s)
      | inr e ↦ rw e (P-none s)
    ]
    match-All (cls f) k h prev s = take_cls-All f k h prev s
    match-All (seq a b) k h prev s = match-All a (match b k) (match-All b k h) prev s
    match-All (alt a b) k h prev s = P-or s _ _ (match-All a k h prev s) (match-All b k h prev s)
    match-All (star r) k h prev s = iterate-All (length s) (match r) (match-All r) k h prev s

-- A match and its rest are the text.
abbrev pub Splits : List ℕ → Found → Type 0
Splits s none = Unit
Splits s (some (m, rest)) = m ++ rest ≡ s

Splits-push : (c : ℕ) (s : List ℕ) (o : Found) → Splits s o → Splits (c ∷ s) (push c o)
unfolding push
Splits-push c s none h = tt
Splits-push c s (some (m, rest)) h = ap (c ∷◌) h

Splits-or : (s : List ℕ) (a b : Found) → Splits s a → Splits s b → Splits s (or_else a b)
unfolding or_else
Splits-or s none b h k = k
Splits-or s (some f) b h k = h

pub match-Splits :
    (r : Pattern) (k : Next)
    → ((prev : Option ℕ) (s : List ℕ) → Splits s (k prev s))
    → (prev : Option ℕ) (s : List ℕ) → Splits s (match r k prev s)
match-Splits r k h prev s = match-All Splits (λ _. tt) Splits-push Splits-or r k h prev s

-- A match takes a character.
abbrev pub Takes : Found → Type 0
Takes none = Unit
Takes (some ([], rest)) = ⊥
Takes (some (c ∷ m, rest)) = Unit

Takes-push : (c : ℕ) (o : Found) → Takes (push c o)
unfolding push
Takes-push c none = tt
Takes-push c (some (m, rest)) = tt

Takes-or : (a b : Found) → Takes a → Takes b → Takes (or_else a b)
unfolding or_else
Takes-or none b h k = k
Takes-or (some f) b h k = h

match-Takes_after :
    (r : Pattern) (k : Next)
    → ((prev : Option ℕ) (s : List ℕ) → Takes (k prev s))
    → (prev : Option ℕ) (s : List ℕ) → Takes (match r k prev s)
match-Takes_after r k h prev s =
    match-All (λ _ o. Takes o) (λ _. tt) (λ c s o _. Takes-push c o) (λ s a b p q. Takes-or a b p q)
      r k h prev s

take_cls-Takes :
    (f : ℕ → Bool) (k : Next) (prev : Option ℕ) (s : List ℕ) → Takes (take_cls f k prev s)
unfolding take_cls
take_cls-Takes f k prev [] = tt
take_cls-Takes f k prev (c ∷ s) = elim (Bool-cases (f c)) [
  | inl e ↦ rw e (Takes-push c (k (some c) s))
  | inr e ↦ rw e tt
]

pub match-Takes :
    (r : Pattern) (k : Next)
    → takes r ≡ true
    → (prev : Option ℕ) (s : List ℕ) → Takes (match r k prev s)
unfolding match takes
match-Takes eps k h prev s = absurd (cc)
match-Takes edge k h prev s = absurd (cc)
match-Takes (cls f) k h prev s = take_cls-Takes f k prev s
match-Takes (seq a b) k h prev s = elim (Bool-cases (takes a)) [
  | inl e ↦ match-Takes a (match b k) e prev s
  | inr e ↦ match-Takes_after a (match b k) (match-Takes b k (ground arith)) prev s
]
match-Takes (alt a b) k h prev s =
    Takes-or _ _ (match-Takes a k (ground arith) prev s) (match-Takes b k (ground arith) prev s)
match-Takes (star r) k h prev s = absurd (cc)
