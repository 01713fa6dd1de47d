-- ===== src/Login/Pretty/Pieces.antt =====
-- The loop over the matches of a pattern: it ends, and its parts are the text.
use mathlib.Core.Path.{subst}
use mathlib.Core.List.{flat_map}
use chat_bot_hub.Prelude.{
  ℕ, zero, suc, ◌<◌, true, Option, some, List, [], ◌∷◌, ◌++◌, ◌≡◌, refl, ap, length, length-append,
  arith, Option-cases, inl, inr,
}
use chat_bot_hub.Login.Pattern.{Pattern, match_at, takes, done}
use chat_bot_hub.Login.Pattern.Laws.{Splits, Takes, match-Splits, match-Takes}
use chat_bot_hub.Login.Pretty.{Piece, plain, token, last_of, join, replace_all}

-- The text of a part.
unfoldable pub text : Piece → List ℕ
text (plain c) = c ∷ []
text (token m) = m

match_at-Splits : (r : Pattern) (prev : Option ℕ) (s : List ℕ) → Splits s (match_at r prev s)
unfolding match_at
match_at-Splits r prev s = match-Splits r done (λ _ _. refl) prev s

match_at-Takes :
    (r : Pattern) → takes r ≡ true → (prev : Option ℕ) (s : List ℕ) → Takes (match_at r prev s)
unfolding match_at
match_at-Takes r h prev s = match-Takes r done h prev s

-- A match leaves less than the text.
rest-lt :
    (s m rest : List ℕ)
    → Splits s (some (m, rest))
    → Takes (some (m, rest))
    → length rest < length s
rest-lt s [] rest e h = absurd h
rest-lt s (c ∷ m) rest e h = rw (← e) (omega (arith, length-append {0} m rest))

Ends : List ℕ → Option (List Piece) → Type 0
Ends s o = (ps : List Piece) × (o ≡ some ps) × (flat_map text ps ≡ s)

Ends-join :
    (p : Piece) (s : List ℕ) (o : Option (List Piece)) → Ends s o → Ends (text p ++ s) (join p o)
unfolding Ends flat_map
Ends-join p s o (ps, e, f) = (p ∷ ps, rw e refl, ap (text p ++◌) f)

-- Where each match of a pattern takes a character, the loop over the matches in a text ends within
-- more rounds than the text has characters, and its parts in order are the text.
pub replace_all-ends :
    (r : Pattern) (n : ℕ) (prev : Option ℕ) (s : List ℕ)
    → takes r ≡ true
    → length s < n
    → (ps : List Piece) × (replace_all r n prev s ≡ some ps) × (flat_map text ps ≡ s)
unfolding replace_all Ends flat_map text
replace_all-ends r zero prev s h lt = absurd (omega arith)
replace_all-ends r (suc n) prev [] h lt = ([], refl, refl)
replace_all-ends r (suc n) prev (c ∷ s) h lt = elim (Option-cases (match_at r prev (c ∷ s))) [
  | inl e ↦
      let rest = replace_all r n (some c) s in
      rw (replace_all, e)
        (Ends-join (plain c) s rest (replace_all-ends r n (some c) s h (omega arith)))
  | inr ((m, rest), e) ↦
      let parts : m ++ rest ≡ c ∷ s = rw e at (match_at-Splits r prev (c ∷ s)) in
      let taken : Takes (some (m, rest)) = rw e at (match_at-Takes r h prev (c ∷ s)) in
      let fewer : length rest < n = omega (arith, rest-lt (c ∷ s) m rest parts taken) in
      let more = replace_all r n (last_of prev m) rest in
      let ends : Ends rest more = replace_all-ends r n (last_of prev m) rest h fewer in
      rw (replace_all, e)
        (subst (λ t. Ends t (join (token m) more)) parts (Ends-join (token m) rest more ends))
]
