-- ===== src/Login/Pattern.antt =====
-- Regular expressions as `String.replace` uses them: a matcher that prefers as the language does, and
-- gives the text of the match with the text behind it. What stands before the place is known by its
-- last character, for `\b`.
pub mod Laws
use chat_bot_hub.Prelude.{
  ℕ, zero, suc, Bool, true, false, ◌&&◌, ◌||◌, not, Option, none, some, List, [], ◌∷◌, length,
  if◌then◌else◌,
}
use chat_bot_hub.Forms.{is_word}

-- `star` is greedy, and what stands under it takes at least one character; `edge` is `\b`.
pub data Pattern : Type 0 where
  eps edge : Pattern
  cls : (ℕ → Bool) → Pattern
  seq alt : Pattern → Pattern → Pattern
  star : Pattern → Pattern

-- The text of a match and the rest.
abbrev pub Found : Type 0
Found = Option (List ℕ × List ℕ)

-- What follows at a place, given by the character before it and the text behind it.
abbrev pub Next : Type 0
Next = Option ℕ → List ℕ → Found

unfoldable pub push : ℕ → Found → Found
push c none = none
push c (some (m, rest)) = some (c ∷ m, rest)

unfoldable pub or_else : Found → Found → Found
or_else none other = other
or_else (some f) other = some f

abbrev pub ends_word : Option ℕ → Bool
ends_word none = false
ends_word (some c) = is_word c

abbrev pub starts_word : List ℕ → Bool
starts_word [] = false
starts_word (c ∷ s) = is_word c

abbrev pub is_edge : Option ℕ → List ℕ → Bool
is_edge prev s = if ends_word prev then not (starts_word s) else starts_word s

unfoldable pub take_cls : (ℕ → Bool) → Next → Next
take_cls f k prev [] = none
take_cls f k prev (c ∷ s) = if f c then push c (k (some c) s) else none

-- At most so many rounds of `m`, the more the better.
unfoldable pub iterate : ℕ → (Next → Next) → Next → Next
iterate zero m k prev s = k prev s
iterate (suc n) m k prev s = or_else (m (iterate n m k) prev s) (k prev s)

unfoldable pub match : Pattern → Next → Next
match eps k prev s = k prev s
match edge k prev s = if is_edge prev s then k prev s else none
match (cls f) k prev s = take_cls f k prev s
match (seq a b) k prev s = match a (match b k) prev s
match (alt a b) k prev s = or_else (match a k prev s) (match b k prev s)
match (star r) k prev s = iterate (length s) (match r) k prev s

abbrev pub done : Next
done prev s = some ([], s)

-- A match at this place.
unfoldable pub match_at : Pattern → Next
match_at r = match r done

-- A match at some place.
unfoldable pub found : Pattern → Option ℕ → List ℕ → Bool
found r prev [] = elim (match_at r prev []) [ none ↦ false | some f ↦ true ]
found r prev (c ∷ s) =
    let later = found r (some c) s in
    elim (match_at r prev (c ∷ s)) [ none ↦ later | some f ↦ true ]

abbrev pub opt : Pattern → Pattern
opt r = alt r eps

abbrev pub plus : Pattern → Pattern
plus r = seq r (star r)

unfoldable pub times : ℕ → Pattern → Pattern
times zero r = eps
times (suc n) r = seq r (times n r)

-- Every match takes a character.
unfoldable pub takes : Pattern → Bool
takes eps = false
takes edge = false
takes (cls f) = true
takes (seq a b) = takes a || takes b
takes (alt a b) = takes a && takes b
takes (star r) = false
