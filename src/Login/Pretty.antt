-- ===== src/Login/Pretty.antt =====
-- `pretty`: the text of a value in JSON, with its `&`, `<` and `>` escaped and with a span around each
-- key, text, number and word. Texts are lists of code points.
pub mod Pieces
pub mod Laws
use mathlib.Core.List.{flat_map}
use chat_bot_hub.Prelude.{
  ℕ, zero, suc, String, Bool, true, false, ◌&&◌, ◌||◌, not, Option, none, some, List, [], ◌∷◌, ◌++◌,
  length, ◌==◌, if◌then◌else◌,
}
use chat_bot_hub.Js.{Value, str, codes, is_digit}
use chat_bot_hub.Forms.{between}
use chat_bot_hub.Login.Pattern.{
  Pattern, eps, edge, cls, seq, alt, star, opt, plus, times, match_at, found,
}

-- `s.replace(/d/g, text)` for a character.
unfoldable pub replace_char : ℕ → List ℕ → List ℕ → List ℕ
replace_char d text [] = []
replace_char d text (c ∷ s) = (if c == d then text else c ∷ []) ++ replace_char d text s

unfoldable pub escape : List ℕ → List ℕ
escape s =
    replace_char b'>' (codes "&gt;")
      (replace_char b'<' (codes "&lt;") (replace_char b'&' (codes "&amp;") s))

abbrev pub char : ℕ → Pattern
char d = cls (λ c. c == d)

abbrev pub word : List ℕ → Pattern
word [] = eps
word (c ∷ s) = seq (char c) (word s)

-- `[a-zA-Z0-9]`.
abbrev is_alnum : ℕ → Bool
is_alnum c = between b'a' b'z' c || between b'A' b'Z' c || is_digit c

-- `\s`.
abbrev is_space : ℕ → Bool
is_space c =
    c == 32
    || between 9 13 c
    || c == 160
    || c == 5760
    || between 8192 8202 c
    || c == 8232
    || c == 8233
    || c == 8239
    || c == 8287
    || c == 12288
    || c == 65279

-- `\\u[a-zA-Z0-9]{4}|\\[^u]|[^\\"]`.
abbrev inner : Pattern
inner =
    alt (seq (char b'\\') (seq (char b'u') (times 4 (cls is_alnum))))
      (alt (seq (char b'\\') (cls (λ c. not (c == b'u')))) (cls (λ c. not (c == b'\\' || c == 34))))

abbrev string_pattern : Pattern
string_pattern =
    seq (char 34) (seq (star inner) (seq (char 34) (opt (seq (star (cls is_space)) (char b':')))))

abbrev word_pattern : Pattern
word_pattern =
    seq edge
      (seq (alt (word (codes "true")) (alt (word (codes "false")) (word (codes "null")))) edge)

-- `-?\d+(?:\.\d*)?(?:[eE][+\-]?\d+)?`.
abbrev number_pattern : Pattern
number_pattern = seq (opt (char b'-')) (
    seq (plus (cls is_digit)) (
      seq (opt (seq (char b'.') (star (cls is_digit)))) (
        opt (
          seq (cls (λ c. c == b'e' || c == b'E'))
            (seq (opt (cls (λ c. c == b'+' || c == b'-'))) (plus (cls is_digit)))))))

unfoldable pub token_pattern : Pattern
token_pattern = alt string_pattern (alt word_pattern number_pattern)

-- The parts of a text that is gone through for matches.
pub data Piece : Type 0 where
  plain : ℕ → Piece
  token : List ℕ → Piece

abbrev pub last_of : Option ℕ → List ℕ → Option ℕ
last_of prev [] = prev
last_of prev (c ∷ s) = last_of (some c) s

abbrev pub join : Piece → Option (List Piece) → Option (List Piece)
join p none = none
join p (some ps) = some (p ∷ ps)

-- The loop of `replace` with a global expression, each of whose matches takes a character; in so many
-- rounds, and none when these run out. It goes on behind a match.
unfoldable pub replace_all : Pattern → ℕ → Option ℕ → List ℕ → Option (List Piece)
replace_all r zero prev s = none
replace_all r (suc n) prev [] = some []
replace_all r (suc n) prev (c ∷ s) = elim (match_at r prev (c ∷ s)) [
  | none ↦ join (plain c) (replace_all r n (some c) s)
  | some (m, rest) ↦ join (token m) (replace_all r n (last_of prev m) rest)
]

pub data Class : Type 0 where
  number key string boolean null : Class

abbrev pub class_name : Class → List ℕ
class_name number = codes "number"
class_name key = codes "key"
class_name string = codes "string"
class_name boolean = codes "boolean"
class_name null = codes "null"

-- `/^"/.test(match)`.
abbrev is_quoted : List ℕ → Bool
is_quoted [] = false
is_quoted (c ∷ s) = c == 34

-- `/:$/.test(match)`.
abbrev ends_in_colon : Option ℕ → Bool
ends_in_colon none = false
ends_in_colon (some c) = c == b':'

unfoldable pub class_of : List ℕ → Class
class_of m =
    if is_quoted m
    then (if ends_in_colon (last_of none m) then key else string)
    else if found (alt (word (codes "true")) (word (codes "false"))) none m
    then boolean
    else if found (word (codes "null")) none m
    then null
    else number

unfoldable pub span : Class → List ℕ → List ℕ
span c m = codes "<span class=\"" ++ (class_name c ++ (codes "\">" ++ (m ++ codes "</span>")))

unfoldable pub render : Piece → List ℕ
render (plain c) = c ∷ []
render (token m) = span (class_of m) m

-- What `pretty` does.
pub data Outcome : Type 0 where
  shown : List ℕ → Outcome
  type_error : Outcome
  endless : Outcome

abbrev pub shown_pieces : Option (List Piece) → Outcome
shown_pieces none = endless
shown_pieces (some ps) = shown (flat_map render ps)

unfoldable pub pretty_text : List ℕ → Outcome
pretty_text json =
    shown_pieces (replace_all token_pattern (suc (length (escape json))) none (escape json))

-- The text of what is no text, by `JSON.stringify(json, undefined, 2)`, which is given.
unfoldable pub json_of : (Value → Option (List ℕ)) → Value → Option (List ℕ)
json_of stringify (str s) = some (codes s)
json_of stringify v = stringify v

-- Where there is no text, the call of `replace` throws.
unfoldable pub pretty_of : Option (List ℕ) → Outcome
pretty_of none = type_error
pretty_of (some json) = pretty_text json

unfoldable pub pretty : (Value → Option (List ℕ)) → Value → Outcome
pretty stringify v = pretty_of (json_of stringify v)
