-- ===== src/Query/Uri.antt =====
-- The language's `encodeURIComponent`, on lists of code points, as `param` of
-- frontend/static/app/app.config.js uses it; and a decoder to compare it with.
pub mod Laws
use mathlib.Core.List.{flat_map}
use chat_bot_hub.Prelude.{
  ℕ, zero, suc, ◌+◌, ◌-◌, ◌*◌, ◌/◌, ◌%◌, Bool, ◌&&◌, ◌||◌, List, [], ◌∷◌, ◌++◌, if◌then◌else◌, ltb,
  leb, ◌==◌,
}
use chat_bot_hub.Forms.{is_word}

-- The characters that are left as they are.
unfoldable pub is_plain : ℕ → Bool
is_plain c =
    is_word c
    || c == b'-'
    || c == b'.'
    || c == b'!'
    || c == b'~'
    || c == b'*'
    || c == b'\''
    || c == b'('
    || c == b')'

unfoldable pub hex : ℕ → ℕ
hex d = if ltb d 10 then 48 + d else 55 + d

-- `%` and two hexadecimal digits.
unfoldable pub percent : ℕ → List ℕ
percent b = b'%' ∷ hex (b / 16) ∷ hex (b % 16) ∷ []

-- The bytes of UTF-8.
unfoldable pub utf8 : ℕ → List ℕ
utf8 c =
    if ltb c 128
    then c ∷ []
    else if ltb c 2048
    then (192 + c / 64) ∷ (128 + c % 64) ∷ []
    else if ltb c 65536
    then (224 + c / 4096) ∷ (128 + c / 64 % 64) ∷ (128 + c % 64) ∷ []
    else (240 + c / 262144) ∷ (128 + c / 4096 % 64) ∷ (128 + c / 64 % 64) ∷ (128 + c % 64) ∷ []

unfoldable pub encode_char : ℕ → List ℕ
encode_char c = if is_plain c then c ∷ [] else flat_map percent (utf8 c)

unfoldable pub encode : List ℕ → List ℕ
encode [] = []
encode (c ∷ s) = encode_char c ++ encode s

unfoldable pub unhex : ℕ → ℕ
unhex h = if ltb h 58 then h - 48 else h - 55

-- The bytes that a text of plain characters and escapes stands for.
unfoldable pub unescape : List ℕ → List ℕ
unescape [] = []
unescape (c ∷ []) = c ∷ []
unescape (c ∷ h ∷ []) = c ∷ h ∷ []
unescape (c ∷ h ∷ l ∷ s) =
    let behind = unescape s in
    let next = unescape (h ∷ l ∷ s) in
    if c == b'%' then (unhex h * 16 + unhex l) ∷ behind else c ∷ next

-- The code points of bytes, with the number of continuation bytes that are awaited and the bits
-- that were read.
unfoldable pub utf8_points : ℕ → ℕ → List ℕ → List ℕ
utf8_points k acc [] = []
utf8_points zero acc (b ∷ s) =
    let one = utf8_points 0 0 s in
    let two = utf8_points 1 (b - 192) s in
    let three = utf8_points 2 (b - 224) s in
    let four = utf8_points 3 (b - 240) s in
    if ltb b 128 then b ∷ one else if ltb b 224 then two else if ltb b 240 then three else four
utf8_points (suc zero) acc (b ∷ s) = (acc * 64 + (b - 128)) ∷ utf8_points 0 0 s
utf8_points (suc (suc k)) acc (b ∷ s) = utf8_points (suc k) (acc * 64 + (b - 128)) s

unfoldable pub decode : List ℕ → List ℕ
decode s = utf8_points 0 0 (unescape s)
