-- ===== src/Query/Uri/Laws.antt =====
-- Decoding undoes encoding, and an encoded text has no separators.

use mathlib.Core.List.{flat_map, append_assoc}
use chat_bot_hub.Prelude.{
  ℕ, ◌<◌, Bool, true, false, ◌&&◌, ◌||◌, not, List, [], ◌∷◌, ◌++◌, ltb, ◌==◌, ◌≡◌, refl, ap, ◌∙◌,
  arith, Bool-cases, inl, inr, ltb→lt, and_parts, and_both,
}
use chat_bot_hub.Query.Uri.{
  is_plain, hex, percent, utf8, encode_char, encode, unhex, unescape, utf8_points, decode,
}

-- The characters are Unicode's.
unfoldable pub is_text : List ℕ → Bool
is_text [] = true
is_text (c ∷ s) = ltb c 1114112 && is_text s

unescape-percent : (b : ℕ) (s : List ℕ) → b < 256 → unescape (percent b ++ s) ≡ b ∷ unescape s
unfolding unescape percent unhex hex
unescape-percent b s h = ground (arith, h)

unescape-plain : (c : ℕ) (s : List ℕ) → (c == b'%') ≡ false → unescape (c ∷ s) ≡ c ∷ unescape s
unfolding unescape
unescape-plain c [] h = refl
unescape-plain c (d ∷ []) h = refl
unescape-plain c (d ∷ e ∷ s) h = rw h refl

-- The points of the bytes of a character.
points-utf8 :
    (c : ℕ) (s : List ℕ) → c < 1114112 → utf8_points 0 0 (utf8 c ++ s) ≡ c ∷ utf8_points 0 0 s
unfolding utf8 utf8_points
points-utf8 c s h = ground (arith, h)

-- Every number of the list is a byte.
unfoldable pub are_bytes : List ℕ → Bool
are_bytes [] = true
are_bytes (b ∷ s) = ltb b 256 && are_bytes s

utf8-are_bytes : (c : ℕ) → c < 1114112 → are_bytes (utf8 c) ≡ true
unfolding utf8 are_bytes
utf8-are_bytes c h = ground (arith, h)

unescape-flat_map :
    (bs s : List ℕ) → are_bytes bs ≡ true → unescape (flat_map percent bs ++ s) ≡ bs ++ unescape s
unfolding are_bytes flat_map
unescape-flat_map [] s h = refl
unescape-flat_map (b ∷ bs) s h =
    let parts : (ltb b 256 ≡ true) × (are_bytes bs ≡ true) = and_parts h in
    rw append_assoc (
      unescape-percent b (flat_map percent bs ++ s) (ltb→lt b 256 parts.0)
      ∙ ap (b ∷◌) (unescape-flat_map bs s parts.1))

plain-not_percent : (c : ℕ) → is_plain c ≡ true → (c == b'%') ≡ false
unfolding is_plain
plain-not_percent c h = ground (arith, h)

plain-ascii :
    (c : ℕ) (s : List ℕ) → is_plain c ≡ true → utf8_points 0 0 (c ∷ s) ≡ c ∷ utf8_points 0 0 s
unfolding is_plain utf8_points
plain-ascii c s h = ground (arith, h)

decode-encode_char : (c : ℕ) (s : List ℕ) → c < 1114112 → decode (encode_char c ++ s) ≡ c ∷ decode s
unfolding decode encode_char
decode-encode_char c s h = elim (Bool-cases (is_plain c)) [
  | inl plain ↦
      rw (encode_char, plain)
        (rw (unescape-plain c s (plain-not_percent c plain)) (plain-ascii c (unescape s) plain))
  | inr escaped ↦
      rw (encode_char, escaped)
        (rw (unescape-flat_map (utf8 c) s (utf8-are_bytes c h)) (points-utf8 c (unescape s) h))
]

-- Decoding undoes encoding.
pub decode-encode : (s : List ℕ) → is_text s ≡ true → decode (encode s) ≡ s
unfolding encode is_text
decode-encode [] h = unfold decode unescape utf8_points in refl
decode-encode (c ∷ s) h =
    let parts : (ltb c 1114112 ≡ true) × (is_text s ≡ true) = and_parts h in
    decode-encode_char c (encode s) (ltb→lt c 1114112 parts.0) ∙ ap (c ∷◌) (decode-encode s parts.1)

-- The character does not stand in the list.
unfoldable pub lacks : ℕ → List ℕ → Bool
lacks d [] = true
lacks d (c ∷ s) = not (c == d) && lacks d s

pub lacks-append : (d : ℕ) (s t : List ℕ) → lacks d (s ++ t) ≡ (lacks d s && lacks d t)
unfolding lacks
lacks-append d [] t = refl
lacks-append d (c ∷ s) t = ground (arith, lacks-append d s t)

-- `&` or `=`.
abbrev pub is_separator : ℕ → Bool
is_separator d = d == b'&' || d == b'='

lacks-percent : (d b : ℕ) → is_separator d ≡ true → b < 256 → lacks d (percent b) ≡ true
unfolding lacks percent hex
lacks-percent d b e h = ground (arith, e, h)

lacks-flat_map :
    (d : ℕ) (bs : List ℕ)
    → is_separator d ≡ true
    → are_bytes bs ≡ true
    → lacks d (flat_map percent bs) ≡ true
unfolding flat_map lacks are_bytes
lacks-flat_map d [] e h = refl
lacks-flat_map d (b ∷ bs) e h =
    let parts : (ltb b 256 ≡ true) × (are_bytes bs ≡ true) = and_parts h in
    lacks-append d (percent b) (flat_map percent bs)
    ∙ and_both (lacks-percent d b e (ltb→lt b 256 parts.0), lacks-flat_map d bs e parts.1)

lacks-encode_char : (d c : ℕ) → is_separator d ≡ true → c < 1114112 → lacks d (encode_char c) ≡ true
unfolding encode_char lacks is_plain
lacks-encode_char d c e h = elim (Bool-cases (is_plain c)) [
  | inl plain ↦ rw (encode_char, plain) (ground (arith, e, plain))
  | inr escaped ↦ rw (encode_char, escaped) (lacks-flat_map d (utf8 c) e (utf8-are_bytes c h))
]

-- An encoded text has neither `&` nor `=`.
pub lacks-encode :
    (d : ℕ) (s : List ℕ) → is_separator d ≡ true → is_text s ≡ true → lacks d (encode s) ≡ true
unfolding encode is_text lacks
lacks-encode d [] e h = refl
lacks-encode d (c ∷ s) e h =
    let parts : (ltb c 1114112 ≡ true) × (is_text s ≡ true) = and_parts h in
    lacks-append d (encode_char c) (encode s)
    ∙ and_both (lacks-encode_char d c e (ltb→lt c 1114112 parts.0), lacks-encode d s e parts.1)
