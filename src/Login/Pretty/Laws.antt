-- ===== src/Login/Pretty/Laws.antt =====
-- What is read on the page of the text that `pretty` gives: a reader drops tags and decodes entities.
use mathlib.Core.List.{flat_map, append_assoc}
use chat_bot_hub.Prelude.{
  ℕ, zero, suc, Bool, true, false, ◌&&◌, not, Option, none, some, List, [], ◌∷◌, ◌++◌, ◌≡◌, refl,
  sym, ap, ◌∙◌, length, ◌==◌, if◌then◌else◌, arith, and_parts, and_both,
}
use chat_bot_hub.Js.{Value, codes}
use chat_bot_hub.Query.Uri.Laws.{lacks, lacks-append}
use chat_bot_hub.Login.Pattern.{takes}
use chat_bot_hub.Login.Pretty.{
  replace_char, escape, token_pattern, Piece, plain, token, Class, number, key, string, boolean,
  null, class_of, span, render, Outcome, shown, type_error, pretty_text, pretty_of, json_of, pretty,
}
use chat_bot_hub.Login.Pretty.Pieces.{text, replace_all-ends}

-- What one character becomes.
unfoldable pub hide : ℕ → List ℕ
hide c =
    if c == b'&'
    then codes "&amp;"
    else if c == b'<'
    then codes "&lt;"
    else if c == b'>'
    then codes "&gt;"
    else c ∷ []

replace_char-append :
    (d : ℕ) (t s u : List ℕ) → replace_char d t (s ++ u) ≡ replace_char d t s ++ replace_char d t u
unfolding replace_char
replace_char-append d t [] u = refl
replace_char-append d t (c ∷ s) u =
    rw (replace_char-append d t s u)
      (sym (append_assoc (if c == d then t else c ∷ []) (replace_char d t s) (replace_char d t u)))

escape-one : (c : ℕ) → escape (c ∷ []) ≡ hide c
unfolding escape replace_char hide
escape-one c = ground arith

escape-append : (s u : List ℕ) → escape (s ++ u) ≡ escape s ++ escape u
unfolding escape
escape-append s u = simp replace_char-append

escape-flat_map : (s : List ℕ) → escape s ≡ flat_map hide s
unfolding flat_map
escape-flat_map [] = unfold escape in unfold replace_char in refl
escape-flat_map (c ∷ s) = escape-append (c ∷ []) s ∙ (λ i. escape-one c i ++ escape-flat_map s i)

lacks-hide : (c : ℕ) → lacks b'<' (hide c) ≡ true
unfolding hide lacks
lacks-hide c = ground arith

lacks-hidden : (s : List ℕ) → lacks b'<' (flat_map hide s) ≡ true
unfolding flat_map
lacks-hidden [] = unfold lacks in refl
lacks-hidden (c ∷ s) =
    lacks-append b'<' (hide c) (flat_map hide s) ∙ and_both (lacks-hide c, lacks-hidden s)

abbrev starts_with : List ℕ → List ℕ → Bool
starts_with [] s = true
starts_with (d ∷ t) [] = false
starts_with (d ∷ t) (c ∷ s) = c == d && starts_with t s

-- A reader of entities, with the number of characters that belong to the one that was read last.
unfoldable pub decode : ℕ → List ℕ → List ℕ
decode n [] = []
decode (suc n) (c ∷ s) = decode n s
decode zero (c ∷ s) =
    let amp = b'&' ∷ decode 4 s in
    let lt = b'<' ∷ decode 3 s in
    let gt = b'>' ∷ decode 3 s in
    let copy = c ∷ decode 0 s in
    if starts_with (codes "&amp;") (c ∷ s)
    then amp
    else if starts_with (codes "&lt;") (c ∷ s)
    then lt
    else if starts_with (codes "&gt;") (c ∷ s)
    then gt
    else copy

decode-hide : (c : ℕ) (rest : List ℕ) → decode 0 (hide c ++ rest) ≡ c ∷ decode 0 rest
unfolding decode hide
decode-hide c rest = ground arith

decode-hidden : (s : List ℕ) → decode 0 (flat_map hide s) ≡ s
unfolding flat_map
decode-hidden [] = unfold decode in refl
decode-hidden (c ∷ s) = decode-hide c (flat_map hide s) ∙ ap (c ∷◌) (decode-hidden s)

-- A reader that drops the tags, with whether it stands in one.
unfoldable pub strip : Bool → List ℕ → List ℕ
strip inside [] = []
strip true (c ∷ s) = strip (not (c == b'>')) s
strip false (c ∷ s) =
    let tag = strip true s in let copy = c ∷ strip false s in if c == b'<' then tag else copy

strip-lacks :
    (m rest : List ℕ) → lacks b'<' m ≡ true → strip false (m ++ rest) ≡ m ++ strip false rest
unfolding strip lacks
strip-lacks [] rest h = refl
strip-lacks (c ∷ m) rest h =
    let parts : (not (c == b'<') ≡ true) × (lacks b'<' m ≡ true) = and_parts h in
    ground (arith, parts.0, strip-lacks m rest parts.1)

strip-closed :
    (m rest : List ℕ)
    → lacks b'<' m ≡ true
    → strip false ((m ++ codes "</span>") ++ rest) ≡ m ++ strip false rest
unfolding strip
strip-closed m rest h =
    ap (strip false) (append_assoc m (codes "</span>") rest)
    ∙ strip-lacks m (codes "</span>" ++ rest) h

strip-span :
    (c : Class) (m rest : List ℕ)
    → lacks b'<' m ≡ true
    → strip false (span c m ++ rest) ≡ m ++ strip false rest
unfolding span strip
strip-span number m rest h = strip-closed m rest h
strip-span key m rest h = strip-closed m rest h
strip-span string m rest h = strip-closed m rest h
strip-span boolean m rest h = strip-closed m rest h
strip-span null m rest h = strip-closed m rest h

strip-render :
    (p : Piece) (rest : List ℕ)
    → lacks b'<' (text p) ≡ true
    → strip false (render p ++ rest) ≡ text p ++ strip false rest
unfolding render text
strip-render (plain c) rest h = strip-lacks (c ∷ []) rest h
strip-render (token m) rest h = strip-span (class_of m) m rest h

strip-rendered :
    (ps : List Piece)
    → lacks b'<' (flat_map text ps) ≡ true
    → strip false (flat_map render ps) ≡ flat_map text ps
unfolding flat_map
strip-rendered [] h = unfold strip in refl
strip-rendered (p ∷ ps) h =
    let parts : (lacks b'<' (text p) ≡ true) × (lacks b'<' (flat_map text ps) ≡ true) =
      and_parts (sym (lacks-append b'<' (text p) (flat_map text ps)) ∙ h) in
    strip-render p (flat_map render ps) parts.0 ∙ ap (text p ++◌) (strip-rendered ps parts.1)

-- What a reader of the page sees of an outcome.
abbrev pub Reads : Option (List ℕ) → Outcome → Type 0
Reads none o = o ≡ type_error
Reads (some json) o = (t : List ℕ) × (o ≡ shown t) × (decode 0 (strip false t) ≡ json)

token_pattern-takes : takes token_pattern ≡ true
unfolding takes token_pattern
token_pattern-takes = refl

pretty_text-read : (json : List ℕ) → Reads (some json) (pretty_text json)
unfolding pretty_text
pretty_text-read json =
    let (ps, e, f) =
      replace_all-ends token_pattern (suc (length (escape json))) none (escape json)
        token_pattern-takes (omega arith) in
    let g : flat_map text ps ≡ flat_map hide json = f ∙ escape-flat_map json in
    (
      flat_map render ps,
      rw e refl,
      ap (decode 0) (strip-rendered ps (ap (lacks b'<') g ∙ lacks-hidden json) ∙ g)
          ∙ decode-hidden json,
    )

pretty_of-read : (json : Option (List ℕ)) → Reads json (pretty_of json)
unfolding pretty_of
pretty_of-read none = refl
pretty_of-read (some json) = pretty_text-read json

-- `pretty` throws exactly where a value has no text in JSON, and otherwise ends; a reader that drops
-- the tags of its result and decodes the entities then finds the text in JSON.
pub pretty-read :
    (stringify : Value → Option (List ℕ)) (v : Value)
    → Reads (json_of stringify v) (pretty stringify v)
unfolding pretty
pretty-read stringify v = pretty_of-read (json_of stringify v)
