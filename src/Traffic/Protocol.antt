-- ===== src/Traffic/Protocol.antt =====
-- The urls of the services hold "http".
use Prim.Native.String.{find}
use Prim.Native.String.append
use Prim.Native.String.find
use text.Mathlib.TextLemmas.{append_assoc}
use chat_bot_hub.Prelude.{String, ◌<>◌, true, ◌≡◌, ap, ◌∙◌, arith}
use chat_bot_hub.Service.{Location, build_url}
use chat_bot_hub.Http.{has_http}

-- A text that begins with "http", letter by letter.
abbrev spelled : String → String
spelled x = String.◌∷◌ "h" (String.◌∷◌ "t" (String.◌∷◌ "t" (String.◌∷◌ "p" x)))

append-spelled : (x : String) → "http" <> x ≡ spelled x
append-spelled x =
    append.cons "h" "ttp" x
    ∙ ap (String.◌∷◌ "h") (
        append.cons "t" "tp" x
        ∙ ap (String.◌∷◌ "t") (
            append.cons "t" "p" x
            ∙ ap (String.◌∷◌ "t") (append.cons "p" "" x ∙ ap (String.◌∷◌ "p") (append.nil x))))

find-spelled : (x : String) → find (spelled x) "http" ≡ 0
find-spelled x = find.cons "h" (String.◌∷◌ "t" (String.◌∷◌ "t" (String.◌∷◌ "p" x))) "http"

has_http-append : (x : String) → has_http ("http" <> x) ≡ true
unfolding has_http
has_http-append x = rw (append-spelled x) (rw (has_http, find-spelled x) (ground arith))

-- The page was loaded by http or https.
unfoldable pub IsHttp : Location → Type 0
IsHttp loc = (rest : String) × (loc.protocol ≡ "http" <> rest)

pub has_http-build_url :
    (loc : Location) (key : String) → IsHttp loc → has_http (build_url loc key) ≡ true
unfolding build_url IsHttp
has_http-build_url loc key h =
    ap has_http (
      ap (λ (p : String). (p <> "//" <> loc.host) <> loc.pathname <> key) h.1
      ∙ ap (λ (s : String). s <> loc.pathname <> key) (append_assoc "http" h.0 ("//" <> loc.host))
      ∙ append_assoc "http" (h.0 <> "//" <> loc.host) (loc.pathname <> key))
    ∙ has_http-append ((h.0 <> "//" <> loc.host) <> loc.pathname <> key)
