-- ===== src/Table/Broadcast/Tests.antt =====
-- A table that is given a text, a list and a value that is there too late.
use chat_bot_hub.Prelude.{
  ap, eq_iff, arith, assign, String, str_eq, Bool, true, false, some, [], ◌∷◌, Object, get,
  if◌then◌else◌, ◌≡◌, refl,
}
use chat_bot_hub.Js.{Value, undefined, null, num, str, bool, obj, arr, no_items}
use chat_bot_hub.Table.Broadcast.{
  Identity, link, run, digest, fire_all, fire, seen, note, fresh, copies, watched, is_simple,
}
use chat_bot_hub.Table.Broadcast.Laws.{lists, last_of, last_parent, run-known}

same_text : Value → Value → Bool
same_text (str s) (str t) = str_eq s t
same_text _ _ = false

same_text-≡ : (v w : Value) → same_text v w ≡ true → v ≡ w
unfolding same_text
same_text-≡ (str s) (str t) h = ap str ((eq_iff s t).0 h)
same_text-≡ undefined w h = ground (arith, h)
same_text-≡ null w h = ground (arith, h)
same_text-≡ (num n) w h = ground (arith, h)
same_text-≡ (str s) undefined h = ground (arith, h)
same_text-≡ (str s) null h = ground (arith, h)
same_text-≡ (str s) (num n) h = ground (arith, h)
same_text-≡ (str s) (bool b) h = ground (arith, h)
same_text-≡ (str s) (obj fs) h = ground (arith, h)
same_text-≡ (str s) (arr is) h = ground (arith, h)
same_text-≡ (bool b) w h = ground (arith, h)
same_text-≡ (obj fs) w h = ground (arith, h)
same_text-≡ (arr is) w h = ground (arith, h)

abbrev identity : Identity
identity = record { same = same_text; same-≡ = same_text-≡ }

abbrev broadcast : Object Value
broadcast = ("type", str "a") ∷ ("clients", arr no_items) ∷ ("login", undefined) ∷ []

abbrev around : Value → Value → String → Value
around type login name =
    if str_eq name "type" then type else if str_eq name "login" then login else arr no_items

-- The login was not there when the table was linked: its table never learns of it.
late_login :
    get
      (run identity
        (around (str "b") (str "x") ∷ [])
        (link (around (str "a") undefined) broadcast [])).scope
      "login"
    ≡ some undefined
unfolding run digest fire_all fire seen note link fresh copies watched is_simple get assign
    same_text
late_login = refl

run-known_example :
    get
      (run identity
        (around (str "a") undefined ∷ around (str "b") (str "x") ∷ [])
        (link (around (str "a") undefined) broadcast [])).scope
      "type"
    ≡ (if lists (watched (around (str "a") undefined) broadcast) "type"
        then some
            (last_parent (around (str "a") undefined) (around (str "b") (str "x") ∷ []) "type")
        else last_of broadcast "type" (get [] "type"))
run-known_example =
    run-known identity (around (str "a") undefined) (around (str "a") undefined)
      (around (str "b") (str "x") ∷ []) broadcast [] "type"
