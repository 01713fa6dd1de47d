-- ===== src/Traffic/Body.antt =====
-- What the server reads in the body of a save: the dialogs' data through `param`.
use Prim.Native.Char.{code}
use text.Mathlib.TextEquality.{Char-path}
use chat_bot_hub.Prelude.{
  ℕ, String, str_eq, eq_iff, Bool, true, false, not, ◌&&◌, ◌||◌, Option, none, some, List, [], ◌∷◌,
  ◌==◌, Object, get, assign, ◌≡◌, refl, ap, sym, ◌∙◌, arith, inl, inr, Bool-cases, and_parts,
  if◌then◌else◌,
}
use chat_bot_hub.Js.{codes}
use chat_bot_hub.Dialogs.Submit.{
  Data, value, params_of, pick, Opened, opened, resolved, typed, save,
}
use chat_bot_hub.Dialogs.{lists}
use chat_bot_hub.Dialogs.Submit.Laws.{
  Editor, bot, filter, suite, editing, edited, last_typed, value-typed-editing,
}
use chat_bot_hub.Traffic.{transform_request}
use chat_bot_hub.Query.{param}
use chat_bot_hub.Query.Scan.{Leaf, parse}
use chat_bot_hub.Query.RoundTrip.{leaves, leaves_of, parse-param}

-- Two texts are the same.
unfoldable pub same : List ℕ → List ℕ → Bool
same [] [] = true
same [] (d ∷ t) = false
same (c ∷ s) [] = false
same (c ∷ s) (d ∷ t) = c == d && same s t

-- The value of a name in what was read.
unfoldable pub lookup : List ℕ → List Leaf → Option (List ℕ)
lookup name [] = none
lookup name ((n, v) ∷ ls) = if same n name then some v else lookup name ls

same_refl : (s : List ℕ) → same s s ≡ true
unfolding same
same_refl [] = refl
same_refl (c ∷ s) = ground (arith, same_refl s)

codes_injective : (a b : String) → same (codes a) (codes b) ≡ true → a ≡ b
unfolding same
codes_injective String.[] String.[] h = refl
codes_injective String.[] (String.◌∷◌ d b) h = cc
codes_injective (String.◌∷◌ c a) String.[] h = cc
codes_injective (String.◌∷◌ c a) (String.◌∷◌ d b) h =
    let parts : ((code c == code d) ≡ true) × (same (codes a) (codes b) ≡ true) = and_parts h in
    let e : c ≡ d = Char-path c d (ground (arith, parts.0)) in
    let f : a ≡ b = codes_injective a b parts.1 in λ i. String.◌∷◌ (e i) (f i)

same-codes : (a b : String) → same (codes a) (codes b) ≡ str_eq a b
same-codes a b = elim (Bool-cases (same (codes a) (codes b))) [
  | inl h ↦ h ∙ sym ((eq_iff a b).1 (codes_injective a b h))
  | inr k ↦ elim (Bool-cases (str_eq a b)) [
    | inr differ ↦ k ∙ sym differ
    | inl equal ↦
        let e : same (codes a) (codes b) ≡ true =
          ap (λ (t : String). same (codes a) (codes t)) (sym ((eq_iff a b).0 equal))
          ∙ same_refl (codes a) in
        e ∙ sym equal
  ]
]

-- The names of the object are distinct.
unfoldable pub has_name : String → Data → Bool
has_name name [] = false
has_name name ((key, v) ∷ o) = str_eq key name || has_name name o

unfoldable pub is_unique : Data → Bool
is_unique [] = true
is_unique ((key, v) ∷ o) = not (has_name key o) && is_unique o

value-lacks : (o : Data) (name : String) → has_name name o ≡ false → value o name ≡ none
unfolding has_name value get
value-lacks [] name h = refl
value-lacks ((key, v) ∷ o) name h = ground (arith, h, value-lacks o name)

has_name-assign :
    (o : Data) (name key : String) (v : Option String)
    → has_name key (assign o name v) ≡ (str_eq name key || has_name key o)
unfolding has_name assign
has_name-assign [] name key v = ground arith
has_name-assign ((k, old) ∷ o) name key v =
    ground (arith, has_name-assign o name key v, eq_iff k name, eq_iff name key, eq_iff k key)

is_unique-assign :
    (o : Data) (name : String) (v : Option String)
    → is_unique o ≡ true
    → is_unique (assign o name v) ≡ true
unfolding is_unique has_name assign
is_unique-assign [] name v h = refl
is_unique-assign ((k, old) ∷ o) name v h =
    ground (
      arith,
      h,
      is_unique-assign o name v,
      has_name-assign o name k v,
      eq_iff k name,
      eq_iff name k,
    )

-- The code points of a text that there is.
unfoldable pub as_codes : Option String → Option (List ℕ)
as_codes none = none
as_codes (some s) = some (codes s)

value-cons :
    (key : String) (v : Option String) (o : Data) (name : String)
    → value ((key, v) ∷ o) name ≡ (if str_eq key name then v else value o name)
unfolding value get
value-cons key v o name = ground arith

lookup-leaves :
    (o : Data) (name : String)
    → is_unique o ≡ true
    → lookup (codes name) (leaves (params_of o)) ≡ as_codes (value o name)
unfolding lookup leaves leaves_of params_of as_codes is_unique
lookup-leaves [] name h = unfold value get in refl
lookup-leaves ((key, none) ∷ o) name h =
    let parts : (not (has_name key o) ≡ true) × (is_unique o ≡ true) = and_parts h in
    ground (
      arith,
      parts.0,
      lookup-leaves o name parts.1,
      value-cons key none o name,
      value-lacks o name,
      eq_iff key name,
    )
lookup-leaves ((key, some s) ∷ o) name h =
    let parts : (not (has_name key o) ≡ true) × (is_unique o ≡ true) = and_parts h in
    ground
      (arith, lookup-leaves o name parts.1, value-cons key (some s) o name, same-codes key name)

is_unique-typed :
    (edits : Object String) (o : Opened)
    → is_unique o.data_ ≡ true
    → is_unique (typed edits o).data_ ≡ true
unfolding typed
is_unique-typed [] o h = h
is_unique-typed ((name, s) ∷ edits) o h =
    is_unique-typed edits (record o { data_ = assign o.data_ name (some s) })
      (is_unique-assign o.data_ name (some s) h)

is_unique-editing : (e : Editor) (row : Data) → is_unique (editing e row).data_ ≡ true
unfolding is_unique has_name opened resolved pick
is_unique-editing bot row = refl
is_unique-editing filter row = refl
is_unique-editing suite row = refl

-- What the server reads in the body of a save under a name: the text that was typed last, or else the
-- row's value if it is a property of the editor; a name without a value is not in the body.
pub lookup-saved :
    (e : Editor) (row : Data) (edits : Object String)
    → (body : List ℕ) × (transform_request (save (typed edits (editing e row))).1 ≡ some body)
      × ((name : String)
          → lookup (codes name) (parse body)
            ≡ as_codes
                (last_typed edits name (if lists (edited e) name then value row name else none)))
unfolding transform_request save
lookup-saved e row edits =
    let o : Data = (typed edits (editing e row)).data_ in
    (
      param (params_of o),
      refl,
      λ name.
          ap (lookup (codes name)) (parse-param (params_of o))
          ∙ lookup-leaves o name (is_unique-typed edits (editing e row) (is_unique-editing e row))
          ∙ ap as_codes (value-typed-editing e row edits name),
    )
