-- ===== src/Bots/SendAction/Laws.antt =====
-- What a form's request holds, input by input, and when there is none.
use mathlib.Core.Path.{subst}
use chat_bot_hub.Prelude.{
  String, str_eq, eq_iff, Bool, true, false, ◌||◌, ◌&&◌, ◌≡◌, refl, ◌∙◌, ap, inl, inr, Option, none,
  some, arith, if◌then◌else◌, Bool-cases, Option-cases, ◌↔◌,
}
use chat_bot_hub.Js.{
  Value, Fields, undefined, num, str, obj, truthy, get_field, set_field, prop, set_prop, int_of,
  get-set_field,
}
use chat_bot_hub.Bots.SendAction.{
  Json, Request, to_int, action_url, parse_members, body_text, send_action,
}

-- Whether `sendAction` turns the input into a number.
abbrev pub is_int_name : String → Bool
is_int_name name = str_eq name "type" || str_eq name "commentType"

-- The value that is sent of a filled input.
abbrev pub as_sent : Fields → Value → String → Value
as_sent fs members name =
    if truthy (get_field fs name) && str_eq name "memberList"
    then members
    else if truthy (get_field fs name) && is_int_name name
    then num (int_of (get_field fs name))
    else get_field fs name

to_int-get :
    (fs : Fields) (name : String)
    → (gs : Fields) × (to_int (obj fs) name ≡ obj gs)
      × ((key : String)
          → get_field gs key ≡ (
              if truthy (get_field fs name) && str_eq name key
              then num (int_of (get_field fs name))
              else get_field fs key))
unfolding to_int prop set_prop
to_int-get fs name = elim (Bool-cases (truthy (get_field fs name))) [
  | inl filled ↦ (
    set_field fs name (num (int_of (get_field fs name))),
    rw filled,
    λ key. rw filled (get-set_field fs name key (num (int_of (get_field fs name)))),
  )
  | inr blank ↦ (fs, rw blank, λ key. rw blank refl)
]

ints-get :
    (fs : Fields)
    → (gs : Fields) × (to_int (to_int (obj fs) "type") "commentType" ≡ obj gs)
      × ((key : String)
          → get_field gs key ≡ (
              if truthy (get_field fs key) && is_int_name key
              then num (int_of (get_field fs key))
              else get_field fs key))
ints-get fs =
    let (hs, e, h) = to_int-get fs "type" in
    let (gs, d, g) = to_int-get hs "commentType" in
    (
      gs,
      ap (λ v. to_int v "commentType") e ∙ d,
      λ key.
          g key
          ∙ ground (
            arith,
            h key,
            h "commentType",
            eq_iff "type" key,
            eq_iff "commentType" key,
            eq_iff key "type",
            eq_iff key "commentType",
            types_differ,
          ),
    )
  where
    types_differ : str_eq "type" "commentType" ≡ false
    types_differ = refl

module _ (json : Json) where
  open json use {stringify, parse}

  -- The value of the member list that is sent.
  abbrev pub members_sent : Fields → Option Value
  members_sent fs =
      if truthy (get_field fs "memberList")
      then parse (get_field fs "memberList")
      else some undefined

  parse_members-get :
      (fs : Fields) (members : Value)
      → members_sent fs ≡ some members
      → (gs : Fields) × (parse_members json (obj fs) ≡ some (obj gs))
        × ((key : String)
            → get_field gs key ≡ (
                if truthy (get_field fs "memberList") && str_eq "memberList" key
                then members
                else get_field fs key))
  unfolding parse_members prop set_prop
  parse_members-get fs members e = elim (Bool-cases (truthy (get_field fs "memberList"))) [
    | inl filled ↦
        let parsed : parse (get_field fs "memberList") ≡ some members = rw filled at e in
        (
          set_field fs "memberList" members,
          rw (filled, parsed),
          λ key. rw filled (get-set_field fs "memberList" key members),
        )
    | inr blank ↦ (fs, rw blank, λ key. rw blank refl)
  ]

  sent_once :
      (fs hs : Fields) (members : Value) (key : String)
      → get_field hs key ≡ (
          if truthy (get_field fs "memberList") && str_eq "memberList" key
          then members
          else get_field fs key)
      → (if truthy (get_field hs key) && is_int_name key
          then num (int_of (get_field hs key))
          else get_field hs key)
        ≡ as_sent fs members key
  sent_once fs hs members key h = elim (Bool-cases (str_eq "memberList" key)) [
    | inl same ↦
        let k : "memberList" ≡ key = (eq_iff "memberList" key).0 same in
        subst
          (λ k.
            get_field hs k ≡ (
              if truthy (get_field fs "memberList") && str_eq "memberList" k
              then members
              else get_field fs k)
            → (if truthy (get_field hs k) && is_int_name k
                then num (int_of (get_field hs k))
                else get_field hs k)
              ≡ as_sent fs members k)
          k (λ e. ground (arith, e)) h
    | inr other ↦
        let back : str_eq key "memberList" ≡ false =
          ground (arith, eq_iff "memberList" key, eq_iff key "memberList") in
        ground (arith, h)
  ]

  -- The request of a form whose inputs are the object `gs`.
  abbrev pub request_of : String → Fields → Fields → Request
  request_of login form gs = record {
    method = "POST";
    url = action_url login;
    body = stringify (obj (set_field form "actionBody" (str (stringify (obj gs)))));
  }

  body_text-sent :
      (fs : Fields) (members : Value)
      → members_sent fs ≡ some members
      → (gs : Fields) × (body_text json (obj fs) ≡ some (stringify (obj gs)))
        × ((key : String) → get_field gs key ≡ as_sent fs members key)
  unfolding body_text truthy
  body_text-sent fs members e =
      let (hs, listed, h) = parse_members-get fs members e in
      let (gs, sent, g) = ints-get hs in
      (gs, rw (listed, sent) refl, λ key. g key ∙ sent_once fs hs members key (h key))

  -- A form with filled inputs whose member list, if there is one, is a JSON text sends one request
  -- to the bot's url. Each input arrives as it was typed, but the member list as the value of its
  -- text, and a filled `type` and `commentType` as numbers.
  pub send_action_sent :
      (login : String) (form fs : Fields) (members : Value)
      → get_field form "actionBody" ≡ obj fs
      → members_sent fs ≡ some members
      → (gs : Fields) × (send_action json login form ≡ some (request_of login form gs))
        × ((key : String) → get_field gs key ≡ as_sent fs members key)
  unfolding send_action
  send_action_sent login form fs members filled e =
      let (gs, text, g) = body_text-sent fs members e in (gs, rw (filled, text) refl, g)

  throws :
      (login : String) (form fs : Fields)
      → get_field form "actionBody" ≡ obj fs
      → truthy (get_field fs "memberList") ≡ true
      → parse (get_field fs "memberList") ≡ none
      → send_action json login form ≡ none
  unfolding send_action body_text truthy parse_members prop
  throws login form fs filled listed bad = rw filled (rw (listed, bad) refl)

  -- No request is sent exactly if a member list is filled in and is no JSON text.
  pub send_action_throws :
      (login : String) (form fs : Fields)
      → get_field form "actionBody" ≡ obj fs
      → (send_action json login form ≡ none)
        ↔ ((truthy (get_field fs "memberList") ≡ true) × (parse (get_field fs "memberList") ≡ none))
  send_action_throws login form fs filled = (
    λ thrown. elim (Option-cases (members_sent fs)) [
      | inl missing ↦ ground arith
      | inr (members, found) ↦
          let (gs, sent, g) = send_action_sent login form fs members filled found in cc
    ],
    λ h. throws login form fs filled h.0 h.1,
  )
