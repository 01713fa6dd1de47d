-- ===== src/Table/Broadcast/Laws.antt =====
-- What stands in the scope of a table behind a digest.
use chat_bot_hub.Prelude.{
  String, str_eq, eq_iff, Bool, true, false, ◌||◌, Option, some, List, [], ◌∷◌, map, Object, assign,
  get, get-assign, if◌then◌else◌, ◌≡◌, refl, sym, ap, ◌∙◌, inl, inr, arith, Bool-cases,
}
use chat_bot_hub.Js.{Value}
use chat_bot_hub.Table.Broadcast.{
  Watch, fresh, copies, watched, link, Identity, seen, fire, fire_all, note, digest, run,
}

pub lists : List String → String → Bool
lists [] n = false
lists (m ∷ ms) n = str_eq m n || lists ms n

stale : (String → Value) → String → Watch
stale parent name = record { name = name; last = some (parent name) }

get-assigned :
    (q : String → Value) (s : Object Value) (m n : String)
    → str_eq m n ≡ true
    → get (assign s m (q m)) n ≡ some (q n)
get-assigned q s m n e = get-assign s m n (q m) ∙ rw (e) (ap (λ k. some (q k)) ((eq_iff m n).0 e))

note-fresh : (q : String → Value) (ms : List String) → note q (map fresh ms) ≡ map (stale q) ms
unfolding note fresh stale
note-fresh q [] = refl
note-fresh q (m ∷ ms) = ap (λ ws. stale q m ∷ ws) (note-fresh q ms)

note-stale :
    (p q : String → Value) (ms : List String) → note q (map (stale p) ms) ≡ map (stale q) ms
unfolding note stale
note-stale p q [] = refl
note-stale p q (m ∷ ms) = ap (λ ws. stale q m ∷ ws) (note-stale p q ms)

-- The last value that is copied under a name.
pub last_of : Object Value → String → Option Value → Option Value
last_of [] n old = old
last_of ((name, v) ∷ more) n old = last_of more n (if str_eq name n then some v else old)

get-copies :
    (data_ scope : Object Value) (n : String)
    → get (copies data_ scope) n ≡ last_of data_ n (get scope n)
unfolding copies last_of
get-copies [] scope n = refl
get-copies ((name, v) ∷ more) scope n =
    get-copies more (assign scope name v) n ∙ ap (last_of more n) (get-assign scope name n v)

pub last_parent : (String → Value) → List (String → Value) → String → Value
last_parent p [] = p
last_parent p (q ∷ qs) = last_parent q qs

module _ (id : Identity) where
  fire-other :
      (q : String → Value) (w : Watch) (s : Object Value) (n : String)
      → str_eq w.name n ≡ false
      → get (fire id q w s) n ≡ get s n
  unfolding fire
  fire-other q w s n h = ground (arith, h, get-assign s w.name n (q w.name))

  fire-written :
      (q : String → Value) (w : Watch) (s : Object Value) (n : String)
      → get s n ≡ some (q n)
      → get (fire id q w s) n ≡ some (q n)
  unfolding fire
  fire-written q w s n h = elim (Bool-cases (str_eq w.name n)) [
    | inl e ↦ elim (Bool-cases (seen id w.last (q w.name))) [
      | inl same ↦ rw (same) h
      | inr other ↦ rw (other) (get-assigned q s w.name n e)
    ]
    | inr e ↦ fire-other q w s n e ∙ h
  ]

  fire_all-written :
      (q : String → Value) (ws : List Watch) (s : Object Value) (n : String)
      → get s n ≡ some (q n)
      → get (fire_all id q ws s) n ≡ some (q n)
  unfolding fire_all
  fire_all-written q [] s n h = h
  fire_all-written q (w ∷ ws) s n h =
      fire_all-written q ws (fire id q w s) n (fire-written q w s n h)

  fire-fresh :
      (q : String → Value) (m : String) (s : Object Value) (n : String)
      → str_eq m n ≡ true
      → get (fire id q (fresh m) s) n ≡ some (q n)
  unfolding fire fresh seen
  fire-fresh q m s n e = get-assigned q s m n e

  fire-stale :
      (p q : String → Value) (m : String) (s : Object Value) (n : String)
      → str_eq m n ≡ true
      → get s n ≡ some (p n)
      → get (fire id q (stale p m) s) n ≡ some (q n)
  unfolding fire stale seen
  fire-stale p q m s n e h =
      let m-n : m ≡ n = (eq_iff m n).0 e in
      elim (Bool-cases (id.same (p m) (q m))) [
        | inl same ↦
            rw (same) (h ∙ ap some (ap p (sym m-n) ∙ id.same-≡ (p m) (q m) same ∙ ap q m-n))
        | inr other ↦ rw (other) (get-assigned q s m n e)
      ]

  module _ (f : String → Watch) (named : (m : String) → (f m).name ≡ m) (q : String → Value)
      (n : String) where
    fire_all-unlisted :
        (ms : List String) (s : Object Value)
        → lists ms n ≡ false
        → get (fire_all id q (map f ms) s) n ≡ get s n
    unfolding fire_all lists
    fire_all-unlisted [] s h = refl
    fire_all-unlisted (m ∷ ms) s h =
        fire_all-unlisted ms (fire id q (f m) s) (ground (arith, h))
        ∙ fire-other q (f m) s n (rw (named m) (ground (arith, h)))

    -- The first watch of the name writes the value, and the others leave it.
    fire_all-listed :
        (v : Option Value)
        → ((m : String) (s : Object Value)
            → str_eq m n ≡ true
            → get s n ≡ v
            → get (fire id q (f m) s) n ≡ some (q n))
        → (ms : List String) (s : Object Value) → get s n ≡ v
        → lists ms n ≡ true
        → get (fire_all id q (map f ms) s) n ≡ some (q n)
    unfolding fire_all lists
    fire_all-listed v first [] s g h = ground (arith, h)
    fire_all-listed v first (m ∷ ms) s g h = elim (Bool-cases (str_eq m n)) [
      | inl e ↦ fire_all-written q (map f ms) (fire id q (f m) s) n (first m s e g)
      | inr e ↦
          fire_all-listed v first ms (fire id q (f m) s)
            (fire-other q (f m) s n (rw (named m) e) ∙ g) (ground (arith, h, e))
    ]

  -- What a name stands for: the value around the table if it is watched, or else another one.
  abbrev known : List String → (String → Value) → String → Option Value → Option Value
  known ms p n other = if lists ms n then some (p n) else other

  digest-fresh :
      (q : String → Value) (ms : List String) (s : Object Value) (n : String)
      → get (fire_all id q (map fresh ms) s) n ≡ known ms q n (get s n)
  unfolding fresh
  digest-fresh q ms s n = elim (Bool-cases (lists ms n)) [
    | inl h ↦ rw (h) (
        fire_all-listed fresh (λ m. refl) q n (get s n) (λ m t e g. fire-fresh q m t n e) ms s refl
          h)
    | inr h ↦ rw (h) (fire_all-unlisted fresh (λ m. refl) q n ms s h)
  ]

  digest-stale :
      (p q : String → Value) (ms : List String) (s : Object Value) (n : String)
      (other : Option Value)
      → get s n ≡ known ms p n other
      → get (fire_all id q (map (stale p) ms) s) n ≡ known ms q n other
  unfolding stale
  digest-stale p q ms s n other g = elim (Bool-cases (lists ms n)) [
    | inl h ↦ rw (h) (
        fire_all-listed (stale p) (λ m. refl) q n (some (p n)) (λ m t e k. fire-stale p q m t n e k)
          ms s (g ∙ rw (h) refl) h)
    | inr h ↦ rw (h) (fire_all-unlisted (stale p) (λ m. refl) q n ms s h ∙ g ∙ rw (h) refl)
  ]

  run-stale :
      (ps : List (String → Value)) (p : String → Value) (ms : List String) (s : Object Value)
      (n : String) (other : Option Value)
      → get s n ≡ known ms p n other
      → get (run id ps (record { scope = s; watches = map (stale p) ms })).scope n
        ≡ known ms (last_parent p ps) n other
  unfolding run digest last_parent
  run-stale [] p ms s n other g = g
  run-stale (q ∷ ps) p ms s n other g =
      ap
        (λ ws.
          get
            (run id ps (record { scope = fire_all id q (map (stale p) ms) s; watches = ws })).scope
            n)
        (note-stale p q ms)
      ∙ run-stale ps q ms (fire_all id q (map (stale p) ms) s) n other
          (digest-stale p q ms s n other g)

  -- Behind any digests, a name of `broadcastData` that stood for a text or a number around the table
  -- when the table was linked stands in its scope for what it stands for around the table at the last
  -- digest; every other name keeps the value that was copied under it, or the one before if none was.
  pub run-known :
      (at_link first : String → Value) (others : List (String → Value)) (data_ scope : Object Value)
      (n : String)
      → get (run id (first ∷ others) (link at_link data_ scope)).scope n ≡ (
          if lists (watched at_link data_) n
          then some (last_parent first others n)
          else last_of data_ n (get scope n))
  unfolding run digest link
  run-known at_link first others data_ scope n =
      let ms = watched at_link data_ in
      let s = copies data_ scope in
      ap
        (λ ws.
          get
            (run id others
              (record { scope = fire_all id first (map fresh ms) s; watches = ws })).scope
            n)
        (note-fresh first ms)
      ∙ run-stale others first ms (fire_all id first (map fresh ms) s) n
          (last_of data_ n (get scope n))
          (digest-fresh first ms s n ∙ ap (known ms first n) (get-copies data_ scope n))
