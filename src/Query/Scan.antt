-- ===== src/Query/Scan.antt =====
-- A reader of the queries that `param` writes: the parts between `&`, but for empty ones, cut at the
-- first `=` and decoded.
use mathlib.Core.List.{append_assoc, append-nil}
use chat_bot_hub.Prelude.{
  ℕ, true, not, List, [], ◌∷◌, ◌++◌, if◌then◌else◌, ◌==◌, ◌≡◌, refl, sym, ap, ◌∙◌, ◌⊎◌, inl, inr,
  arith, and_parts, and_both,
}
use chat_bot_hub.Query.{pair, strip_last}
use chat_bot_hub.Query.Cut.{before, after, cut-append}
use chat_bot_hub.Query.Uri.{encode, decode}
use chat_bot_hub.Query.Uri.Laws.{is_text, lacks, lacks-append, decode-encode, lacks-encode}

abbrev pub Leaf : Type 0
Leaf = List ℕ × List ℕ

unfoldable pub entry : List ℕ → List Leaf
entry [] = []
entry (c ∷ s) = (decode (before b'=' (c ∷ s)), decode (after b'=' (c ∷ s))) ∷ []

-- With the part that has been read; a part counts where an `&` ends it.
unfoldable pub scan : List ℕ → List ℕ → List Leaf
scan cur [] = []
scan cur (c ∷ s) =
    let next = scan [] s in
    let more = scan (cur ++ c ∷ []) s in if c == b'&' then entry cur ++ next else more

unfoldable pub parse : List ℕ → List Leaf
parse s = scan [] (s ++ b'&' ∷ [])

scan-append :
    (cur w rest : List ℕ)
    → lacks b'&' w ≡ true
    → scan cur (w ++ (b'&' ∷ rest)) ≡ entry (cur ++ w) ++ scan [] rest
unfolding scan lacks
scan-append cur [] rest h = rw (append-nil cur) refl
scan-append cur (c ∷ w) rest h =
    let parts : (not (c == b'&') ≡ true) × (lacks b'&' w ≡ true) = and_parts h in
    ground (arith, parts.0, scan-append (cur ++ c ∷ []) w rest parts.1, append_assoc cur (c ∷ []) w)

-- The text is empty or ends in `&`.
abbrev IsWhole : List ℕ → Type 0
IsWhole q = (q ≡ []) ⊎ ((p : List ℕ) × (q ≡ p ++ b'&' ∷ []))

-- The text is whole, and in front of any other it is read as these leaves.
pub record Gives (q : List ℕ) (ls : List Leaf) : Type 0 where
  pub whole : IsWhole q
  pub reads : (r : List ℕ) → scan [] (q ++ r) ≡ ls ++ scan [] r

pub Gives-nil : Gives [] []
Gives-nil = record { whole = inl refl; reads = λ r. refl }

IsWhole-append : {q s : List ℕ} → IsWhole q → IsWhole s → IsWhole (q ++ s)
IsWhole-append {q = q} (inl e) (inl f) = inl (rw (e, f) refl)
IsWhole-append {q = q} (inr (p, e)) (inl f) = inr (p, rw f (append-nil q ∙ e))
IsWhole-append {q = q} a (inr (p, f)) = inr (q ++ p, rw f (sym (append_assoc q p (b'&' ∷ []))))

pub Gives-append :
    {q s : List ℕ} {ls ms : List Leaf} → Gives q ls → Gives s ms → Gives (q ++ s) (ls ++ ms)
Gives-append {q = q} {s = s} {ls = ls} {ms = ms} a b = record {
  whole = IsWhole-append a.whole b.whole;
  reads = λ r.
      ap (scan []) (append_assoc q s r)
      ∙ a.reads (s ++ r)
      ∙ ap (ls ++◌) (b.reads r)
      ∙ sym (append_assoc ls ms (scan [] r));
}

strip_last-append : (p : List ℕ) (c : ℕ) → strip_last (p ++ c ∷ []) ≡ p
unfolding strip_last
strip_last-append [] c = refl
strip_last-append (d ∷ []) c = refl
strip_last-append (d ∷ e ∷ p) c = ap (d ∷◌) (strip_last-append (e ∷ p) c)

strip_last-whole :
    {q : List ℕ} {ls : List Leaf} (r : List ℕ)
    → IsWhole q
    → Gives q ls
    → scan [] ((strip_last q ++ b'&' ∷ []) ++ r) ≡ ls ++ scan [] r
unfolding strip_last scan entry
strip_last-whole {q = q} {ls = ls} r (inl e) g =
    rw e (ap (λ t. scan [] (t ++ r)) (sym e) ∙ g.reads r)
strip_last-whole {q = q} {ls = ls} r (inr (p, e)) g = rw e (
    ap (λ t. scan [] ((t ++ b'&' ∷ []) ++ r)) (strip_last-append p b'&')
    ∙ ap (λ t. scan [] (t ++ r)) (sym e)
    ∙ g.reads r)

pub Gives-strip_last :
    {q : List ℕ} {ls : List Leaf} → Gives q ls → Gives (strip_last q ++ b'&' ∷ []) ls
Gives-strip_last {q = q} {ls = ls} g = record {
  whole = inr (strip_last q, refl);
  reads = λ r. strip_last-whole r g.whole g;
}

-- `name=text` in encoded form.
abbrev body : List ℕ → List ℕ → List ℕ
body name text = encode name ++ (b'=' ∷ encode text)

pair-body : (name text : List ℕ) → pair name text ≡ body name text ++ b'&' ∷ []
unfolding pair
pair-body name text = sym (append_assoc (encode name) (b'=' ∷ encode text) (b'&' ∷ []))

lacks-body :
    (name text : List ℕ)
    → is_text name ≡ true
    → is_text text ≡ true
    → lacks b'&' (body name text) ≡ true
unfolding lacks
lacks-body name text h k =
    lacks-append b'&' (encode name) (b'=' ∷ encode text)
    ∙ and_both (lacks-encode b'&' name refl h, lacks-encode b'&' text refl k)

entry-cut :
    (w v : List ℕ) → lacks b'=' w ≡ true → entry (w ++ (b'=' ∷ v)) ≡ (decode w, decode v) ∷ []
unfolding entry before after
entry-cut [] v h = refl
entry-cut (c ∷ w) v h = let parts = cut-append b'=' (c ∷ w) v h in rw (parts.0, parts.1) refl

-- A pair is read as its leaf.
pub Gives-pair :
    (name text : List ℕ)
    → is_text name ≡ true
    → is_text text ≡ true
    → Gives (pair name text) ((name, text) ∷ [])
Gives-pair name text h k = record {
  whole = inr (body name text, pair-body name text);
  reads = λ r.
      ap (λ q. scan [] (q ++ r)) (pair-body name text)
      ∙ ap (scan []) (append_assoc (body name text) (b'&' ∷ []) r)
      ∙ scan-append [] (body name text) r (lacks-body name text h k)
      ∙ ap (◌++ scan [] r) (
          entry-cut (encode name) (encode text) (lacks-encode b'=' name refl h)
          ∙ ap (λ (l : Leaf). l ∷ [])
              (let e = decode-encode name h in let f = decode-encode text k in rw (e, f) refl));
}
