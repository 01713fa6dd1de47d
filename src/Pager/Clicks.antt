-- ===== src/Pager/Clicks.antt =====
-- Where the links of the pager lead, and what a run of clicks leaves.
use chat_bot_hub.Prelude.{
  ℕ, zero, suc, ◌+◌, ◌≤◌, ◌<◌, Bool, true, ◌≡◌, ◌≢◌, refl, ap, sym, ◌∙◌, Option, none, some, List,
  [], ◌∷◌, ◌++◌, ltb, leb, arith, get_elem?, lt→ltb, Bool-cases, Option-cases, inl, inr,
}
use mathlib.Core.Option.{some-injective}
use mathlib.Core.Path.{subst}
use chat_bot_hub.Prelude.Int.{ℤ, pos, ltb_ℤ, pos_part}
use chat_bot_hub.Pager.{
  Entry, at_least_one, before, after, numbers, entries, build_pager, Pager, click, page_of,
  click_at, clicks,
}
use chat_bot_hub.Pager.Links.{nearest, clamped, nearest_low, nearest_high}

abbrev All : (Entry → Type 0) → List Entry → Type 0
All P [] = Unit {0}
All P (e ∷ es) = P e × All P es

All-append : (P : Entry → Type 0) (xs ys : List Entry) → All P xs → All P ys → All P (xs ++ ys)
All-append P [] ys a b = b
All-append P (x ∷ xs) ys a b = (a.0, All-append P xs ys a.1 b)

All-get_elem? :
    (P : Entry → Type 0) (es : List Entry) (i : ℕ) (e : Entry)
    → All P es
    → get_elem? es i ≡ some e
    → P e
All-get_elem? P [] i e a h = cc
All-get_elem? P (x ∷ es) zero e a h = subst P (some-injective _ _ h) a.0
All-get_elem? P (x ∷ es) (suc i) e a h = All-get_elem? P es i e a.1 h

-- The entry leads to no page or to another one of the total.
pub IsTarget : ℕ → ℕ → Entry → Type 0
IsTarget cur total e = (p : ℕ) → page_of e ≡ some p → (1 ≤ p) × (p ≤ total) × (p ≢ cur)

before-IsTarget :
    (num cur total : ℕ) → cur ≤ total → All (IsTarget cur total) (numbers (before num cur))
unfolding numbers before IsTarget
before-IsTarget zero cur total h = tt
before-IsTarget (suc i) cur total h = elim (Bool-cases (leb cur (suc i))) [
  | inl near ↦ rw near (before-IsTarget i cur total h)
  | inr far ↦ rw far ((λ p e. ground (arith, far, e)), before-IsTarget i cur total h)
]

after-IsTarget :
    (left i cur total : ℕ) → 1 ≤ i → All (IsTarget cur total) (numbers (after left i cur total))
unfolding numbers after IsTarget
after-IsTarget zero i cur total h = tt
after-IsTarget (suc left) i cur total h = elim (Bool-cases (ltb total (i + cur))) [
  | inl beyond ↦ rw beyond tt
  | inr within ↦
      rw within
        ((λ p e. ground (arith, within, e)), after-IsTarget left (i + 1) cur total (omega arith))
]

entries-IsTarget :
    (cur total num : ℕ) (has_prev has_next : Bool)
    → 1 ≤ cur
    → cur ≤ total
    → (has_prev ≡ true → 1 < cur)
    → (has_next ≡ true → cur < total)
    → All (IsTarget cur total) (entries cur total num has_prev has_next)
unfolding entries IsTarget
entries-IsTarget cur total num has_prev has_next low high prev next = (
  (λ p e. ground (arith, e)),
  (
    (λ p e. ground (arith, e, prev)),
    All-append (IsTarget cur total) (numbers (before num cur)) _
        (before-IsTarget num cur total high)
        (
          (λ p e. cc),
          All-append (IsTarget cur total) (numbers (after num 1 cur total)) _
              (after-IsTarget num 1 cur total (omega arith))
              ((λ p e. ground (arith, e, next)), ((λ p e. ground (arith, e)), tt)),
        ),
  ),
)

prev_flag : (cur : ℤ) (total : ℕ) → 1 < total → ltb_ℤ (pos 1) cur ≡ true → 1 < nearest cur total
prev_flag cur total h e = ground (arith, e)

next_flag :
    (cur : ℤ) (total : ℕ)
    → 1 < total
    → ltb (at_least_one cur) total ≡ true
    → nearest cur total < total
unfolding at_least_one
next_flag cur total h e = ground (arith, e)

-- Each link of a pager with more than one page leads to a page between 1 and the total that is not
-- the nearest to the given one.
pub build_pager-IsTarget :
    (cur num : ℤ) (total : ℕ) (es : List Entry)
    → 1 < total
    → build_pager cur (pos total) num ≡ some es
    → (index : ℕ) (e : Entry) → get_elem? es index ≡ some e
    → IsTarget (nearest cur total) total e
unfolding build_pager
build_pager-IsTarget cur num total es h built index e found =
    let c : ℕ = nearest cur total in
    All-get_elem? (IsTarget c total) es index e
      (subst (All (IsTarget c total))
        (some-injective _ _
          (rw (lt→ltb 1 (total + 0) (omega (arith, h)), clamped cur total h) at built))
        (entries-IsTarget c total (pos_part num) (ltb_ℤ (pos 1) cur) (ltb (at_least_one cur) total)
          (nearest_low cur total h) (nearest_high cur total h) (prev_flag cur total h)
          (next_flag cur total h)))
      found

-- Pages within the total, the latest first, each other than the one before.
unfoldable pub IsRoute : ℕ → List ℕ → Type 0
IsRoute total [] = Unit {0}
IsRoute total (p ∷ ps) = (1 ≤ p) × (p ≤ total) × (get_elem? ps 0 ≢ some p) × IsRoute total ps

pub record IsOnRoute (total : ℕ) (s : Pager) : Type 0 where
  pub route : IsRoute total s.changes
  pub latest : (p : ℕ) → get_elem? s.changes 0 ≡ some p → s.ng_model ≡ pos p

nearest_self : (p total : ℕ) → 1 ≤ p → p ≤ total → nearest (pos p) total ≡ p
nearest_self p total low high = ground arith

-- A page that the pager for the present model leads to is not the one that was opened last.
new_page :
    (total : ℕ) (s : Pager) (p : ℕ)
    → IsOnRoute total s
    → p ≢ nearest s.ng_model total
    → get_elem? s.changes 0 ≢ some p
unfolding IsRoute
new_page total s p r other same =
    let inside : (1 ≤ p) × (p ≤ total) = latest_inside s.changes p r.route same in
    other (
      sym (
        ap (λ (m : ℤ). nearest m total) (r.latest p same) ∙ nearest_self p total inside.0 inside.1))
  where
    latest_inside :
        (ps : List ℕ) (q : ℕ) → IsRoute total ps → get_elem? ps 0 ≡ some q → (1 ≤ q) × (q ≤ total)
    latest_inside [] q i e = cc
    latest_inside (x ∷ ps) q i e =
        subst (λ (y : ℕ). (1 ≤ y) × (y ≤ total)) (some-injective _ _ e) (i.0, i.1)

click-IsOnRoute :
    (total : ℕ) (s : Pager) (o : Option ℕ)
    → IsOnRoute total s
    → ((p : ℕ) → o ≡ some p → (1 ≤ p) × (p ≤ total) × (p ≢ nearest s.ng_model total))
    → IsOnRoute total (click s o)
unfolding click IsRoute
click-IsOnRoute total s none r t = r
click-IsOnRoute total s (some p) r t =
    let inside : (1 ≤ p) × (p ≤ total) × (p ≢ nearest s.ng_model total) = t p refl in
    record {
      route = (inside.0, inside.1, new_page total s p r inside.2, r.route);
      latest = λ q e. ap pos (some-injective _ _ e);
    }

click_at-IsOnRoute :
    (total : ℕ) (num : ℤ) (s : Pager) (index : ℕ)
    → 1 < total
    → IsOnRoute total s
    → IsOnRoute total (click_at (pos total) num s index)
unfolding click_at IsTarget
click_at-IsOnRoute total num s index h r =
    elim (Option-cases (build_pager s.ng_model (pos total) num)) [
      | inl hidden ↦ rw (click_at, hidden) r
      | inr (es, built) ↦
          rw (click_at, built)
            (elim (Option-cases (get_elem? es index)) [
              | inl out ↦ rw out r
              | inr (e, found) ↦ rw found (
                  click-IsOnRoute total s (page_of e) r
                    (build_pager-IsTarget s.ng_model num total es h built index e found))
            ])
    ]

-- From a pager that opened no page yet, and after any run of clicks on it, the pages that were
-- opened lie between 1 and the total, no page is opened twice in succession, and the model is the
-- page that was opened last.
pub clicks-IsOnRoute :
    (total : ℕ) (num : ℤ) (s : Pager) (run : List ℕ)
    → 1 < total
    → IsOnRoute total s
    → IsOnRoute total (clicks (pos total) num s run)
unfolding clicks
clicks-IsOnRoute total num s [] h r = r
clicks-IsOnRoute total num s (index ∷ more) h r =
    clicks-IsOnRoute total num (click_at (pos total) num s index) more h
      (click_at-IsOnRoute total num s index h r)
