-- ===== src/Pager/Links.antt =====
-- Which pages the pager shows, and where its links lead.
use chat_bot_hub.Prelude.{
  ℕ, zero, suc, ◌+◌, ◌-◌, ◌≤◌, ◌<◌, min, Bool, true, false, ◌≡◌, refl, ap, ◌∙◌, sym, some,
  if◌then◌else◌, List, [], ◌∷◌, ◌++◌, ltb, leb, arith, lt→ltb, leb→le, Bool-cases, inl, inr,
}
use mathlib.Core.List.{append-nil}
use chat_bot_hub.Prelude.Int.{ℤ, pos, ltb_ℤ, pos_part}
use chat_bot_hub.Js.{Num, int, truthy}
use chat_bot_hub.Pager.{
  start, Entry, number, active, first_page, prev_page, next_page, last_page, at_least_one, at_most,
  before, after, numbers, entries, build_pager,
}

le→leb : (a b : ℕ) → a ≤ b → leb a b ≡ true
le→leb a b h = ground arith

not_leb : (a b : ℕ) → leb a b ≡ false → b < a
not_leb a b h = ground arith

not_lt : (a b : ℕ) → b ≤ a → ltb a b ≡ false
not_lt a b h = ground arith

-- The pages whose numbers stand in the list, the current one included.
unfoldable pub shown : List Entry → List ℕ
shown [] = []
shown (number p ∷ es) = p ∷ shown es
shown (active p ∷ es) = p ∷ shown es
shown (first_page o ∷ es) = shown es
shown (prev_page o ∷ es) = shown es
shown (next_page o ∷ es) = shown es
shown (last_page o ∷ es) = shown es

-- So many pages, from the first on.
unfoldable pub upto : ℕ → ℕ → List ℕ
upto from zero = []
upto from (suc k) = from ∷ upto (from + 1) k

shown-numbers : (ps : List ℕ) (es : List Entry) → shown (numbers ps ++ es) ≡ ps ++ shown es
unfolding shown numbers
shown-numbers [] es = refl
shown-numbers (p ∷ ps) es = ap (p ∷◌) (shown-numbers ps es)

upto_eq : {a b k m : ℕ} → a ≡ b → k ≡ m → upto a k ≡ upto b m
upto_eq e d = rw (e, d)

upto-append : (from k mid m : ℕ) → from + k ≡ mid → upto from k ++ upto mid m ≡ upto from (k + m)
unfolding upto
upto-append from zero mid m e = upto_eq (omega (arith, e)) (omega arith)
upto-append from (suc k) mid m e =
    ap (from ∷◌) (upto-append (from + 1) k mid m (omega (arith, e)))
    ∙ upto_eq {a = from} {k = suc (k + m)} refl (omega arith)

cons_eq : {a b : ℕ} {xs ys : List ℕ} → a ≡ b → xs ≡ ys → a ∷ xs ≡ b ∷ ys
cons_eq e d = rw (e, d)

before_lem :
    (num cur lo k : ℕ) → 1 ≤ cur → k ≡ min num (cur - 1) → lo + k ≡ cur → before num cur ≡ upto lo k
unfolding before upto
before_lem zero cur lo zero h e d = refl
before_lem zero cur lo (suc k) h e d = absurd (omega (arith, e))
before_lem (suc i) cur lo zero h e d =
    rw (le→leb cur (suc i) (omega (arith, e))) (before_lem i cur lo zero h (omega (arith, e)) d)
before_lem (suc i) cur lo (suc k) h e d = elim (Bool-cases (leb cur (suc i))) [
  | inl near ↦ rw near (before_lem i cur lo (suc k) h (omega (arith, leb→le cur (suc i) near, e)) d)
  | inr far ↦ rw far (
      cons_eq (omega (arith, not_leb cur (suc i) far, e, d)) (
        before_lem i cur (lo + 1) k h (omega (arith, not_leb cur (suc i) far, e))
          (omega (arith, d))))
]

after_lem :
    (left i cur total k from : ℕ)
    → k ≡ min left (total + 1 - (i + cur))
    → from ≡ i + cur
    → after left i cur total ≡ upto from k
unfolding after upto
after_lem zero i cur total zero from e d = refl
after_lem zero i cur total (suc k) from e d = absurd (omega (arith, e))
after_lem (suc left) i cur total zero from e d = rw (lt→ltb total (i + cur) (omega (arith, e))) refl
after_lem (suc left) i cur total (suc k) from e d = rw (not_lt total (i + cur) (omega (arith, e))) (
    cons_eq (sym d)
      (after_lem left (i + 1) cur total k (from + 1) (omega (arith, e)) (omega (arith, d))))

shown-entries :
    (cur total num : ℕ) (p n : Bool)
    → 1 ≤ cur
    → cur ≤ total
    → shown (entries cur total num p n)
      ≡ upto (cur - min num (cur - 1)) (min num (cur - 1) + suc (min num (total - cur)))
unfolding shown entries upto
shown-entries cur total num p n low high =
    let k : ℕ = min num (cur - 1) in
    let m : ℕ = min num (total - cur) in
    let lo : ℕ = cur - k in
    rw
      (
        shown-numbers,
        shown-numbers,
        before_lem num cur lo k low refl (omega arith),
        after_lem num 1 cur total m (cur + 1) (omega arith) (omega arith),
        append-nil (upto (cur + 1) m),
      )
      (upto-append lo k cur (suc m) (omega arith))

-- The page of the pager that is nearest to an integer.
abbrev pub nearest : ℤ → ℕ → ℕ
nearest cur total =
    if ltb_ℤ cur (pos 1) then 1 else if ltb_ℤ (pos total) cur then total else pos_part cur

pub clamped :
    (cur : ℤ) (total : ℕ) → 1 < total → at_most total (at_least_one cur) ≡ nearest cur total
unfolding at_most at_least_one
clamped cur total h = ground arith

pub nearest_low : (cur : ℤ) (total : ℕ) → 1 < total → 1 ≤ nearest cur total
nearest_low cur total h = ground arith

pub nearest_high : (cur : ℤ) (total : ℕ) → 1 < total → nearest cur total ≤ total
nearest_high cur total h = ground arith

-- With more than one page the pager is shown, and its numbers run without a gap from at most `num`
-- pages before the current page, which is the nearest to the given one, to at most `num` after it,
-- within 1 and the total.
pub shown-build_pager :
    (cur num : ℤ) (total : ℕ)
    → 1 < total
    → (es : List Entry) × (build_pager cur (pos total) num ≡ some es)
      × (shown es
          ≡ upto (nearest cur total - min (pos_part num) (nearest cur total - 1)) (
              min (pos_part num) (nearest cur total - 1)
              + suc (min (pos_part num) (total - nearest cur total))))
unfolding build_pager
shown-build_pager cur num total h =
    let c : ℕ = at_most total (at_least_one cur) in
    let p : Bool = ltb_ℤ (pos 1) cur in
    let n : Bool = ltb (at_least_one cur) total in
    (
      entries c total (pos_part num) p n,
      rw (lt→ltb 1 (total + 0) (omega (arith, h))) refl,
      rw (clamped cur total h) (
          shown-entries (nearest cur total) total (pos_part num) p n (nearest_low cur total h)
            (nearest_high cur total h)),
    )

-- The pager starts with the first page, whatever number it is given.
pub start_lem : (n : Num) → start n ≡ int (pos 1)
unfolding start truthy
start_lem n = ground arith
