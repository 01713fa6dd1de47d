-- ===== src/Paging/Range.antt =====
-- Which pages a page range shows, and in which order.
use mathlib.Core.List.{append-nil}
use chat_bot_hub.Prelude.{
  ℕ, zero, suc, ◌+◌, ◌-◌, ◌≤◌, ◌<◌, Bool, true, false, ◌&&◌, ◌||◌, List, [], ◌∷◌, ◌++◌, ◌≡◌, refl,
  arith, ltb, leb, lt→ltb, ltb→lt, ◌==◌, Bool-cases, inl, inr, length, length-append,
}
use chat_bot_hub.Paging.{Slot, page, d1, d2, pages, before, after, marked, folded_range, page_range}

-- The page number stands in the range.
unfoldable pub shows : ℕ → List Slot → Bool
shows n [] = false
shows n (page m ∷ s) = m == n || shows n s
shows n (_ ∷ s) = shows n s

shows-append : (n : ℕ) (s t : List Slot) → shows n (s ++ t) ≡ (shows n s || shows n t)
unfolding shows
shows-append n [] t = refl
shows-append n (page m ∷ s) t = ground (arith, shows-append n s t)
shows-append n (d1 ∷ s) t = shows-append n s t
shows-append n (d2 ∷ s) t = shows-append n s t

shows-pages : (n from k : ℕ) → shows n (pages from k) ≡ (leb from n && ltb n (from + k))
unfolding shows pages
shows-pages n from zero = ground arith
shows-pages n from (suc k) = ground (arith, shows-pages n (from + 1) k)

shows-d1 : (n : ℕ) (flag : Bool) → shows n (marked flag d1) ≡ false
unfolding shows marked
shows-d1 n true = refl
shows-d1 n false = refl

shows-d2 : (n : ℕ) (flag : Bool) → shows n (marked flag d2) ≡ false
unfolding shows marked
shows-d2 n true = refl
shows-d2 n false = refl

ruleset shown_parts = (shows-append, shows-pages, shows-d1, shows-d2)

-- The parts of a folded range, whatever their bounds.
shows-parts :
    (n b k t : ℕ) (gap more : Bool)
    → shows n (pages 1 3 ++ (marked gap d1 ++ (pages b k ++ (marked more d2 ++ pages t 3)))) ≡ (
        leb 1 n && ltb n (1 + 3)
        || (false || (leb b n && ltb n (b + k) || (false || leb t n && ltb n (t + 3)))))
shows-parts n b k t gap more = simp shown_parts

-- With more than 20 pages the range shows the first three, the last three but the very last, and
-- those at most three away from the current page.
pub shows-page_range :
    (n p pagecount : ℕ)
    → 20 < pagecount
    → shows n (page_range p pagecount) ≡ (
        leb 1 n
        && ltb n pagecount
        && (leb n 3 || (leb p (n + 3) && leb n (p + 3)) || leb pagecount (n + 3)))
unfolding page_range folded_range before after
shows-page_range n p pagecount h = rw (lt→ltb 20 pagecount h, shows-parts) (ground arith)

-- With at most 20 pages it shows them all.
pub shows-page_range_small :
    (n p pagecount : ℕ)
    → pagecount ≤ 20
    → shows n (page_range p pagecount) ≡ (leb 1 n && leb n pagecount)
unfolding page_range
shows-page_range_small n p pagecount h = ground (arith, shows-pages n 1 pagecount)

-- No page of the rest is below `lo`, and the pages increase.
abbrev pub Ascends : ℕ → List Slot → Type 0
Ascends lo [] = Unit {0}
Ascends lo (page n ∷ s) = (lo ≤ n) × Ascends (n + 1) s
Ascends lo (d1 ∷ s) = Ascends lo s
Ascends lo (d2 ∷ s) = Ascends lo s

Ascends-le : (lo hi : ℕ) (s : List Slot) → lo ≤ hi → Ascends hi s → Ascends lo s
Ascends-le lo hi [] h a = tt
Ascends-le lo hi (page n ∷ s) h a = (omega arith, a.1)
Ascends-le lo hi (d1 ∷ s) h a = Ascends-le lo hi s h a
Ascends-le lo hi (d2 ∷ s) h a = Ascends-le lo hi s h a

Ascends-pages :
    (lo from k : ℕ) (rest : List Slot)
    → lo ≤ from
    → Ascends (from + k) rest
    → Ascends lo (pages from k ++ rest)
unfolding pages
Ascends-pages lo from zero rest h a = Ascends-le lo (from + 0) rest (omega arith) a
Ascends-pages lo from (suc k) rest h a = (
  h,
  Ascends-pages (from + 1) (from + 1) k rest (omega arith) (Ascends-le _ _ rest (omega arith) a),
)

Ascends-d1 :
    (lo : ℕ) (flag : Bool) (s : List Slot) → Ascends lo s → Ascends lo (marked flag d1 ++ s)
unfolding marked
Ascends-d1 lo true s a = a
Ascends-d1 lo false s a = a

Ascends-d2 :
    (lo : ℕ) (flag : Bool) (s : List Slot) → Ascends lo s → Ascends lo (marked flag d2 ++ s)
unfolding marked
Ascends-d2 lo true s a = a
Ascends-d2 lo false s a = a

before_bounds : (p : ℕ) → (4 ≤ (before p).0) × (p ≤ (before p).0 + 3)
unfolding before
before_bounds p = ground arith

after_bounds :
    (p pagecount : ℕ)
    → 20 < pagecount
    → ((after p pagecount).0 + 4 ≤ pagecount) × ((after p pagecount).0 ≤ p + 3)
unfolding after
after_bounds p pagecount h = ground arith

after_middle : (p pagecount : ℕ) → (after p pagecount).0 ≤ p + 3
unfolding after
after_middle p pagecount = ground arith

Ascends-tail : (lo pagecount : ℕ) → lo + 3 ≤ pagecount → Ascends lo (pages (pagecount - 3) 3)
unfolding pages
Ascends-tail lo pagecount h = omega arith

-- The middle part, which is empty where the current page lies beyond the end.
Ascends-middle :
    (lo b a pagecount : ℕ) (more : Bool)
    → lo ≤ b
    → lo + 3 ≤ pagecount
    → a + 4 ≤ pagecount
    → Ascends lo (pages b (a + 1 - b) ++ (marked more d2 ++ pages (pagecount - 3) 3))
Ascends-middle lo b a pagecount more h l m = elim (Bool-cases (ltb b (a + 1))) [
  | inl inside ↦
      let lt : b < a + 1 = ltb→lt b (a + 1) inside in
      Ascends-pages lo b (a + 1 - b) _ h
        (Ascends-d2 _ more _ (Ascends-tail _ pagecount (omega arith)))
  | inr beyond ↦
      let none_left : a + 1 - b ≡ 0 = ground arith in
      rw none_left (unfold pages in (Ascends-d2 lo more _ (Ascends-tail lo pagecount l)))
]

-- The pages of a range increase strictly from 1, whatever the current page.
pub Ascends-page_range : (p pagecount : ℕ) → Ascends 1 (page_range p pagecount)
unfolding page_range
Ascends-page_range p pagecount = elim (Bool-cases (ltb 20 pagecount)) [
  | inl large ↦ rw large (Ascends-folded (ltb→lt 20 pagecount large))
  | inr small ↦
      rw (small, ← append-nil (pages 1 pagecount)) (Ascends-pages 1 1 pagecount [] (omega arith) tt)
]
  where
    Ascends-folded : 20 < pagecount → Ascends 1 (folded_range p pagecount)
    Ascends-folded h =
        unfold folded_range in
        let m = before_bounds p in
        let n = after_bounds p pagecount h in
        Ascends-pages 1 1 3 _ (omega arith) (
          Ascends-d1 _ (before p).1 _ (
            Ascends-middle 4 (before p).0 (after p pagecount).0 pagecount (after p pagecount).1
              (omega arith) (omega arith) (omega arith)))

length-pages : (from k : ℕ) → length (pages from k) ≡ k
unfolding pages
length-pages from zero = refl
length-pages from (suc k) = omega (arith, length-pages (from + 1) k)

length-marked : (flag : Bool) (s : Slot) → length (marked flag s) ≤ 1
unfolding marked
length-marked flag s = ground arith

length-folded_range : (p pagecount : ℕ) → length (folded_range p pagecount) ≤ 15
unfolding folded_range
length-folded_range p pagecount =
    simp (length-append, length-pages)
      (omega (
        arith,
        before_bounds p,
        after_middle p pagecount,
        length-marked (before p).1 d1,
        length-marked (after p pagecount).1 d2,
      ))

-- However many pages there are, at most 20 entries are shown.
pub length-page_range : (p pagecount : ℕ) → length (page_range p pagecount) ≤ 20
unfolding page_range
length-page_range p pagecount =
    ground (arith, length-folded_range p pagecount, length-pages 1 pagecount)
