-- ===== src/Paging/Flow/Laws.antt =====
-- What a search and a page jump request, and what the list of pages shows at any time.
use chat_bot_hub.Prelude.{
  ℕ, ◌≤◌, true, ◌≡◌, refl, ap, none, some, List, [], ◌∷◌, arith, ltb, length, Bool-cases, inl, inr,
}
use chat_bot_hub.Paging.{page_range}
use chat_bot_hub.Paging.Range.{
  shows, shows-page_range, shows-page_range_small, length-page_range, Ascends, Ascends-page_range,
}
use chat_bot_hub.Paging.Flow.{
  Chats, Listing, Event, form_object, get_consts, get_list, typed, search, jump, consts_came,
  list_came, failed, or_else, receive, step, run,
}

-- The text of the form after some typing.
abbrev pub last_typed : {C : Type 0} → C → List C → C
last_typed c [] = c
last_typed c (d ∷ cs) = last_typed d cs

page_range-within : (n p count : ℕ) → shows n (page_range p count) ≡ true → n ≤ count
page_range-within n p count h = elim (Bool-cases (ltb 20 count)) [
  | inl large ↦ ground (arith, shows-page_range n p count)
  | inr small ↦ ground (arith, shows-page_range_small n p count)
]

module _ {C D K : Type 0} where
  abbrev pub typing : List C → List (Event C D K) → List (Event C D K)
  typing [] es = es
  typing (c ∷ cs) es = typed c ∷ typing cs es

  typing-consts :
      (s : Chats C D K) (cs : List C) (k : K)
      → s.source ≡ form_object
      → s.page_number ≡ some 1
      → (run s (typing cs (consts_came k ∷ []))).1
        ≡ get_list (record {
          criteria = last_typed s.criteria cs;
          page_number = 1;
          pagesize = or_else s.pagesize 100;
        })
          ∷ []
  unfolding run step
  typing-consts s [] k h q = rw (h, q)
  typing-consts s (c ∷ cs) k h q = typing-consts (record s { criteria = c }) cs k h q

  -- The first requests after a search, however much is typed before the constants arrive, ask for
  -- page 1 of what the form holds in the end.
  pub search-requests :
      (s : Chats C D K) (cs : List C) (k : K)
      → (run s (search ∷ typing cs (consts_came k ∷ []))).1
        ≡ get_consts
          ∷ get_list (record {
            criteria = last_typed s.criteria cs;
            page_number = 1;
            pagesize = or_else s.pagesize 100;
          })
          ∷ []
  unfolding run step
  search-requests s cs k =
      ap (get_consts ∷◌)
        (typing-consts (record s { source = form_object; page_number = some 1 }) cs k refl refl)

  -- An answer to an earlier request that comes between a search and its constants replaces both
  -- the criteria and the page of the search.
  pub search_lost :
      (s : Chats C D K) (d : Listing C D K) (k : K)
      → (run s (search ∷ list_came d ∷ consts_came k ∷ [])).1
        ≡ get_consts
          ∷ get_list (record {
            criteria = d.criteria;
            page_number = or_else (some d.page_number) 1;
            pagesize = or_else (some d.pagesize) 100;
          })
          ∷ []
  unfolding run step
  search_lost s d k = refl

  -- The list of pages is that of some page number, and is empty before the first answer.
  pub record IsShown (s : Chats C D K) : Type 0 where
    pub bounded : length s.pagerange ≤ 20
    pub ascending : Ascends 1 s.pagerange
    pub within : (n count : ℕ) → s.pagecount ≡ some count → shows n s.pagerange ≡ true → n ≤ count
    pub blank : s.pagecount ≡ none → s.pagerange ≡ []

  receive-IsShown : (s : Chats C D K) (d : Listing C D K) → IsShown (receive s d)
  unfolding receive
  receive-IsShown s d = record {
    bounded = length-page_range d.page_number d.pagecount;
    ascending = Ascends-page_range d.page_number d.pagecount;
    within = λ n count e h. ground (arith, page_range-within n d.page_number d.pagecount);
    blank = λ e. cc;
  }

  step-IsShown : (s : Chats C D K) (e : Event C D K) → IsShown s → IsShown (step s e).0
  unfolding step
  step-IsShown s (typed c) h = record {
    bounded = h.bounded;
    ascending = h.ascending;
    within = h.within;
    blank = h.blank;
  }
  step-IsShown s search h = record {
    bounded = h.bounded;
    ascending = h.ascending;
    within = h.within;
    blank = h.blank;
  }
  step-IsShown s (jump i) h = h
  step-IsShown s (consts_came k) h = record {
    bounded = h.bounded;
    ascending = h.ascending;
    within = h.within;
    blank = h.blank;
  }
  step-IsShown s (list_came d) h = receive-IsShown s d
  step-IsShown s failed h = h

  -- Whatever the user does and the server answers, in any order: at most 20 entries are shown, they
  -- increase strictly, and none lies beyond the page count of the last answer.
  pub run-IsShown : (s : Chats C D K) (es : List (Event C D K)) → IsShown s → IsShown (run s es).0
  unfolding run
  run-IsShown s [] h = h
  run-IsShown s (e ∷ es) h = run-IsShown (step s e).0 es (step-IsShown s e h)
