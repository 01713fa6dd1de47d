-- ===== src/Paging/Tests.antt =====
-- The page ranges and the controllers on concrete inputs.
use chat_bot_hub.Prelude.{ℕ, ◌≤◌, ◌≡◌, refl, some, [], ◌∷◌, arith, ltb, leb, ◌&&◌, ◌||◌, length}
use chat_bot_hub.Paging.{page, d1, d2, pages, before, after, marked, folded_range, page_range}
use chat_bot_hub.Paging.Range.{shows, shows-page_range, length-page_range}
use chat_bot_hub.Paging.Flow.{
  GroupCriteria, group_form, no_group_criteria, Chats, Listing, search, typed, jump, consts_came,
  list_came, get_consts, get_list, initial, run,
}
use chat_bot_hub.Paging.Flow.Laws.{search-requests, search_lost, IsShown, run-IsShown}

middle_of_40 :
    page_range 20 40
    ≡ page 1
      ∷ page 2
      ∷ page 3
      ∷ d1
      ∷ page 17
      ∷ page 18
      ∷ page 19
      ∷ page 20
      ∷ page 21
      ∷ page 22
      ∷ page 23
      ∷ d2
      ∷ page 37
      ∷ page 38
      ∷ page 39
      ∷ []
unfolding page_range folded_range pages marked before after
middle_of_40 = refl

shows-page_range_example :
    shows 40 (page_range 20 40)
    ≡ (leb 1 40 && ltb 40 40 && (leb 40 3 || (leb 20 43 && leb 40 23) || leb 40 43))
shows-page_range_example = shows-page_range 40 20 40 (omega arith)

length-page_range_example : length (page_range 20 40) ≤ 20
length-page_range_example = length-page_range 20 40

abbrev Groups : Type 0
Groups = Chats GroupCriteria ℕ ℕ

abbrev start : Groups
start = initial group_form no_group_criteria

abbrev family : GroupCriteria
family = record { groupname = some "family"; nickname = some ""; kind = some "" }

abbrev answer : Listing GroupCriteria ℕ ℕ
answer = record {
  criteria = no_group_criteria;
  rows = 7;
  page_number = 4;
  pagesize = 50;
  pagecount = 30;
}

search-requests_example :
    (run start (search ∷ typed family ∷ consts_came 0 ∷ [])).1
    ≡ get_consts ∷ get_list (record { criteria = family; page_number = 1; pagesize = 100 }) ∷ []
search-requests_example = search-requests start (family ∷ []) 0

search_lost_example :
    (run start (search ∷ list_came answer ∷ consts_came 0 ∷ [])).1
    ≡ get_consts
      ∷ get_list (record { criteria = no_group_criteria; page_number = 4; pagesize = 50 })
      ∷ []
search_lost_example = search_lost start answer 0

run-IsShown_example : IsShown (run start (jump 3 ∷ list_came answer ∷ search ∷ [])).0
run-IsShown_example =
    run-IsShown start (jump 3 ∷ list_came answer ∷ search ∷ [])
      (record { bounded = omega arith; ascending = tt; within = λ n c e. cc; blank = λ e. refl })
