-- ===== src/Paging/Flow.antt =====
-- The controllers of the two contact lists: `search`, `initView`, `jump` and the answers of the
-- server, in frontend/static/app/manage/controller/chatusersCtrl.js and chatgroupsCtrl.js.
pub mod Laws
use chat_bot_hub.Prelude.{ℕ, zero, suc, String, Option, none, some, List, [], ◌∷◌, ◌++◌}
use chat_bot_hub.Paging.{Slot, page_range}

-- The criteria of `chatusersCtrl`; a missing field is `undefined`.
pub record UserCriteria : Type 0 where
  pub username : Option String
  pub nickname : Option String
  pub kind : Option String
  pub botid : Option String

abbrev pub user_form : UserCriteria
user_form = record { username = some ""; nickname = some ""; kind = some ""; botid = some "" }

abbrev pub no_user_criteria : UserCriteria
no_user_criteria = record { username = none; nickname = none; kind = none; botid = none }

-- The criteria of `chatgroupsCtrl`.
pub record GroupCriteria : Type 0 where
  pub groupname : Option String
  pub nickname : Option String
  pub kind : Option String

abbrev pub group_form : GroupCriteria
group_form = record { groupname = some ""; nickname = some ""; kind = some "" }

abbrev pub no_group_criteria : GroupCriteria
no_group_criteria = record { groupname = none; nickname = none; kind = none }

-- `C` are the criteria, `D` the rows, `K` the constants of the server.
module _ (C D K : Type 0) where
  -- What `$scope.body.criteria` is: the very object of the search form, or one of its own.
  pub data Source : Type 0 where
    form_object : Source
    own : C → Source

  pub record Chats : Type 0 where
    pub criteria : C
    pub source : Source
    pub rows : Option D
    pub page_number : Option ℕ
    pub pagesize : Option ℕ
    pub pagecount : Option ℕ
    pub pagerange : List Slot
    pub consts : Option K

  pub record Query : Type 0 where
    pub criteria : C
    pub page_number : ℕ
    pub pagesize : ℕ

  pub data Request : Type 0 where
    get_consts : Request
    get_list : Query → Request

  -- An answer of the server: `data.body` and `data.paging`.
  pub record Listing : Type 0 where
    pub criteria : C
    pub rows : D
    pub page_number : ℕ
    pub pagesize : ℕ
    pub pagecount : ℕ

  -- What happens to the controller: the user types, searches or chooses a page, the server
  -- answers or fails.
  pub data Event : Type 0 where
    typed : C → Event
    search : Event
    jump : ℕ → Event
    consts_came : K → Event
    list_came : Listing → Event
    failed : Event

-- `v ? v : d`, where 0 counts as missing.
abbrev pub or_else : Option ℕ → ℕ → ℕ
or_else none d = d
or_else (some zero) d = d
or_else (some (suc n)) d = suc n

module _ {C D K : Type 0} where
  abbrev pub current : Chats C D K → Source C D K → C
  current s form_object = s.criteria
  current s (own c) = c

  pub send_jump : Chats C D K → ℕ → Chats C D K × List (Request C D K)
  send_jump s i = (
    s,
    get_list (record {
      criteria = current s s.source;
      page_number = i;
      pagesize = or_else s.pagesize 100;
    })
        ∷ [],
  )

  pub init_view : Chats C D K → Chats C D K × List (Request C D K)
  init_view s = (s, get_consts ∷ [])

  pub receive : Chats C D K → Listing C D K → Chats C D K
  receive s d = record s {
    source = own d.criteria;
    rows = some d.rows;
    page_number = some d.page_number;
    pagesize = some d.pagesize;
    pagecount = some d.pagecount;
    pagerange = page_range d.page_number d.pagecount;
  }

  pub step : Chats C D K → Event C D K → Chats C D K × List (Request C D K)
  unfolding send_jump init_view receive
  step s (typed c) = (record s { criteria = c }, [])
  step s search = init_view (record s { source = form_object; page_number = some 1 })
  step s (jump i) = send_jump s i
  step s (consts_came k) = send_jump (record s { consts = some k }) (or_else s.page_number 1)
  step s (list_came d) = (receive s d, [])
  step s failed = (s, [])

  -- A run: the last state, and all requests in the order in which they are sent.
  pub run : Chats C D K → List (Event C D K) → Chats C D K × List (Request C D K)
  run s [] = (s, [])
  run s (e ∷ es) = let (t, sent) = step s e in let (u, later) = run t es in (u, sent ++ later)

abbrev pub initial : {C D K : Type 0} → C → C → Chats C D K
initial form missing = record {
  criteria = form;
  source = own missing;
  rows = none;
  page_number = none;
  pagesize = none;
  pagecount = none;
  pagerange = [];
  consts = none;
}
