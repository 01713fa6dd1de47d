-- ===== src/Http.antt =====
-- The HTTP interceptors of frontend/static/app/app.config.js: the queue of pending requests, the
-- blocked elements, and the error messages. Calls of `toastr`, `block`, `cfpLoadingBar`,
-- `$window` and `$timeout` are the effects that a handler lists, in order.
pub mod Queue
pub mod Blocking
pub mod Replay
pub mod Errors
mod Tests
use text.Mathlib.Text.{find?}
use chat_bot_hub.Prelude.{
  ℕ, zero, suc, ◌+◌, String, str_eq, Bool, true, false, not, ◌&&◌, Option, none, some, List, [],
  ◌∷◌, ◌++◌, leb, ◌==◌, if◌then◌else◌,
}

-- `config.params`, where it is given.
pub record Params : Type 0 where
  pub no_block : Bool
  pub block_id : Option String

pub record Config : Type 0 where
  pub url : String
  pub params : Option Params
  pub block_id : Option String

-- What a handler calls.
pub data Effect : Type 0 where
  toast_error : String → Effect
  complete_bar : Effect
  block_ui unblock_ui : String → Effect
  remove_token : Effect
  redirect_later : String → Effect
  rearm_later : Effect

-- The variables of the closure. The keys of `blockIdQueue` are a list without repetitions.
pub record Interceptor : Type 0 where
  pub is_show_error : Bool
  pub ajax_queue : List String
  pub block_ids : List String

abbrev pub fresh : Interceptor
fresh = record { is_show_error = true; ajax_queue = []; block_ids = [] }

unfoldable pub has_key : String → List String → Bool
has_key k [] = false
has_key k (j ∷ js) = if str_eq j k then true else has_key k js

-- `blockIdQueue[k] = 1`.
unfoldable pub add_key : String → List String → List String
add_key k [] = k ∷ []
add_key k (j ∷ js) = if str_eq j k then j ∷ js else j ∷ add_key k js

-- `url.indexOf('http') > -1`.
unfoldable pub has_http : String → Bool
has_http url = elim (find? url "http") [ none ↦ false | some _ ↦ true ]

-- `config.params && config.params.noBlock`.
abbrev pub no_block : Option Params → Bool
no_block none = false
no_block (some p) = p.no_block

-- The element to block: the one that is named, else the open dialog's body or the container. The
-- empty text counts as missing. `modals` is `$body.children('.modal').length`.
unfoldable pub block_target : Option Params → ℕ → String
block_target none modals = if modals == 0 then "#container" else "body"
block_target (some p) modals = elim p.block_id [
  | none ↦ if modals == 0 then "#container" else "body"
  | some id ↦ if str_eq id "" then (if modals == 0 then "#container" else "body") else id
]

-- The handler `request`.
unfoldable pub request : Interceptor → Config → ℕ → Interceptor × List Effect × Config
request s config modals =
    let id = block_target config.params modals in
    if has_http config.url && not (no_block config.params)
    then (
      record s { ajax_queue = s.ajax_queue ++ config.url ∷ []; block_ids = add_key id s.block_ids },
      block_ui id ∷ [],
      record config { block_id = some id },
    )
    else (s, [], config)

-- `queue.indexOf(url)`; `none` is -1.
unfoldable pub index_of : String → List String → Option ℕ
index_of url [] = none
index_of url (u ∷ us) =
    let later : Option ℕ = elim (index_of url us) [ none ↦ none | some i ↦ some (suc i) ] in
    if str_eq u url then some 0 else later

-- `queue.splice(i, 1)` at an index of the queue.
unfoldable pub splice : List String → ℕ → List String
splice [] i = []
splice (u ∷ us) zero = us
splice (u ∷ us) (suc i) = u ∷ splice us i

-- `queue.splice(-1, 1)`: a negative start counts from the end.
unfoldable pub splice_last : List String → List String
splice_last [] = []
splice_last (u ∷ []) = []
splice_last (u ∷ v ∷ us) = u ∷ splice_last (v ∷ us)

unfoldable pub dequeue : String → List String → List String
dequeue url q = elim (index_of url q) [ none ↦ splice_last q | some i ↦ splice q i ]

unfoldable pub unblock_all : List String → List Effect
unblock_all [] = []
unblock_all (id ∷ ids) = unblock_ui id ∷ unblock_all ids

unfoldable pub remove_block : Interceptor → Interceptor × List Effect
remove_block s = elim s.ajax_queue [
  | [] ↦ (record s { block_ids = [] }, unblock_all s.block_ids)
  | _ ∷ _ ↦ (s, [])
]

-- The handler `response`.
unfoldable pub response : Interceptor → String → Interceptor × List Effect
response s url = remove_block (record s { ajax_queue = dequeue url s.ajax_queue })

-- A rejection: none, with a missing or zero status, or with a status.
pub data Rejection : Type 0 where
  absent : Rejection
  no_status : Rejection
  minus_one : Rejection
  status : ℕ → Rejection

-- What `$q.reject` is given: the empty text, or the rejection itself.
pub data Rejected : Type 0 where
  empty_text : Rejected
  same : Rejection → Rejected

unfoldable pub show_error : Interceptor → String → Interceptor × List Effect
show_error s msg =
    if s.is_show_error
    then (record s { is_show_error = false }, toast_error msg ∷ rearm_later ∷ complete_bar ∷ [])
    else (s, [])

-- The branches on the status, once the queue is cleared.
unfoldable pub on_status : Interceptor → Rejection → Interceptor × List Effect × Rejected
on_status s (status zero) = let (t, shown) = show_error s "未知错误" in (t, shown, empty_text)
on_status s (status (suc n)) =
    let code = suc n in
    let (t, shown) = show_error s "找不到指定的url" in
    let (u, failed) = show_error s "服务器内部错误" in
    let (v, denied) = show_error s "未登录" in
    if code == 404
    then (t, shown, same (status code))
    else if leb 500 code
    then (u, failed, same (status code))
    else if code == 403
    then (v, denied ++ remove_token ∷ redirect_later "#/app/user/login" ∷ [], same (status code))
    else (s, [], same (status code))
on_status s minus_one = let (t, shown) = show_error s "请联系管理员,或没有网络" in (t, shown, same minus_one)
on_status s _ = let (t, shown) = show_error s "未知错误" in (t, shown, empty_text)

-- The handler `responseError`.
unfoldable pub response_error : Interceptor → Rejection → Interceptor × List Effect × Rejected
response_error s r =
    let (t, unblocked) = remove_block (record s { ajax_queue = [] }) in
    let (u, shown, rejected) = on_status t r in (u, unblocked ++ shown, rejected)

-- What happens to the interceptor: requests, answers, and the timer of `timeoutShowError`.
pub data Event : Type 0 where
  sent : Config → ℕ → Event
  answered : String → Event
  rejected : Rejection → Event
  rearmed : Event

unfoldable pub step : Interceptor → Event → Interceptor × List Effect
step s (sent config modals) = let (t, effects, c) = request s config modals in (t, effects)
step s (answered url) = response s url
step s (rejected r) = let (t, effects, q) = response_error s r in (t, effects)
step s rearmed = (record s { is_show_error = true }, [])

unfoldable pub run : Interceptor → List Event → Interceptor × List Effect
run s [] = (s, [])
run s (e ∷ es) = let (t, effects) = step s e in let (u, later) = run t es in (u, effects ++ later)
