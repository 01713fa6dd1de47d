-- ===== src/Http/Errors.antt =====
-- What a failed request does: which message, redirection and result, and how often messages appear.
use chat_bot_hub.Prelude.{
  ℕ, zero, suc, ◌+◌, ◌≤◌, String, Bool, true, false, ◌&&◌, ◌||◌, ◌≡◌, refl, ◌∙◌, List, [], ◌∷◌,
  ◌++◌, arith, leb, ◌==◌, if◌then◌else◌,
}
use chat_bot_hub.Http.{
  Effect, toast_error, remove_token, redirect_later, Interceptor, Config, Rejection, absent,
  no_status, minus_one, status, Rejected, empty_text, same, request, response, unblock_all,
  remove_block, show_error, on_status, response_error, Event, sent, answered, rejected, rearmed,
  step, run, dequeue,
}

abbrev pub toast : Effect → ℕ
toast (toast_error msg) = 1
toast _ = 0

abbrev pub redirection : Effect → ℕ
redirection (redirect_later url) = 1
redirection _ = 0

-- A number summed over effects.
unfoldable pub total : (Effect → ℕ) → List Effect → ℕ
total f [] = 0
total f (e ∷ es) = f e + total f es

total-append : (f : Effect → ℕ) (es fs : List Effect) → total f (es ++ fs) ≡ total f es + total f fs
unfolding total
total-append f [] fs = omega arith
total-append f (e ∷ es) fs = omega (arith, total-append f es fs)

toast-unblock_all : (ids : List String) → total toast (unblock_all ids) ≡ 0
unfolding total unblock_all
toast-unblock_all [] = refl
toast-unblock_all (id ∷ ids) = omega (arith, toast-unblock_all ids)

redirection-unblock_all : (ids : List String) → total redirection (unblock_all ids) ≡ 0
unfolding total unblock_all
redirection-unblock_all [] = refl
redirection-unblock_all (id ∷ ids) = omega (arith, redirection-unblock_all ids)

-- The statuses that have a message.
abbrev pub has_message : Rejection → Bool
has_message (status n) = n == 0 || n == 404 || leb 500 n || n == 403
has_message _ = true

abbrev pub is_denied : Rejection → Bool
is_denied (status n) = n == 403
is_denied _ = false

-- What the caller's promise is rejected with.
abbrev pub rejection : Rejection → Rejected
rejection absent = empty_text
rejection no_status = empty_text
rejection minus_one = same minus_one
rejection (status zero) = empty_text
rejection (status (suc n)) = same (status (suc n))

total-show_error :
    (s : Interceptor) (msg : String)
    → (total toast (show_error s msg).1 ≡ (if s.is_show_error then 1 else 0))
      × (total redirection (show_error s msg).1 ≡ 0)
      × ((show_error s msg).0.is_show_error ≡ false)
unfolding total show_error
total-show_error s msg = ground arith

total-denied :
    (s : Interceptor)
    → (total toast ((show_error s "未登录").1 ++ remove_token ∷ redirect_later "#/app/user/login" ∷ [])
        ≡ (if s.is_show_error then 1 else 0))
      × (total redirection
            ((show_error s "未登录").1 ++ remove_token ∷ redirect_later "#/app/user/login" ∷ [])
          ≡ 1)
total-denied s =
    let h = total-show_error s "未登录" in
    (
      total-append toast (show_error s "未登录").1 _ ∙ unfold total in (omega (arith, h.0)),
      total-append redirection (show_error s "未登录").1 _ ∙ unfold total in (omega (arith, h.1)),
    )

nothing_shown : (f : Effect → ℕ) → total f [] ≡ 0
unfolding total
nothing_shown f = refl

total-on_status :
    (s : Interceptor) (r : Rejection)
    → (total toast (on_status s r).1 ≡ (if s.is_show_error && has_message r then 1 else 0))
      × (total redirection (on_status s r).1 ≡ (if is_denied r then 1 else 0))
      × ((on_status s r).2 ≡ rejection r)
unfolding on_status
total-on_status s absent = ground (arith, total-show_error s "未知错误")
total-on_status s no_status = ground (arith, total-show_error s "未知错误")
total-on_status s minus_one = ground (arith, total-show_error s "请联系管理员,或没有网络")
total-on_status s (status zero) = ground (arith, total-show_error s "未知错误")
total-on_status s (status (suc n)) = ground (
  arith,
  total-show_error s "找不到指定的url",
  total-show_error s "服务器内部错误",
  total-denied s,
  nothing_shown toast,
  nothing_shown redirection,
)

total-remove_block :
    (s : Interceptor)
    → (total toast (remove_block s).1 ≡ 0)
      × (total redirection (remove_block s).1 ≡ 0)
      × ((remove_block s).0.is_show_error ≡ s.is_show_error)
unfolding remove_block
total-remove_block s = ground (
  arith,
  toast-unblock_all s.block_ids,
  redirection-unblock_all s.block_ids,
  nothing_shown toast,
  nothing_shown redirection,
)

-- What a failed request does, on every branch: it shows one message if messages are armed and the
-- status has one, redirects to the login page exactly if the status is 403, and rejects with the
-- empty text if there is no status, with the rejection itself otherwise.
pub response_error_lem :
    (s : Interceptor) (r : Rejection)
    → (total toast (response_error s r).1 ≡ (if s.is_show_error && has_message r then 1 else 0))
      × (total redirection (response_error s r).1 ≡ (if is_denied r then 1 else 0))
      × ((response_error s r).2 ≡ rejection r)
unfolding response_error
response_error_lem s r =
    let cleared : Interceptor = record s { ajax_queue = [] } in
    let t = remove_block cleared in
    ground (
      arith,
      total-append toast t.1 (on_status t.0 r).1,
      total-append redirection t.1 (on_status t.0 r).1,
      total-remove_block cleared,
      total-on_status t.0 r,
    )

-- How often the timer of `timeoutShowError` fires.
unfoldable pub rearms : List Event → ℕ
rearms [] = 0
rearms (rearmed ∷ es) = suc (rearms es)
rearms (_ ∷ es) = rearms es

abbrev pub armed : Interceptor → ℕ
armed s = if s.is_show_error then 1 else 0

armed-on_status :
    (s : Interceptor) (r : Rejection)
    → total toast (on_status s r).1 + armed (on_status s r).0 ≤ armed s
unfolding on_status
armed-on_status s absent = ground (arith, total-show_error s "未知错误")
armed-on_status s no_status = ground (arith, total-show_error s "未知错误")
armed-on_status s minus_one = ground (arith, total-show_error s "请联系管理员,或没有网络")
armed-on_status s (status zero) = ground (arith, total-show_error s "未知错误")
armed-on_status s (status (suc n)) = ground (
  arith,
  total-show_error s "找不到指定的url",
  total-show_error s "服务器内部错误",
  total-show_error s "未登录",
  total-denied s,
  nothing_shown toast,
)

armed-response_error :
    (s : Interceptor) (r : Rejection)
    → total toast (response_error s r).1 + armed (response_error s r).0 ≤ armed s
unfolding response_error
armed-response_error s r =
    let cleared : Interceptor = record s { ajax_queue = [] } in
    let t = remove_block cleared in
    ground (
      arith,
      total-append toast t.1 (on_status t.0 r).1,
      total-remove_block cleared,
      armed-on_status t.0 r,
    )

armed-request :
    (s : Interceptor) (c : Config) (modals : ℕ)
    → total toast (request s c modals).1 + armed (request s c modals).0 ≤ armed s
unfolding request total
armed-request s c modals = ground arith

armed-response :
    (s : Interceptor) (url : String)
    → total toast (response s url).1 + armed (response s url).0 ≤ armed s
unfolding response
armed-response s url =
    ground (arith, total-remove_block (record s { ajax_queue = dequeue url s.ajax_queue }))

-- In every run at most one message is shown before the timer first fires, and at most one more for
-- each time that it fires.
pub toasts-run :
    (s : Interceptor) (es : List Event) → total toast (run s es).1 ≤ rearms es + armed s
unfolding run step rearms
toasts-run s [] = ground (arith, nothing_shown toast)
toasts-run s (sent c modals ∷ es) = omega (
  arith,
  total-append toast (request s c modals).1 (run (request s c modals).0 es).1,
  armed-request s c modals,
  toasts-run (request s c modals).0 es,
)
toasts-run s (answered url ∷ es) = omega (
  arith,
  total-append toast (response s url).1 (run (response s url).0 es).1,
  armed-response s url,
  toasts-run (response s url).0 es,
)
toasts-run s (rejected r ∷ es) = omega (
  arith,
  total-append toast (response_error s r).1 (run (response_error s r).0 es).1,
  armed-response_error s r,
  toasts-run (response_error s r).0 es,
)
toasts-run s (rearmed ∷ es) = ground (arith, toasts-run (record s { is_show_error = true }) es)
