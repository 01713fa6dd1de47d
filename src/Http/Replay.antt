-- ===== src/Http/Replay.antt =====
-- The effects of the interceptors, replayed on an element of the page.
use chat_bot_hub.Prelude.{
  String, str_eq, eq_iff, Bool, true, false, ◌≡◌, refl, ◌∙◌, List, [], ◌∷◌, ◌++◌, arith,
  if◌then◌else◌, zero, suc,
}
use chat_bot_hub.Http.{
  Effect, block_ui, unblock_ui, remove_token, redirect_later, Interceptor, Rejection, absent,
  no_status, minus_one, status, has_key, add_key, unblock_all, show_error, on_status,
}

-- Whether an element is blocked after some effects.
abbrev pub effect_on : String → Bool → Effect → Bool
effect_on id b (block_ui j) = if str_eq j id then true else b
effect_on id b (unblock_ui j) = if str_eq j id then false else b
effect_on id b _ = b

unfoldable pub blocked_after : String → Bool → List Effect → Bool
blocked_after id b [] = b
blocked_after id b (e ∷ es) = blocked_after id (effect_on id b e) es

pub blocked_after-append :
    (id : String) (b : Bool) (es fs : List Effect)
    → blocked_after id b (es ++ fs) ≡ blocked_after id (blocked_after id b es) fs
unfolding blocked_after
blocked_after-append id b [] fs = refl
blocked_after-append id b (e ∷ es) fs = blocked_after-append id (effect_on id b e) es fs

pub has_key-add_key :
    (id k : String) (ks : List String)
    → has_key id (add_key k ks) ≡ (if str_eq k id then true else has_key id ks)
unfolding has_key add_key
has_key-add_key id k [] = refl
has_key-add_key id k (j ∷ js) =
    ground (arith, eq_iff k id, eq_iff j k, eq_iff j id, has_key-add_key id k js)

blocked_after-false :
    (id : String) (ks : List String) → blocked_after id false (unblock_all ks) ≡ false
unfolding blocked_after unblock_all
blocked_after-false id [] = refl
blocked_after-false id (k ∷ ks) = ground (arith, blocked_after-false id ks)

pub blocked_after-unblock_all :
    (id : String) (b : Bool) (ks : List String)
    → blocked_after id b (unblock_all ks) ≡ (if has_key id ks then false else b)
unfolding blocked_after unblock_all has_key
blocked_after-unblock_all id b [] = refl
blocked_after-unblock_all id b (k ∷ ks) =
    ground (arith, blocked_after-unblock_all id b ks, blocked_after-false id ks)

-- Errors leave the blocked elements alone.
show_error-blocked :
    (s : Interceptor) (msg id : String) (b : Bool) → blocked_after id b (show_error s msg).1 ≡ b
unfolding show_error blocked_after
show_error-blocked s msg id b = ground arith

show_error-keeps :
    (s : Interceptor) (msg : String)
    → ((show_error s msg).0.ajax_queue ≡ s.ajax_queue)
      × ((show_error s msg).0.block_ids ≡ s.block_ids)
unfolding show_error
show_error-keeps s msg = ground arith

nothing-blocked : (id : String) (b : Bool) → blocked_after id b [] ≡ b
unfolding blocked_after
nothing-blocked id b = refl

denied-blocked :
    (s : Interceptor) (id : String) (b : Bool)
    → blocked_after id b
        ((show_error s "未登录").1 ++ remove_token ∷ redirect_later "#/app/user/login" ∷ [])
      ≡ b
denied-blocked s id b =
    blocked_after-append id b (show_error s "未登录").1 _
    ∙ unfold blocked_after in show_error-blocked s "未登录" id b

pub on_status-blocked :
    (s : Interceptor) (r : Rejection) (id : String) (b : Bool)
    → blocked_after id b (on_status s r).1 ≡ b
unfolding on_status
on_status-blocked s absent id b = show_error-blocked s _ id b
on_status-blocked s no_status id b = show_error-blocked s _ id b
on_status-blocked s minus_one id b = show_error-blocked s _ id b
on_status-blocked s (status zero) id b = show_error-blocked s _ id b
on_status-blocked s (status (suc n)) id b = ground (
  arith,
  show_error-blocked s "找不到指定的url" id b,
  show_error-blocked s "服务器内部错误" id b,
  denied-blocked s id b,
  nothing-blocked id b,
)

pub on_status-keeps :
    (s : Interceptor) (r : Rejection)
    → ((on_status s r).0.ajax_queue ≡ s.ajax_queue) × ((on_status s r).0.block_ids ≡ s.block_ids)
unfolding on_status
on_status-keeps s absent = show_error-keeps s _
on_status-keeps s no_status = show_error-keeps s _
on_status-keeps s minus_one = show_error-keeps s _
on_status-keeps s (status zero) = show_error-keeps s _
on_status-keeps s (status (suc n)) =
    ground (
      arith,
      show_error-keeps s "找不到指定的url",
      show_error-keeps s "服务器内部错误",
      show_error-keeps s "未登录",
    )
