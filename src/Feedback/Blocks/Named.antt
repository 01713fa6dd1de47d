-- ===== src/Feedback/Blocks/Named.antt =====
-- The keys that the interceptors record and the elements that they ask for have names.
use chat_bot_hub.Prelude.{
  ℕ, String, str_eq, Bool, true, false, not, ◌&&◌, Option, none, some, List, [], ◌∷◌, ◌++◌, ◌≡◌,
  refl, ap, ◌∙◌, arith, and_both, and_parts, ◌==◌, if◌then◌else◌, Bool-cases, Option-cases, zero,
  suc, inl, inr,
}
use chat_bot_hub.Http.{
  Interceptor, Params, Effect, block_ui, unblock_ui, remove_token, redirect_later, Event, sent,
  answered, rejected, rearmed, run, step, request, response, response_error, on_status, show_error,
  remove_block, unblock_all, add_key, block_target, dequeue, Rejection, absent, no_status,
  minus_one, status,
}

abbrev pub is_named : String → Bool
is_named id = not (str_eq id "")

unfoldable pub all_named : List String → Bool
all_named [] = true
all_named (id ∷ ids) = is_named id && all_named ids

unfoldable pub has_target : Effect → Bool
has_target (block_ui id) = is_named id
has_target (unblock_ui id) = is_named id
has_target _ = true

unfoldable pub all_targets : List Effect → Bool
all_targets [] = true
all_targets (e ∷ es) = has_target e && all_targets es

all_targets-append :
    (es fs : List Effect) → all_targets (es ++ fs) ≡ (all_targets es && all_targets fs)
unfolding all_targets
all_targets-append [] fs = refl
all_targets-append (e ∷ es) fs = ground (arith, all_targets-append es fs)

all_named-add_key :
    (id : String) (ids : List String)
    → is_named id ≡ true
    → all_named ids ≡ true
    → all_named (add_key id ids) ≡ true
unfolding all_named add_key
all_named-add_key id [] h k = ground (arith, h)
all_named-add_key id (j ∷ ids) h k = ground (arith, all_named-add_key id ids h, h, k)

named-usual : (b : Bool) → is_named (if b then "#container" else "body") ≡ true
named-usual true = refl
named-usual false = refl

named-block_target : (ps : Option Params) (modals : ℕ) → is_named (block_target ps modals) ≡ true
unfolding block_target
named-block_target none modals = named-usual (modals == 0)
named-block_target (some p) modals = elim (Option-cases p.block_id) [
  | inl e ↦ rw (block_target, e) (named-usual (modals == 0))
  | inr (id, e) ↦ elim (Bool-cases (str_eq id "")) [
    | inl blank ↦ rw (block_target, e, blank) (named-usual (modals == 0))
    | inr filled ↦ rw (block_target, e, filled) (ap not filled)
  ]
]

all_targets-unblock_all :
    (ids : List String) → all_named ids ≡ true → all_targets (unblock_all ids) ≡ true
unfolding all_targets unblock_all all_named has_target
all_targets-unblock_all [] h = refl
all_targets-unblock_all (id ∷ ids) h =
    let parts : (is_named id ≡ true) × (all_named ids ≡ true) = and_parts h in
    and_both (parts.0, all_targets-unblock_all ids parts.1)

-- The keys that are recorded stay named, and so are the targets of what is called.
pub record Named (r : Interceptor × List Effect) : Type 0 where
  pub keys : all_named r.0.block_ids ≡ true
  pub targets : all_targets r.1 ≡ true

Named-remove_block : (s : Interceptor) → all_named s.block_ids ≡ true → Named (remove_block s)
unfolding remove_block all_targets all_named
Named-remove_block s h = record {
  keys = ground (arith, h);
  targets = ground (arith, all_targets-unblock_all s.block_ids h);
}

Named-show_error :
    (s : Interceptor) (msg : String) → all_named s.block_ids ≡ true → Named (show_error s msg)
unfolding show_error all_targets has_target
Named-show_error s msg h = record { keys = ground (arith, h); targets = ground arith }

Named-denied :
    (s : Interceptor) (msg : String)
    → all_named s.block_ids ≡ true
    → all_targets ((show_error s msg).1 ++ remove_token ∷ redirect_later "#/app/user/login" ∷ [])
      ≡ true
unfolding all_targets has_target
Named-denied s msg h =
    all_targets-append (show_error s msg).1 (remove_token ∷ redirect_later "#/app/user/login" ∷ [])
    ∙ and_both ((Named-show_error s msg h).targets, refl)

Named-on_status :
    (s : Interceptor) (r : Rejection)
    → all_named s.block_ids ≡ true
    → Named ((on_status s r).0, (on_status s r).1)
unfolding on_status all_targets
Named-on_status s absent h = Named-show_error s "未知错误" h
Named-on_status s no_status h = Named-show_error s "未知错误" h
Named-on_status s minus_one h = Named-show_error s "请联系管理员,或没有网络" h
Named-on_status s (status zero) h = Named-show_error s "未知错误" h
Named-on_status s (status (suc n)) h =
    let shown = Named-show_error s "找不到指定的url" h in
    let failed = Named-show_error s "服务器内部错误" h in
    let denied = Named-show_error s "未登录" h in
    record {
      keys = ground (arith, shown.keys, failed.keys, denied.keys, h);
      targets = ground (arith, shown.targets, failed.targets, Named-denied s "未登录" h);
    }

Named-step : (s : Interceptor) (e : Event) → all_named s.block_ids ≡ true → Named (step s e)
unfolding step response request response_error all_targets has_target
Named-step s (sent c modals) h = record {
  keys = ground (
    arith,
    h,
    all_named-add_key (block_target c.params modals) s.block_ids
        (named-block_target c.params modals) h,
  );
  targets = ground (arith, named-block_target c.params modals);
}
Named-step s (answered url) h =
    Named-remove_block (record s { ajax_queue = dequeue url s.ajax_queue }) h
Named-step s (rejected r) h =
    let cleared = Named-remove_block (record s { ajax_queue = [] }) h in
    let t = remove_block (record s { ajax_queue = [] }) in
    let seen = Named-on_status t.0 r cleared.keys in
    record {
      keys = seen.keys;
      targets =
          all_targets-append t.1 (on_status t.0 r).1 ∙ and_both (cleared.targets, seen.targets);
    }
Named-step s rearmed h = record { keys = h; targets = refl }

pub Named-run :
    (es : List Event) (s : Interceptor) → all_named s.block_ids ≡ true → Named (run s es)
unfolding run
Named-run [] s h = record { keys = h; targets = unfold all_targets in refl }
Named-run (e ∷ es) s h =
    let one = Named-step s e h in
    let more = Named-run es (step s e).0 one.keys in
    record {
      keys = more.keys;
      targets =
          all_targets-append (step s e).1 (run (step s e).0 es).1
          ∙ and_both (one.targets, more.targets);
    }
