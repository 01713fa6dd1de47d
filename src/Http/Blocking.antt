-- ===== src/Http/Blocking.antt =====
-- Which elements are blocked: the effects of a run, replayed on the page, against the recorded keys.
use chat_bot_hub.Prelude.{
  String, str_eq, Bool, true, false, ◌≡◌, ◌≢◌, refl, ◌∙◌, ap, sym, inl, inr, List, [], ◌∷◌, ◌++◌,
  arith, Bool-cases, if◌then◌else◌, ℕ, not, ◌&&◌,
}
use chat_bot_hub.Http.{
  Effect, Interceptor, Config, Rejection, has_key, request, remove_block, response, response_error,
  Event, sent, answered, rejected, rearmed, block_target, has_http, no_block, step, run, fresh,
  dequeue,
}
use chat_bot_hub.Http.Replay.{
  blocked_after, blocked_after-append, has_key-add_key, blocked_after-unblock_all,
  on_status-blocked, on_status-keeps,
}

-- The recorded keys tell what is blocked, and nothing is recorded while no request is queued.
pub record IsTracked (s : Interceptor) (page : String → Bool) : Type 0 where
  pub recorded : (id : String) → page id ≡ has_key id s.block_ids
  pub released : s.ajax_queue ≡ [] → s.block_ids ≡ []

abbrev pub replay : (String → Bool) → List Effect → String → Bool
replay page es id = blocked_after id (page id) es

remove_block_parts :
    (armed : Bool) (q ks : List String) (page : String → Bool)
    → ((id : String) → page id ≡ has_key id ks)
    → let s : Interceptor = record { is_show_error = armed; ajax_queue = q; block_ids = ks } in
      IsTracked (remove_block s).0 (replay page (remove_block s).1)
unfolding remove_block
remove_block_parts armed [] ks page h = record {
  recorded = λ id. rw (blocked_after-unblock_all, h id) (unfold has_key in ground arith);
  released = λ e. refl;
}
remove_block_parts armed (u ∷ us) ks page h = record {
  recorded = λ id. unfold blocked_after in h id;
  released = λ e. cc;
}

remove_block-IsTracked :
    (s : Interceptor) (page : String → Bool)
    → ((id : String) → page id ≡ has_key id s.block_ids)
    → IsTracked (remove_block s).0 (replay page (remove_block s).1)
remove_block-IsTracked s page h = remove_block_parts s.is_show_error s.ajax_queue s.block_ids page h

response_error-IsTracked :
    (s : Interceptor) (r : Rejection) (page : String → Bool)
    → ((id : String) → page id ≡ has_key id s.block_ids)
    → IsTracked (response_error s r).0 (replay page (response_error s r).1)
unfolding response_error
response_error-IsTracked s r page h =
    let t = remove_block (record s { ajax_queue = [] }) in
    let tracked = remove_block-IsTracked (record s { ajax_queue = [] }) page h in
    let (same_queue, same_ids) = on_status-keeps t.0 r in
    record {
      recorded = λ id.
          blocked_after-append id (page id) t.1 _
          ∙ on_status-blocked t.0 r id _
          ∙ tracked.recorded id
          ∙ ap (has_key id) (sym same_ids);
      released = λ e. same_ids ∙ tracked.released (sym same_queue ∙ e);
    }

append-cons-ne-nil : (us : List String) (u : String) → us ++ u ∷ [] ≢ []
append-cons-ne-nil [] u e = cc
append-cons-ne-nil (v ∷ us) u e = cc

request-IsTracked :
    (s : Interceptor) (config : Config) (modals : ℕ) (page : String → Bool)
    → IsTracked s page
    → IsTracked (request s config modals).0 (replay page (request s config modals).1)
unfolding request blocked_after
request-IsTracked s config modals page h =
    elim (Bool-cases (has_http config.url && not (no_block config.params))) [
      | inl queued ↦ rw queued (record {
        recorded = λ id.
            ap (λ b. if str_eq target id then true else b) (h.recorded id)
            ∙ sym (has_key-add_key id target s.block_ids);
        released = λ e. absurd (append-cons-ne-nil s.ajax_queue config.url e);
      })
      | inr passed ↦
          rw passed (record {
            recorded = λ id. unfold blocked_after in h.recorded id;
            released = h.released;
          })
    ]
  where
    target : String
    target = block_target config.params modals

step-IsTracked :
    (s : Interceptor) (e : Event) (page : String → Bool)
    → IsTracked s page
    → IsTracked (step s e).0 (replay page (step s e).1)
unfolding step response
step-IsTracked s (sent config modals) page h = request-IsTracked s config modals page h
step-IsTracked s (answered url) page h =
    remove_block-IsTracked (record s { ajax_queue = dequeue url s.ajax_queue }) page h.recorded
step-IsTracked s (rejected r) page h = response_error-IsTracked s r page h.recorded
step-IsTracked s rearmed page h = record {
  recorded = λ id. unfold blocked_after in h.recorded id;
  released = h.released;
}

run-IsTracked :
    (s : Interceptor) (es : List Event) (page : String → Bool)
    → IsTracked s page
    → IsTracked (run s es).0 (replay page (run s es).1)
unfolding run
run-IsTracked s [] page h = record {
  recorded = λ id. unfold blocked_after in h.recorded id;
  released = h.released;
}
run-IsTracked s (e ∷ es) page h =
    let (t, effects) = step s e in
    let r = run-IsTracked t es (replay page effects) (step-IsTracked s e page h) in
    record {
      recorded = λ id. blocked_after-append id (page id) effects _ ∙ r.recorded id;
      released = r.released;
    }

-- In every run of the interceptor from a page with nothing blocked, an element is blocked exactly
-- if its key is recorded, and no element is blocked while no request is queued.
pub run-blocked :
    (es : List Event) (id : String)
    → (blocked_after id false (run fresh es).1 ≡ has_key id (run fresh es).0.block_ids)
      × ((run fresh es).0.ajax_queue ≡ [] → blocked_after id false (run fresh es).1 ≡ false)
run-blocked es id =
    let h =
      run-IsTracked fresh es (λ _. false)
        (record { recorded = λ id. unfold has_key in refl; released = λ e. refl }) in
    (h.recorded id, λ e. h.recorded id ∙ rw (h.released e) (unfold has_key in refl))
