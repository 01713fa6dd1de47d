-- ===== src/Traffic/Queued.antt =====
-- Which requests are queued, and what the answer to one that is not does to the queue.
use chat_bot_hub.Prelude.{
  ℕ, String, str_eq, ◌++◌, true, false, Bool-cases, inl, inr, eq_iff, none, some, List, [], ◌∷◌,
  Object, ◌≡◌, refl, ap, sym, ◌∙◌, if◌then◌else◌,
}
use mathlib.Core.Bool.{true≢false}
use chat_bot_hub.Js.{end, truthy, get_field}
use chat_bot_hub.Service.{
  Location, build_url, urls, Call, build_model, build_promise, resource, calls,
}
use chat_bot_hub.Service.Urls.{has, build_promise-build_model}
use chat_bot_hub.Http.{
  Config, Event, sent, answered, Interceptor, fresh, Effect, block_ui, unblock_ui, has_http,
  block_target, request, add_key, response, dequeue, index_of, splice_last, remove_block,
  unblock_all, step, run,
}
use chat_bot_hub.Dialogs.Submit.{Data, Sent, save, typed, text_of}
use chat_bot_hub.Dialogs.Submit.Laws.{Editor, editing}
use chat_bot_hub.Traffic.{of_call, of_sent, param}
use chat_bot_hub.Traffic.Protocol.{IsHttp, has_http-build_url}

-- The request that a list page makes by `buildPromise(buildModel(key))`.
abbrev pub list_call : Location → String → Call
list_call loc key = record {
  method = "GET";
  url = if has key (urls loc) then some (build_url loc key) else none;
  defaults = end;
  params = end;
}

list_call-build_promise :
    (loc : Location) (key : String)
    → build_promise (resource (build_model loc key end []).0) end none ≡ calls (list_call loc key)
list_call-build_promise loc key = (build_promise-build_model loc key end end).1

-- A list page's request is queued, and blocks the element that it would block without parameters.
request-list_call :
    (loc : Location) (key : String) (s : Interceptor) (modals : ℕ)
    → IsHttp loc
    → has key (urls loc) ≡ true
    → step s (sent (of_call (list_call loc key)) modals) ≡ (
      record s {
        ajax_queue = s.ajax_queue ++ build_url loc key ∷ [];
        block_ids = add_key (block_target none modals) s.block_ids;
      },
      block_ui (block_target none modals) ∷ [],
    )
unfolding step request of_call param get_field truthy block_target text_of
request-list_call loc key s modals h k =
    rw (step, request, of_call, k, has_http-build_url loc key h) refl

-- A request whose url lacks "http" passes without a trace.
request_unqueued :
    (c : Config) (s : Interceptor) (modals : ℕ)
    → has_http c.url ≡ false
    → step s (sent c modals) ≡ (s, [])
unfolding step request
request_unqueued c s modals h = rw (step, request, h) refl

-- Texts of which one holds "http" and the other does not are different.
http_differ : (u v : String) → has_http u ≡ true → has_http v ≡ false → str_eq u v ≡ false
http_differ u v h k = elim (Bool-cases (str_eq u v)) [
  | inr differ ↦ differ
  | inl same ↦ absurd (true≢false (sym h ∙ ap has_http ((eq_iff u v).0 same) ∙ k))
]

-- The state in which one request is queued and one element blocked.
abbrev waiting : String → String → Interceptor
waiting url id = record { is_show_error = true; ajax_queue = url ∷ []; block_ids = id ∷ [] }

-- The answer to it removes the only queued request, and unblocks everything.
answered_unqueued :
    (u v id : String)
    → str_eq u v ≡ false
    → step (waiting u id) (answered v) ≡ (fresh, unblock_ui id ∷ [])
unfolding step response dequeue index_of splice_last remove_block unblock_all
answered_unqueued u v id d = rw (step, response, dequeue, index_of, d) refl

run_three :
    (s t u v : Interceptor) (a b c : Event) (f g h : List Effect)
    → step s a ≡ (t, f)
    → step t b ≡ (u, g)
    → step u c ≡ (v, h)
    → run s (a ∷ b ∷ c ∷ []) ≡ (v, f ++ (g ++ (h ++ [])))
unfolding run
run_three s t u v a b c f g h p q r = rw (p, q, r) refl

-- While a list page waits for its first answer, the answer to a save from a dialog unblocks the
-- page: the list's request is queued and the save's is not, so that its answer takes the list's
-- place in the queue.
pub save_releases :
    (loc : Location) (key : String) (e : Editor) (row : Data) (edits : Object String) (modals : ℕ)
    → IsHttp loc
    → has key (urls loc) ≡ true
    → has_http (save (typed edits (editing e row))).1.url ≡ false
    → (build_promise (resource (build_model loc key end []).0) end none ≡ calls (list_call loc key))
      × (run fresh (
            sent (of_call (list_call loc key)) 0
            ∷ sent (of_sent (save (typed edits (editing e row))).1) modals
            ∷ answered (save (typed edits (editing e row))).1.url
            ∷ [])
          ≡ (fresh, block_ui "#container" ∷ unblock_ui "#container" ∷ []))
unfolding add_key block_target of_sent
save_releases loc key e row edits modals h k n =
    let saved : Sent = (save (typed edits (editing e row))).1 in
    (
      list_call-build_promise loc key,
      run_three fresh (waiting (build_url loc key) "#container")
          (waiting (build_url loc key) "#container") fresh _ _ _ _ _ _
          (request-list_call loc key fresh 0 h k)
          (request_unqueued (of_sent saved) (waiting (build_url loc key) "#container") modals n)
          (answered_unqueued (build_url loc key) saved.url "#container"
            (http_differ (build_url loc key) saved.url (has_http-build_url loc key h) n)),
    )
