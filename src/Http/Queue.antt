-- ===== src/Http/Queue.antt =====
-- The queue of pending requests: what a response removes from it.
use chat_bot_hub.Prelude.{
  ℕ, suc, ◌+◌, ◌<◌, String, str_eq, eq_iff, true, false, not, ◌&&◌, ◌≡◌, refl, ◌∙◌, ap, inl, inr,
  none, some, List, [], ◌∷◌, ◌++◌, arith, Bool-cases, if◌then◌else◌,
}
use chat_bot_hub.Http.{
  Interceptor, Config, index_of, splice, splice_last, dequeue, remove_block, response, unblock_all,
  Event, sent, answered, rejected, rearmed, request, step, run, has_http, no_block,
}

-- How often a text stands in a list.
unfoldable pub count : String → List String → ℕ
count u [] = 0
count u (v ∷ vs) = (if str_eq v u then 1 else 0) + count u vs

count-append : (u : String) (xs ys : List String) → count u (xs ++ ys) ≡ count u xs + count u ys
unfolding count
count-append u [] ys = omega arith
count-append u (x ∷ xs) ys = omega (arith, count-append u xs ys)

index_of-none : (url : String) (q : List String) → count url q ≡ 0 → index_of url q ≡ none
unfolding count index_of
index_of-none url [] h = refl
index_of-none url (u ∷ us) h = ground (arith, index_of-none url us)

index_of-some :
    (url : String) (q : List String) → 0 < count url q → (i : ℕ) × (index_of url q ≡ some i)
unfolding count index_of
index_of-some url [] h = absurd (omega arith)
index_of-some url (u ∷ us) h = elim (Bool-cases (str_eq u url)) [
  | inl same ↦ (0, rw same)
  | inr other ↦ let (i, e) = index_of-some url us (ground arith) in (suc i, ground arith)
]

dequeue_same : (url v : String) (vs : List String) → str_eq v url ≡ true → dequeue url (v ∷ vs) ≡ vs
unfolding dequeue index_of splice
dequeue_same url v vs h = ground arith

dequeue_other :
    (url v : String) (vs : List String)
    → str_eq v url ≡ false
    → 0 < count url vs
    → dequeue url (v ∷ vs) ≡ v ∷ dequeue url vs
unfolding dequeue index_of splice
dequeue_other url v vs h pending = let (i, e) = index_of-some url vs pending in ground arith

-- A queued request is removed once, and no other.
pub count-dequeue :
    (url u : String) (q : List String)
    → 0 < count url q
    → count u (dequeue url q) + (if str_eq url u then 1 else 0) ≡ count u q
unfolding count
count-dequeue url u [] h = absurd (omega arith)
count-dequeue url u (v ∷ vs) h = elim (Bool-cases (str_eq v url)) [
  | inl same ↦
      rw (dequeue_same url v vs same) (ground (arith, eq_iff v url, eq_iff v u, eq_iff url u))
  | inr other ↦
      let pending : 0 < count url vs = ground arith in
      rw (dequeue_other url v vs other pending) (ground (arith, count-dequeue url u vs pending))
]

splice_last-append : (q : List String) (u : String) → splice_last (q ++ u ∷ []) ≡ q
unfolding splice_last
splice_last-append [] u = refl
splice_last-append (v ∷ []) u = refl
splice_last-append (v ∷ w ∷ q) u = ap (v ∷◌) (splice_last-append (w ∷ q) u)

remove_block-queue : (s : Interceptor) → (remove_block s).0.ajax_queue ≡ s.ajax_queue
unfolding remove_block
remove_block-queue s = ground arith

dequeue_unqueued :
    (url u : String) (q : List String) → count url (q ++ u ∷ []) ≡ 0 → dequeue url (q ++ u ∷ []) ≡ q
unfolding dequeue
dequeue_unqueued url u q h =
    rw (index_of-none url (q ++ u ∷ []) h, dequeue) (splice_last-append q u)

response-empty :
    (s : Interceptor) (url : String)
    → dequeue url s.ajax_queue ≡ []
    → (response s url).1 ≡ unblock_all s.block_ids
unfolding response remove_block
response-empty s url h = ground arith

response-queue :
    (s : Interceptor) (url : String) → (response s url).0.ajax_queue ≡ dequeue url s.ajax_queue
unfolding response
response-queue s url = remove_block-queue (record s { ajax_queue = dequeue url s.ajax_queue })

-- An answer to a request that was not queued removes the request that was queued last. If only
-- one was queued, all elements are unblocked, though it is still pending.
pub response_unqueued :
    (s : Interceptor) (url u : String) (q : List String)
    → s.ajax_queue ≡ q ++ u ∷ []
    → count url s.ajax_queue ≡ 0
    → ((response s url).0.ajax_queue ≡ q) × (q ≡ [] → (response s url).1 ≡ unblock_all s.block_ids)
response_unqueued s url u q e h =
    let left : dequeue url s.ajax_queue ≡ q = rw e (dequeue_unqueued url u q (rw e at h)) in
    (response-queue s url ∙ left, λ blank. response-empty s url (left ∙ blank))

-- Requests that are queued, and answers, by url.
unfoldable pub sends : String → List Event → ℕ
sends u [] = 0
sends u (sent c modals ∷ es) =
    (if (has_http c.url && not (no_block c.params)) && str_eq c.url u then 1 else 0) + sends u es
sends u (_ ∷ es) = sends u es

unfoldable pub answers : String → List Event → ℕ
answers u [] = 0
answers u (answered url ∷ es) = (if str_eq url u then 1 else 0) + answers u es
answers u (_ ∷ es) = answers u es

-- Each answer is to a request in the queue, and no request fails.
abbrev pub IsOrderly : Interceptor → List Event → Type 0
IsOrderly s [] = Unit {0}
IsOrderly s (answered url ∷ es) =
    (0 < count url s.ajax_queue) × IsOrderly (step s (answered url)).0 es
IsOrderly s (rejected r ∷ es) = ⊥
IsOrderly s (e ∷ es) = IsOrderly (step s e).0 es

count-request :
    (s : Interceptor) (c : Config) (modals : ℕ) (u : String)
    → count u (request s c modals).0.ajax_queue
      ≡ count u s.ajax_queue
        + (if (has_http c.url && not (no_block c.params)) && str_eq c.url u then 1 else 0)
unfolding request
count-request s c modals u = ground (arith, count-append u s.ajax_queue (c.url ∷ []), one c.url u)
  where
    one : (v u : String) → count u (v ∷ []) ≡ (if str_eq v u then 1 else 0)
    one v u = unfold count in (omega arith)

count-response :
    (s : Interceptor) (url u : String)
    → count u (response s url).0.ajax_queue ≡ count u (dequeue url s.ajax_queue)
count-response s url u = ap (count u) (response-queue s url)

-- The queue of an orderly run holds what was queued and not yet answered.
pub count-run :
    (s : Interceptor) (es : List Event) (u : String)
    → IsOrderly s es
    → count u (run s es).0.ajax_queue + answers u es ≡ count u s.ajax_queue + sends u es
unfolding run step sends answers
count-run s [] u h = refl
count-run s (sent c modals ∷ es) u h =
    omega (arith, count-run (step s (sent c modals)).0 es u h, count-request s c modals u)
count-run s (answered url ∷ es) u h = omega (
  arith,
  count-run (step s (answered url)).0 es u h.1,
  count-response s url u,
  count-dequeue url u s.ajax_queue h.0,
)
count-run s (rejected r ∷ es) u h = absurd h
count-run s (rearmed ∷ es) u h = count-run (step s rearmed).0 es u h
