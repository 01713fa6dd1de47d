-- ===== src/Http/Tests.antt =====
-- The interceptors on concrete inputs.
use chat_bot_hub.Prelude.{◌+◌, ◌≤◌, true, false, ◌≡◌, refl, none, some, List, [], ◌∷◌, arith}
use chat_bot_hub.Http.{
  Config, fresh, Event, sent, answered, rejected, rearmed, run, status, absent, has_key, has_http,
  block_target, request, step,
}
use chat_bot_hub.Http.Queue.{count, count-run, sends, answers, IsOrderly}
use chat_bot_hub.Http.Replay.{blocked_after}
use chat_bot_hub.Http.Blocking.{run-blocked}
use chat_bot_hub.Http.Errors.{total, toast, rearms, armed, toasts-run}

abbrev bots : Config
bots = record { url = "http://hub/bots"; params = none; block_id = none }

abbrev quiet : Config
quiet = record {
  url = "http://hub/consts";
  params = some (record { no_block = true; block_id = none });
  block_id = none;
}

abbrev session : List Event
session =
    sent bots 0
    ∷ sent quiet 0
    ∷ answered "http://hub/bots"
    ∷ rejected (status 403)
    ∷ rearmed
    ∷ rejected absent
    ∷ []

session_queued : (run fresh (sent bots 0 ∷ sent quiet 0 ∷ [])).0.ajax_queue ≡ "http://hub/bots" ∷ []
unfolding run step request has_http block_target
session_queued = refl

run-blocked_example :
    (blocked_after "#container" false (run fresh session).1
      ≡ has_key "#container" (run fresh session).0.block_ids)
    × ((run fresh session).0.ajax_queue ≡ []
        → blocked_after "#container" false (run fresh session).1 ≡ false)
run-blocked_example = run-blocked session "#container"

toasts-run_example : total toast (run fresh session).1 ≤ rearms session + armed fresh
toasts-run_example = toasts-run fresh session

abbrev orderly : List Event
orderly = sent bots 0 ∷ rearmed ∷ answered "http://hub/bots" ∷ sent bots 1 ∷ []

orderly-IsOrderly : IsOrderly fresh orderly
unfolding step request has_http block_target count
orderly-IsOrderly = omega arith

count-run_example :
    count "http://hub/bots" (run fresh orderly).0.ajax_queue + answers "http://hub/bots" orderly
    ≡ count "http://hub/bots" fresh.ajax_queue + sends "http://hub/bots" orderly
count-run_example = count-run fresh orderly "http://hub/bots" orderly-IsOrderly
