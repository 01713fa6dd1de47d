-- ===== src/Feedback/Tests.antt =====
-- A message behind another one, an upload that is answered twice, and a page that is blocked.
use chat_bot_hub.Prelude.{
  String, str_eq, true, false, none, some, List, [], ◌∷◌, ◌≡◌, refl, if◌then◌else◌,
}
use chat_bot_hub.Js.{obj, field, end, bool, str, undefined, truthy, prop, get_field}
use chat_bot_hub.Http.{Event, sent, answered, run, fresh}
use chat_bot_hub.Feedback.Toasts
use chat_bot_hub.Feedback.Toasts.{
  Member, method, missing, no_function, timed, show, shown, time_of, call_method, call_if_there,
}
use chat_bot_hub.Feedback.Uploads.{pending, rejected, reject, on_success}
use chat_bot_hub.Feedback.Blocks.{block, block_at, reference_error}
use chat_bot_hub.Feedback.Blocks.Targets.{AllServed, run-AllServed}

abbrev toastr : String → Member
toastr name = if str_eq name "options" then no_function else method

behind_another :
    Toasts.run toastr 3000
      (timed "info" (str "a") undefined (some 500) ∷ show (str "b") none undefined ∷ [])
    ≡ shown "info" (str "a") undefined 500 ∷ shown "success" (str "b") undefined 500 ∷ []
unfolding Toasts.run Toasts.step time_of call_method call_if_there
behind_another = refl

failed_upload :
    on_success (obj (field "isSuccess" (bool false) end)) pending
    ≡ some (rejected (obj (field "isSuccess" (bool false) end)))
unfolding on_success truthy prop get_field reject
failed_upload = refl

-- Without a target the service throws.
without_target :
    block
      (λ s. 0)
      900
      (record {
        target = none;
        boxed = true;
        message = none;
        z_index = none;
        overlay_color = none;
        cenrer_y = false;
      })
    ≡ reference_error
unfolding block block_at
without_target = refl

abbrev session : List Event
session =
    sent (record { url = "http://hub/bots"; params = none; block_id = none }) 1
    ∷ answered "http://hub/bots"
    ∷ []

run-AllServed_example : AllServed (λ s. 700) 900 (run fresh session).1
run-AllServed_example = run-AllServed (λ s. 700) 900 session
