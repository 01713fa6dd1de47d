-- ===== src/Traffic/Tests.antt =====
-- A save of a filter while the list of filters is awaited.
use chat_bot_hub.Prelude.{
  String, ℕ, List, if◌then◌else◌, true, false, ◌≡◌, refl, none, some, [], ◌∷◌, get,
}
use chat_bot_hub.Js.{end, codes}
use chat_bot_hub.Service.{Location, urls, build_model, build_promise, resource, calls}
use chat_bot_hub.Service.Urls.{has}
use chat_bot_hub.Http.{sent, answered, fresh, block_ui, unblock_ui, has_http, run}
use chat_bot_hub.Dialogs.Submit.{Data, save, typed, opened, resolved, value, text_of}
use chat_bot_hub.Dialogs.Submit.Laws.{filter, editing, edited, last_typed}
use chat_bot_hub.Traffic.{of_call, of_sent, transform_request}
use chat_bot_hub.Traffic.Body.{lookup, as_codes, lookup-saved}
use chat_bot_hub.Query.Scan.{parse}
use chat_bot_hub.Dialogs.{lists}
use chat_bot_hub.Traffic.Protocol.{IsHttp}
use chat_bot_hub.Traffic.Queued.{list_call, save_releases}

abbrev here : Location
here = record { protocol = "https:"; host = "hub"; pathname = "/" }

abbrev row : Data
row = ("filterId", some "f1") ∷ ("name", some "greeting") ∷ []

here-IsHttp : IsHttp here
unfolding IsHttp
here-IsHttp = ("s:", refl)

is_known : has "filters" (urls here) ≡ true
unfolding has urls
is_known = refl

lacks_http : has_http (save (typed [] (editing filter row))).1.url ≡ false
unfolding has_http save typed opened resolved value text_of get
lacks_http = refl

save_releases_example :
    (build_promise (resource (build_model here "filters" end []).0) end none
      ≡ calls (list_call here "filters"))
    × (run fresh (
          sent (of_call (list_call here "filters")) 0
          ∷ sent (of_sent (save (typed [] (editing filter row))).1) 1
          ∷ answered (save (typed [] (editing filter row))).1.url
          ∷ [])
        ≡ (fresh, block_ui "#container" ∷ unblock_ui "#container" ∷ []))
save_releases_example = save_releases here "filters" filter row [] 1 here-IsHttp is_known lacks_http

lookup-saved_example :
    (body : List ℕ) × (transform_request
        (save (typed (("name", "x&y") ∷ []) (editing filter row))).1
      ≡ some body)
    × ((name : String)
        → lookup (codes name) (parse body)
          ≡ as_codes (
              last_typed
                (("name", "x&y") ∷ [])
                name
                (if lists (edited filter) name then value row name else none)))
lookup-saved_example = lookup-saved filter row (("name", "x&y") ∷ [])
