-- ===== src/Service/Tests.antt =====
-- The services at a concrete address.
use chat_bot_hub.Prelude.{◌≡◌, refl, none, some, get, if◌then◌else◌}
use chat_bot_hub.Service.{Location, urls, build_url}
use chat_bot_hub.Service.Urls.{has, get-urls}

abbrev here : Location
here = record { protocol = "http:"; host = "hub:8080"; pathname = "/" }

bots_url : get (urls here) "bots" ≡ some "http://hub:8080/bots"
unfolding get urls build_url
bots_url = refl

get-urls_example :
    get (urls here) "users"
    ≡ (if has "users" (urls here) then some (build_url here "users") else none)
get-urls_example = get-urls here "users"
