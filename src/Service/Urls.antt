-- ===== src/Service/Urls.antt =====
-- The urls of the services.
use chat_bot_hub.Prelude.{
  String, str_eq, eq_iff, ◌<>◌, Bool, true, false, not, ◌≡◌, refl, ap, ◌∙◌, none, some, [], ◌∷◌,
  Object, get, arith, inl, inr, Bool-cases, if◌then◌else◌,
}
use chat_bot_hub.Js.{Fields}
use chat_bot_hub.Service.{
  Location, build_url, urls, build_model, build_model_res_id, call, resource, calls, build_promise,
  key_or_query, extend,
}

-- The keys of an object.
unfoldable pub has : String → Object String → Bool
has key [] = false
has key ((k, v) ∷ o) = if str_eq k key then true else has key o

-- Each entry is the page's address followed by its key.
abbrev IsDirect : Location → Object String → Type 0
IsDirect loc [] = Unit {0}
IsDirect loc ((key, url) ∷ o) = (url ≡ build_url loc key) × IsDirect loc o

IsDirect-get :
    (loc : Location) (o : Object String) (key : String)
    → IsDirect loc o
    → get o key ≡ (if has key o then some (build_url loc key) else none)
unfolding get has
IsDirect-get loc [] key d = refl
IsDirect-get loc ((k, url) ∷ o) key d = elim (Bool-cases (str_eq k key)) [
  | inl same ↦ rw same (ap some (d.0 ∙ ap (build_url loc) ((eq_iff k key).0 same)))
  | inr other ↦ rw other (IsDirect-get loc o key d.1)
]

urls-IsDirect : (loc : Location) → IsDirect loc (urls loc)
unfolding urls
urls-IsDirect loc = (
  refl,
  (
    refl,
    (
      refl,
      (
        refl,
        (refl, (refl, (refl, (refl, (refl, (refl, (refl, (refl, (refl, (refl, (refl, tt))))))))))),
      ),
    ),
  ),
)

-- For each key that the table has, the url is the page's address followed by the key.
pub get-urls :
    (loc : Location) (key : String)
    → get (urls loc) key ≡ (if has key (urls loc) then some (build_url loc key) else none)
get-urls loc key = IsDirect-get loc (urls loc) key (urls-IsDirect loc)

-- `buildPromise(buildModel(key, params), data)` asks for the url of a known key by GET; an unknown
-- key is logged, and its request has no url.
pub build_promise-build_model :
    (loc : Location) (key : String) (params given : Fields)
    → ((build_model loc key params []).1 ≡ not (has key (urls loc)))
      × (build_promise (resource (build_model loc key params []).0) given none
          ≡ calls (record {
            method = "GET";
            url = if has key (urls loc) then some (build_url loc key) else none;
            defaults = params;
            params = given;
          }))
unfolding build_model build_promise key_or_query call extend get
build_promise-build_model loc key params given = ground (arith, get-urls loc key)

-- `buildModelResId(key, rid).update()` posts to the url of a known key, a slash and `rid`; for an
-- unknown key it is logged and the text "undefined" stands in the place of the url.
pub call-build_model_res_id :
    (loc : Location) (key rid : String) (params given : Fields)
    → ((build_model_res_id loc key rid params []).1 ≡ not (has key (urls loc)))
      × (call (build_model_res_id loc key rid params []).0 "update" given
          ≡ some (record {
            method = "POST";
            url =
                some
                  ((if has key (urls loc) then build_url loc key else "undefined") <> "/" <> rid);
            defaults = params;
            params = given;
          }))
unfolding build_model_res_id call extend get
call-build_model_res_id loc key rid params given = ground (arith, get-urls loc key)
