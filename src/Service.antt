-- ===== src/Service.antt =====
-- The services that reach the server: URL, buildModel, buildModelResId and buildPromise of
-- frontend/static/app/common/services. `$resource` is the third-party factory that they wrap: a
-- resource keeps what it is given, and a call hands it over.
pub mod Urls
mod Tests
use chat_bot_hub.Prelude.{
  String, str_eq, if◌then◌else◌, ◌<>◌, Bool, true, false, Option, none, some, List, [], ◌∷◌, Object,
  get, assign,
}
use chat_bot_hub.Js.{Fields, end}

-- `$window.location`.
pub record Location : Type 0 where
  pub protocol : String
  pub host : String
  pub pathname : String

-- `buildUrl`.
unfoldable pub build_url : Location → String → String
build_url loc url = (loc.protocol <> "//" <> loc.host) <> loc.pathname <> url

-- The object `URL`.
unfoldable pub urls : Location → Object String
urls loc =
    ("login", build_url loc "login")
    ∷ ("bots", build_url loc "bots")
    ∷ ("clients", build_url loc "clients")
    ∷ ("botactions/failing", build_url loc "botactions/failing")
    ∷ ("botactions/recoveraction", build_url loc "botactions/recoveraction")
    ∷ ("botactions/recoverclient", build_url loc "botactions/recoverclient")
    ∷ ("filters", build_url loc "filters")
    ∷ ("consts", build_url loc "consts")
    ∷ ("botlogin", build_url loc "botlogin")
    ∷ ("botlogout", build_url loc "botlogout")
    ∷ ("botaction", build_url loc "botaction")
    ∷ ("loginqq", build_url loc "loginqq")
    ∷ ("chatusers", build_url loc "chatusers")
    ∷ ("chatgroups", build_url loc "chatgroups")
    ∷ ("filtertemplatesuites", build_url loc "filtertemplatesuites")
    ∷ []

-- A resource: its url (`none` is `undefined`), its default parameters, and its methods.
pub record Resource : Type 0 where
  pub url : Option String
  pub defaults : Fields
  pub methods : Object String

-- `angular.extend(o, p)`.
unfoldable pub extend {ℓ} : {V : Type ℓ} → Object V → Object V → Object V
extend o [] = o
extend o ((key, v) ∷ p) = extend (assign o key v) p

abbrev pub model_methods : Object String
model_methods =
    ("query", "GET")
    ∷ ("update", "POST")
    ∷ ("updateArray", "POST")
    ∷ ("queryArray", "GET")
    ∷ ("put", "put")
    ∷ ("post", "POST")
    ∷ ("remove", "delete")
    ∷ ("jsonp", "JSONP")
    ∷ []

abbrev pub res_id_methods : Object String
res_id_methods =
    ("query", "GET")
    ∷ ("update", "POST")
    ∷ ("updateArray", "POST")
    ∷ ("queryArray", "GET")
    ∷ ("put", "put")
    ∷ ("remove", "delete")
    ∷ []

-- `buildModel(key, params, method)`, and whether it logs that the key is unknown.
unfoldable pub build_model : Location → String → Fields → Object String → Resource × Bool
build_model loc key params method =
    let url : Option String = get (urls loc) key in
    (
      record { url = url; defaults = params; methods = extend model_methods method },
      elim url [ none ↦ true | some _ ↦ false ],
    )

-- `buildModelResId(key, rid, params, method)`; an unknown url reads "undefined" in the text.
unfoldable pub build_model_res_id :
    Location → String → String → Fields → Object String → Resource × Bool
build_model_res_id loc key rid params method =
    let url : Option String = get (urls loc) key in
    (
      record {
        url = some (elim url [ none ↦ "undefined" | some u ↦ u ] <> "/" <> rid);
        defaults = params;
        methods = extend res_id_methods method;
      },
      elim url [ none ↦ true | some _ ↦ false ],
    )

-- A request that `$resource` is asked to make.
pub record Call : Type 0 where
  pub method : String
  pub url : Option String
  pub defaults : Fields
  pub params : Fields

-- `resource[key](params, …)`; `none` is the TypeError of a missing method. The console uses none of
-- the methods that `$resource` adds of its own: get, save and delete.
unfoldable pub call : Resource → String → Fields → Option Call
call r key params = elim (get r.methods key) [
  | none ↦ none
  | some method ↦
      some (record { method = method; url = r.url; defaults = r.defaults; params = params })
]

-- What `buildPromise` is given: nothing, a resource, or the instance that a call returned, which
-- has none of the methods under their plain names.
pub data Target : Type 0 where
  nothing : Target
  resource : Resource → Target
  instance_of_call : Target

-- What it does: it logs and returns false, throws, or makes a call.
pub data Promised : Type 0 where
  refused : Promised
  type_error : Promised
  calls : Call → Promised

-- `key || 'query'`.
unfoldable pub key_or_query : Option String → String
key_or_query none = "query"
key_or_query (some k) = if str_eq k "" then "query" else k

unfoldable pub build_promise : Target → Fields → Option String → Promised
build_promise nothing params key = refused
build_promise instance_of_call params key = type_error
build_promise (resource r) params key = elim (call r (key_or_query key) params) [
  | none ↦ type_error
  | some c ↦ calls c
]

-- The deferred of `buildPromise`, with what the callbacks of the call give it; the first settlement
-- counts.
pub data Settled (V : Type 0) : Type 0 where
  waiting : Settled V
  resolved rejected : V → Settled V

unfoldable pub resolve : {V : Type 0} → V → Settled V → Settled V
resolve d waiting = resolved d
resolve d (resolved e) = resolved e
resolve d (rejected e) = rejected e

unfoldable pub reject : {V : Type 0} → V → Settled V → Settled V
reject d waiting = rejected d
reject d (resolved e) = resolved e
reject d (rejected e) = rejected e

-- What the call of the resource reports: it calls one of the two functions that it was given.
pub data Report (V : Type 0) : Type 0 where
  success failure : V → Report V

unfoldable pub forward : {V : Type 0} → Report V → Settled V → Settled V
forward (success d) s = resolve d s
forward (failure d) s = reject d s
