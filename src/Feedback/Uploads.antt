-- ===== src/Feedback/Uploads.antt =====
-- `uploadRequest` of frontend/static/app/common/services/upload-request.service.js: what it sends, and
-- what becomes of its promise.
use chat_bot_hub.Prelude.{String, str_eq, Option, none, some, if◌then◌else◌}
use chat_bot_hub.Js.{Value, Fields, end, obj, undefined, null, truthy, prop}

-- Of a deferred the first settlement counts.
pub data Promise : Type 0 where
  pending : Promise
  resolved rejected : Value → Promise

unfoldable pub resolve : Value → Promise → Promise
resolve v pending = resolved v
resolve v (resolved w) = resolved w
resolve v (rejected w) = rejected w

unfoldable pub reject : Value → Promise → Promise
reject v pending = rejected v
reject v (resolved w) = resolved w
reject v (rejected w) = rejected w

-- The request: its url, `data`, and the body that `transformRequest` puts in the place of `data`.
pub record Upload : Type 0 where
  pub url : String
  pub sent_data : Value
  pub body : Value

pub data Started : Type 0 where
  -- A message, and false in the place of a promise.
  refused : String → Started
  uploads : Upload → Started

-- `config.data || {}`, of an object that may be missing.
unfoldable pub data_of : Option Fields → Value
data_of none = obj end
data_of (some config) =
    if truthy (prop (obj config) "data") then prop (obj config) "data" else obj end

unfoldable pub upload_request : String → Value → Option Fields → Started
upload_request url form_data config =
    if str_eq url ""
    then refused "上次url不能为空"
    else if truthy form_data
    then uploads (record { url = url; sent_data = data_of config; body = form_data })
    else refused "上次数据不能为空"

-- The handler of a success; none is the TypeError of an answer without properties.
unfoldable pub on_success : Value → Promise → Option Promise
on_success undefined p = none
on_success null p = none
on_success d p = some (if truthy (prop d "isSuccess") then resolve d p else reject d p)

unfoldable pub on_error : Value → Promise → Option Promise
on_error err p = some (reject err p)

-- An answer of the server to an upload.
pub data Answer : Type 0 where
  succeeds fails : Value → Answer

unfoldable pub answered : Answer → Promise → Option Promise
answered (succeeds d) p = on_success d p
answered (fails err) p = on_error err p
