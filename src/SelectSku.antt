-- ===== src/SelectSku.antt =====
-- The choice of a product by its code: frontend/static/app/common/directives/
-- select-sku.directive.js. The service `productModel`, which the repository does not hold, is where
-- the queries go: it is given by the keys under which it has a resource, and its answers are events.
pub mod Laws
mod Tests
use chat_bot_hub.Prelude.{
  ℕ, zero, suc, ◌+◌, ◌-◌, String, str_eq, Bool, true, false, not, ◌&&◌, ◌||◌, Option, none, some,
  List, [], ◌∷◌, ◌++◌, Object, assign, ◌==◌, if◌then◌else◌,
}
use chat_bot_hub.Js.{
  Value, undefined, null, bool, num, str, arr, obj, Items, item, no_items, Fields, field, end,
  is_zero, get_field,
}
use chat_bot_hub.Service.{extend}

-- `$scope.options`: a function is given by its answer, for `onBeforeModalOpen` whether it is other
-- than `false`; `query_field_name` is the object of that name.
pub record Options : Type 0 where
  pub on_before : Option (String → Bool)
  pub model_type : Option String
  pub query_field_name : Object String
  pub params : Object Value
  pub on_before_modal_open : Option (String → Bool)
  pub size : Option String

-- `$scope.data`, and the number of queries that wait for their answer.
pub record Choice : Type 0 where
  pub code : String
  pub request_loading : Bool
  pub pending : ℕ

abbrev pub start : Choice
start = record { code = ""; request_loading = false; pending = 0 }

pub data Effect : Type 0 where
  query : String → Object Value → Effect
  toast_error : String → Effect
  on_select : Value → Effect
  open_modal : String → String → Effect
  type_error : Effect

-- `$scope.data[key]`.
unfoldable pub data_of : Choice → String → Value
data_of c key =
    if str_eq key "code"
    then str c.code
    else if str_eq key "requestLoading"
    then bool c.request_loading
    else undefined

-- The loop over the names of `queryFieldName`.
unfoldable pub query_data : Choice → Object String → Object Value → Object Value
query_data c [] o = o
query_data c ((key, name) ∷ names) o = query_data c names (assign o name (data_of c key))

unfoldable pub get_params : Options → Choice → Object Value
get_params o c = extend (assign (query_data c o.query_field_name []) "code" (str c.code)) o.params

unfoldable pub valid : Options → Choice → Bool
valid o c = elim o.on_before [ none ↦ true | some f ↦ f c.code ]

unfoldable pub model_key : Options → String
model_key o = elim o.model_type [
  | none ↦ "productList"
  | some key ↦ if str_eq key "" then "productList" else key
]

-- `productModel[modelKey].query`, which throws where there is no resource under the key; the input is
-- locked before.
unfoldable pub query_for_code : (String → Bool) → Options → Choice → Choice × List Effect
query_for_code has_resource o c =
    let loading : Choice = record c { request_loading = true } in
    if not (valid o c)
    then (c, [])
    else if has_resource (model_key o)
    then (
      record loading { pending = c.pending + 1 },
      query (model_key o) (get_params o loading) ∷ [],
    )
    else (loading, type_error ∷ [])

-- `d.data.length === 0`.
unfoldable pub has_no_length : Value → Bool
has_no_length (str s) = str_eq s ""
has_no_length (arr no_items) = true
has_no_length (obj fs) = elim (get_field fs "length") [ num n ↦ is_zero n | _ ↦ false ]
has_no_length _ = false

-- `d.data == null`.
abbrev is_null : Value → Bool
is_null undefined = true
is_null null = true
is_null _ = false

unfoldable pub as_array : Value → Value
as_array (arr items) = arr items
as_array v = arr (item v no_items)

-- The callback of the query, with `d.data`.
unfoldable pub on_answer : Choice → Value → Choice × List Effect
on_answer c d =
    let done : Choice = record c { request_loading = false; pending = c.pending - 1 } in
    if is_null d || has_no_length d
    then (done, toast_error "没找到指定的商品,请检查商品编号是否正确。" ∷ [])
    else (record done { code = "" }, on_select (as_array d) ∷ [])

unfoldable pub on_failure : Choice → Choice × List Effect
on_failure c = (record c { request_loading = false; pending = c.pending - 1 }, [])

-- The size of the dialog, which `tools.selectProduct` takes for "lg" unless it is given.
unfoldable pub modal_size : Options → String
modal_size o = elim o.size [ none ↦ "lg" | some s ↦ if str_eq s "" then "lg" else s ]

-- `selectSku`.
unfoldable pub select_sku : Options → Choice → Choice × List Effect
select_sku o c =
    let opens : Bool = elim o.on_before_modal_open [ none ↦ true | some f ↦ f c.code ] in
    if opens then (c, open_modal c.code (modal_size o) ∷ []) else (c, [])

-- What the user and the server do; the server answers only what is pending, and a locked input takes
-- neither text nor the key.
pub data Event : Type 0 where
  typed : String → Event
  entered button_clicked failed : Event
  answered : Value → Event
  chosen : Value → Event

unfoldable pub step : (String → Bool) → Options → Choice → Event → Choice × List Effect
step has_resource o c (typed text) =
    if c.request_loading then (c, []) else (record c { code = text }, [])
step has_resource o c entered =
    if c.request_loading then (c, []) else query_for_code has_resource o c
step has_resource o c button_clicked = select_sku o c
step has_resource o c failed = if c.pending == 0 then (c, []) else on_failure c
step has_resource o c (answered d) = if c.pending == 0 then (c, []) else on_answer c d
step has_resource o c (chosen v) = (c, on_select v ∷ [])

unfoldable pub run : (String → Bool) → Options → Choice → List Event → Choice × List Effect
run has_resource o c [] = (c, [])
run has_resource o c (e ∷ es) =
    let (d, now) = step has_resource o c e in
    let (f, later) = run has_resource o d es in (f, now ++ later)
