-- ===== src/SelectSku/Laws.antt =====
-- The queries of the choice by code, and what their answers do.
use chat_bot_hub.Prelude.{
  ℕ, suc, ◌+◌, ◌-◌, ◌≤◌, String, str_eq, Bool, true, false, ◌&&◌, Option, none, some, List, [], ◌∷◌,
  ◌++◌, Object, get, assign, get-assign, ◌≡◌, refl, ap, ◌∙◌, arith, if◌then◌else◌,
}
use chat_bot_hub.Js.{Value, undefined, null, bool, num, str, arr, obj, Items, item, no_items}
use chat_bot_hub.Service.{extend}
use chat_bot_hub.SelectSku.{
  Options, Choice, start, Effect, toast_error, on_select, query, open_modal, type_error, model_key,
  data_of, query_data, get_params, query_for_code, on_answer, on_failure, select_sku, has_no_length,
  as_array, Event, typed, entered, button_clicked, failed, answered, chosen, step, run,
}

-- What was written last under the name.
unfoldable pub last {ℓ} : {V : Type ℓ} → Object V → String → Option V
last [] name = none
last ((key, v) ∷ p) name = elim (last p name) [
  | some w ↦ some w
  | none ↦ if str_eq key name then some v else none
]

unfoldable pub first_of {ℓ} : {V : Type ℓ} → Option V → Option V → Option V
first_of (some v) o = some v
first_of none o = o

module _ {V : Type 0} where
  get-extend :
      (o p : Object V) (name : String) → get (extend o p) name ≡ first_of (last p name) (get o name)
  unfolding extend last first_of
  get-extend o [] name = refl
  get-extend o ((key, v) ∷ p) name =
      ground (arith, get-extend (assign o key v) p name, get-assign o key name v)

-- The key that is queried under the name.
unfoldable pub key_for : Object String → String → Option String
key_for [] name = none
key_for ((key, n) ∷ names) name = elim (key_for names name) [
  | some k ↦ some k
  | none ↦ if str_eq n name then some key else none
]

-- The value for the name that `queryFieldName` asks for.
unfoldable pub asked : Choice → Option String → Option Value
asked c none = none
asked c (some key) = some (data_of c key)

get-query_data :
    (c : Choice) (names : Object String) (o : Object Value) (name : String)
    → get (query_data c names o) name ≡ first_of (asked c (key_for names name)) (get o name)
unfolding query_data key_for asked first_of
get-query_data c [] o name = refl
get-query_data c ((key, n) ∷ names) o name = ground (
  arith,
  get-query_data c names (assign o n (data_of c key)) name,
  get-assign o n name (data_of c key),
)

first_of-none : (v : Option Value) → first_of v none ≡ v
unfolding first_of
first_of-none none = refl
first_of-none (some v) = refl

-- A parameter of the query: that of the options, or else the code under the name "code", or else
-- what the options ask for under the name.
pub get_params_lem :
    (o : Options) (c : Choice) (name : String)
    → get (get_params o c) name
      ≡ first_of (last o.params name) (
          if str_eq "code" name
          then some (str c.code)
          else asked c (key_for o.query_field_name name))
unfolding get_params get
get_params_lem o c name =
    get-extend (assign (query_data c o.query_field_name []) "code" (str c.code)) o.params name
    ∙ ap (first_of (last o.params name)) (
        get-assign (query_data c o.query_field_name []) "code" name (str c.code)
        ∙ ap (λ (t : Option Value). if str_eq "code" name then some (str c.code) else t)
            (get-query_data c o.query_field_name [] name
              ∙ first_of-none (asked c (key_for o.query_field_name name))))

-- The products in an answer.
unfoldable pub products : Value → Items
products undefined = no_items
products null = no_items
products (arr items) = items
products v = if has_no_length v then no_items else item v no_items

-- What the choice does with the products that were found.
unfoldable pub outcome : Choice → Items → Choice × List Effect
outcome c no_items = (
  record c { request_loading = false; pending = c.pending - 1 },
  toast_error "没找到指定的商品,请检查商品编号是否正确。" ∷ [],
)
outcome c (item v more) = (
  record { code = ""; request_loading = false; pending = c.pending - 1 },
  on_select (arr (item v more)) ∷ [],
)

-- An answer unlocks the input; with a product in it `onSelect` gets an array of one product at least
-- and the code is cleared, and otherwise a message is shown and the code stays.
pub on_answer_lem : (c : Choice) (d : Value) → on_answer c d ≡ outcome c (products d)
unfolding on_answer outcome products has_no_length as_array
on_answer_lem c undefined = refl
on_answer_lem c null = refl
on_answer_lem c (arr no_items) = refl
on_answer_lem c (arr (item v more)) = refl
on_answer_lem c (bool b) = refl
on_answer_lem c (num n) = refl
on_answer_lem c (str s) = ground arith
on_answer_lem c (obj fs) = ground arith

unfoldable pub queries : List Effect → ℕ
queries [] = 0
queries (query key params ∷ es) = suc (queries es)
queries (toast_error msg ∷ es) = queries es
queries (on_select v ∷ es) = queries es
queries (open_modal code size ∷ es) = queries es
queries (type_error ∷ es) = queries es

queries-append : (es fs : List Effect) → queries (es ++ fs) ≡ queries es + queries fs
unfolding queries
queries-append [] fs = omega arith
queries-append (query key params ∷ es) fs = omega (arith, queries-append es fs)
queries-append (toast_error msg ∷ es) fs = queries-append es fs
queries-append (on_select v ∷ es) fs = queries-append es fs
queries-append (open_modal code size ∷ es) fs = queries-append es fs
queries-append (type_error ∷ es) fs = queries-append es fs

-- The events with which a query ends.
unfoldable pub ends : List Event → ℕ
ends [] = 0
ends (answered d ∷ es) = suc (ends es)
ends (failed ∷ es) = suc (ends es)
ends (typed s ∷ es) = ends es
ends (entered ∷ es) = ends es
ends (button_clicked ∷ es) = ends es
ends (chosen v ∷ es) = ends es

-- The input is locked exactly while one query is pending, if there is a resource; and if there is none,
-- no query is pending.
abbrev IsLocked : Bool → Choice → Type 0
IsLocked known c = c.pending ≡ (if known && c.request_loading then 1 else 0)

ends-cons : (e : Event) (es : List Event) → ends (e ∷ es) ≡ ends (e ∷ []) + ends es
unfolding ends
ends-cons e es = ground arith

module _ (has_resource : String → Bool) (o : Options) where
  abbrev pub known : Bool
  known = has_resource (model_key o)

  IsLocked-step :
      (c : Choice) (e : Event) → IsLocked known c → IsLocked known (step has_resource o c e).0
  unfolding step query_for_code on_answer on_failure select_sku
  IsLocked-step c e h = ground (arith, h)

  queries-step :
      (c : Choice) (e : Event)
      → IsLocked known c
      → queries (step has_resource o c e).1 + c.pending
        ≤ (step has_resource o c e).0.pending + ends (e ∷ [])
  unfolding step query_for_code on_answer on_failure select_sku queries ends
  queries-step c e h = ground (arith, h)

  queries-run :
      (c : Choice) (es : List Event)
      → IsLocked known c
      → IsLocked known (run has_resource o c es).0
        × (queries (run has_resource o c es).1 + c.pending
            ≤ (run has_resource o c es).0.pending + ends es)
  unfolding run
  queries-run c [] h = (h, unfold queries ends in omega arith)
  queries-run c (e ∷ es) h =
      let d : Choice = (step has_resource o c e).0 in
      let more = queries-run d es (IsLocked-step c e h) in
      (
        more.0,
        omega (
          arith,
          more.1,
          queries-step c e h,
          ends-cons e es,
          queries-append (step has_resource o c e).1 (run has_resource o d es).1,
        ),
      )

  -- A locked input without a pending query stays as it is.
  stuck-step :
      (c : Choice) (e : Event)
      → c.request_loading ≡ true
      → c.pending ≡ 0
      → (step has_resource o c e).0 ≡ c
  unfolding step select_sku
  stuck-step c e h k = ground (arith, h, k)

  stuck-run :
      (c : Choice) (es : List Event)
      → c.request_loading ≡ true
      → c.pending ≡ 0
      → (run has_resource o c es).0 ≡ c
  unfolding run
  stuck-run c [] h k = refl
  stuck-run c (e ∷ es) h k =
      ap (λ d. (run has_resource o d es).0) (stuck-step c e h k) ∙ stuck-run c es h k

  queries-step_unknown :
      (c : Choice) (e : Event) → known ≡ false → queries (step has_resource o c e).1 ≡ 0
  unfolding step query_for_code on_answer on_failure select_sku queries
  queries-step_unknown c e h = ground (arith, h)

  queries-unknown :
      (c : Choice) (es : List Event) → known ≡ false → queries (run has_resource o c es).1 ≡ 0
  unfolding run
  queries-unknown c [] h = unfold queries in refl
  queries-unknown c (e ∷ es) h =
      let d : Choice = (step has_resource o c e).0 in
      omega (
        arith,
        queries-append (step has_resource o c e).1 (run has_resource o d es).1,
        queries-step_unknown c e h,
        queries-unknown d es h,
      )

-- In every run from the start, one query is pending if the input is locked and the service has a
-- resource under the key of the options, and otherwise none is; and at most one query more is sent than
-- there are answers and failures. If there is no resource, no query is ever sent, and once the input is
-- locked nothing that happens later changes the state.
pub run_lem :
    (has_resource : String → Bool) (o : Options) (es more : List Event)
    → let c : Choice = (run has_resource o start es).0 in
      (c.pending ≡ (if has_resource (model_key o) && c.request_loading then 1 else 0))
      × (queries (run has_resource o start es).1 ≤ suc (ends es))
      × (has_resource (model_key o) ≡ false
          → (queries (run has_resource o start es).1 ≡ 0)
            × (c.request_loading ≡ true → (run has_resource o c more).0 ≡ c))
run_lem has_resource o es more =
    let both = queries-run has_resource o start es (ground arith) in
    let c : Choice = (run has_resource o start es).0 in
    (
      both.0,
      ground (arith, both.0, both.1),
      λ h. (
        queries-unknown has_resource o start es h,
        λ locked. stuck-run has_resource o c more locked (ground (arith, both.0, h)),
      ),
    )
