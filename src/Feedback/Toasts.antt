-- ===== src/Feedback/Toasts.antt =====
-- The messages of frontend/static/app/common/services/toastr.service.js. The object `window.toastr` is
-- given by what stands under each name.
use chat_bot_hub.Prelude.{
  ℕ, String, str_eq, Option, none, some, List, [], ◌∷◌, ◌++◌, map, ◌≡◌, refl, ap, ◌==◌,
  if◌then◌else◌,
}
use chat_bot_hub.Js.{Value, undefined, null, prop}

pub data Member : Type 0 where
  missing method no_function : Member

pub data Effect : Type 0 where
  -- A message of a kind, with its title and the milliseconds that it stays.
  shown : String → Value → Value → ℕ → Effect
  type_error : Effect

pub data Call : Type 0 where
  -- `success`, `info`, `warning` and `error`, with an optional time.
  timed : String → Value → Value → Option ℕ → Call
  show : Value → Option String → Value → Call
  req_error : Value → Call

-- `timeout || 3000`.
unfoldable pub time_of : Option ℕ → ℕ
time_of none = 3000
time_of (some n) = if n == 0 then 3000 else n

abbrev or_success : Option String → String
or_success none = "success"
or_success (some type) = if str_eq type "" then "success" else type

module _ (toastr : String → Member) where
  -- `toastr[kind](message, title)`, with the time that the options hold.
  unfoldable pub call_method : String → Value → Value → ℕ → Effect
  call_method kind message title time = elim (toastr kind) [
    | method ↦ shown kind message title time
    | _ ↦ type_error
  ]

  -- `toastr[type] && toastr[type](message, title)`.
  unfoldable pub call_if_there : String → Value → Value → ℕ → List Effect
  call_if_there kind message title time = elim (toastr kind) [
    | missing ↦ []
    | method ↦ shown kind message title time ∷ []
    | no_function ↦ type_error ∷ []
  ]

  -- `data.message`, and the message of it.
  unfoldable pub req_error_effect : Value → Effect
  req_error_effect undefined = type_error
  req_error_effect null = type_error
  req_error_effect v = call_method "error" (prop v "message") undefined 3000

  -- A call, on the time of the options, which stays for the calls behind it.
  unfoldable pub step : ℕ → Call → ℕ × List Effect
  step time (timed kind message title timeout) =
      (time_of timeout, call_method kind message title (time_of timeout) ∷ [])
  step time (show message type title) = (time, call_if_there (or_success type) message title time)
  step time (req_error data_) = (3000, req_error_effect data_ ∷ [])

  unfoldable pub run : ℕ → List Call → List Effect
  run time [] = []
  run time (c ∷ cs) = let (next, now) = step time c in now ++ run next cs

abbrev untyped : Value × Value → Call
untyped (message, title) = show message none title

-- Messages of `show` stay as long as the message before them.
pub run-untyped :
    (toastr : String → Member)
    → toastr "success" ≡ method
    → (time : ℕ) (ms : List (Value × Value))
    → run toastr time (map untyped ms) ≡ map (λ m. shown "success" m.0 m.1 time) ms
unfolding run step call_if_there
run-untyped toastr h time [] = refl
run-untyped toastr h time ((message, title) ∷ ms) =
    rw (run, step, call_if_there, h)
      (ap (shown "success" message title time ∷◌) (run-untyped toastr h time ms))
