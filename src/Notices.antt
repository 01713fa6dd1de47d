-- ===== src/Notices.antt =====
-- The questions that the console asks: frontend/static/app/common/services/notification.service.js. The
-- dialogs of the library bootbox are third-party: what the user answers is given to the callbacks, and a
-- callback that returns false keeps its dialog open.
pub mod Prompt
mod Tests
use chat_bot_hub.Prelude.{
  String, ◌<>◌, Bool, true, false, not, Option, none, some, List, [], ◌∷◌, if◌then◌else◌,
}

-- A deferred of `$q`: only the first settlement counts.
pub data Deferred : Type 0 where
  pending rejected : Deferred
  resolved : Option String → Deferred

unfoldable pub resolve : Option String → Deferred → Deferred
resolve v pending = resolved v
resolve v rejected = rejected
resolve v (resolved w) = resolved w

unfoldable pub reject : Deferred → Deferred
reject pending = rejected
reject rejected = rejected
reject (resolved v) = resolved v

-- The argument `required`: nothing or a value that counts as false, a function, given by whether it
-- returns something other than `false`, or any other value.
pub data Required : Type 0 where
  optional mandatory : Required
  rule : (String → Bool) → Required

-- The callback of `prompt`, with the text or the cancellation, which is null; and whether it lets the
-- dialog close.
unfoldable pub prompt_callback : Required → Option String → Deferred → Bool × Deferred
prompt_callback r none d = (true, resolve none (reject d))
prompt_callback optional (some answer) d = (true, resolve (some answer) d)
prompt_callback mandatory (some answer) d = (false, d)
prompt_callback (rule f) (some answer) d =
    if f answer then (true, resolve (some answer) d) else (false, d)

-- The user answers as long as the dialog is open.
unfoldable pub prompt : Required → List (Option String) → Deferred → Deferred
prompt r [] d = d
prompt r (a ∷ answers) d =
    let more = prompt r answers (prompt_callback r a d).1 in
    if (prompt_callback r a d).0 then (prompt_callback r a d).1 else more

-- The callback of `confirm`.
unfoldable pub confirm_callback : Bool → Deferred → Deferred
confirm_callback answer d = if answer then resolve none d else reject d

-- The callbacks of the buttons of `promptArea`: none is the button for cancelling; the text is the
-- trimmed one; `isClose` is a function or missing, given by whether it returns something other than
-- `false`.
unfoldable pub area_callback : Option (String → Bool) → Option String → Deferred → Bool × Deferred
area_callback is_close none d = (true, reject d)
area_callback none (some trimmed) d = (true, resolve (some trimmed) d)
area_callback (some f) (some trimmed) d =
    if f trimmed then (true, resolve (some trimmed) d) else (false, d)

-- The callback of `alert`.
unfoldable pub alert_callback : Deferred → Deferred
alert_callback d = resolve none d

-- The text that `alert` shows; it is not escaped.
unfoldable pub alert_text : String → String
alert_text title = "<div style=\"word-break: break-all; margin-top: 12px\">" <> (title <> "</div>")
