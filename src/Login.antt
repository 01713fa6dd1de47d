-- ===== src/Login.antt =====
-- The login page: frontend/static/app/login/controller/login.js. What `login` sends and does then, and
-- in Login.Pretty the highlighting of JSON.
pub mod Pattern
pub mod Pretty
mod Tests
use chat_bot_hub.Prelude.{ℕ, Bool, true, false, String, Option, List, [], ◌∷◌}
use chat_bot_hub.Js.{Value}

pub data Effect : Type 0 where
  posts : String → Option (List ℕ) → Effect
  starts_timer : ℕ → Effect
  goes_to : String → Effect

-- `login`; the JSON object of the language is given, and yields none for undefined.
unfoldable pub login : (Value → Option (List ℕ)) → Value → List Effect
login stringify data_ = posts "login" (stringify data_) ∷ []

-- The answer to it, given by whether it is a success.
unfoldable pub on_answer : Bool → List Effect
on_answer true = starts_timer 100 ∷ []
on_answer false = []

-- The timer.
unfoldable pub after_login : List Effect
after_login = goes_to "#/app/manage/botslist" ∷ []
