-- ===== src/Notices/Tests.antt =====
-- A prompt that takes one text.
use chat_bot_hub.Prelude.{String, str_eq, none, some, List, Option, [], ◌∷◌, ◌≡◌, refl}
use chat_bot_hub.Notices.{
  Required, rule, mandatory, pending, rejected, resolved, resolve, reject, prompt, prompt_callback,
}

abbrev asked : Required
asked = rule (λ s. str_eq s "b")

abbrev answers : List (Option String)
answers = some "a" ∷ some "b" ∷ none ∷ []

prompt-asked : prompt asked answers pending ≡ resolved (some "b")
unfolding prompt prompt_callback resolve
prompt-asked = refl

-- Where something is required without a rule, no text is taken.
prompt-mandatory : prompt mandatory answers pending ≡ rejected
unfolding prompt prompt_callback resolve reject
prompt-mandatory = refl
