-- ===== src/Notices/Prompt.antt =====
-- What a prompt yields.
use chat_bot_hub.Prelude.{
  String, Bool, true, false, Option, none, some, List, [], ◌∷◌, ◌≡◌, refl, if◌then◌else◌,
  Bool-cases, inl, inr,
}
use chat_bot_hub.Notices.{
  Deferred, pending, rejected, resolved, resolve, reject, Required, optional, mandatory, rule,
  prompt_callback, prompt,
}

-- The texts that the argument takes.
unfoldable pub takes : Required → String → Bool
takes optional answer = true
takes mandatory answer = false
takes (rule f) answer = f answer

-- The end of a prompt: the first answer that counts, which is a cancellation or a text that is taken.
unfoldable pub first_taken : Required → List (Option String) → Deferred
first_taken r [] = pending
first_taken r (none ∷ answers) = rejected
first_taken r (some answer ∷ answers) =
    let more = first_taken r answers in if takes r answer then resolved (some answer) else more

-- A prompt is rejected by a cancellation, and resolved by the first text before it that its argument
-- takes; every text is taken where nothing is required, the texts that the function takes where it is
-- a function, and none for any other value.
pub prompt-first_taken :
    (r : Required) (answers : List (Option String))
    → prompt r answers pending ≡ first_taken r answers
unfolding prompt first_taken prompt_callback resolve reject takes
prompt-first_taken r [] = refl
prompt-first_taken r (none ∷ answers) = refl
prompt-first_taken optional (some answer ∷ answers) = refl
prompt-first_taken mandatory (some answer ∷ answers) = prompt-first_taken mandatory answers
prompt-first_taken (rule f) (some answer ∷ answers) = elim (Bool-cases (f answer)) [
  | inl good ↦ rw (prompt, first_taken, prompt_callback, takes, good) refl
  | inr bad ↦
      rw (prompt, first_taken, prompt_callback, takes, bad) (prompt-first_taken (rule f) answers)
]
