-- ===== src/Router/Loading.antt =====
-- `loadSequence` of frontend/static/app/app.router.js, of which
-- frontend/static/app/common/services/async-load.service.js has a copy: the chain of promises that
-- loads what a state requires. Whether a load succeeds is a parameter.
use mathlib.Core.List.{append_assoc, append-nil}
use chat_bot_hub.Prelude.{
  String, Bool, Option, none, some, List, [], ◌∷◌, ◌++◌, ◌≡◌, refl, ap, ◌∙◌, if◌then◌else◌,
  Option-cases, inl, inr,
}
use chat_bot_hub.Router.Modules.{Loadable, required_data}

-- An argument: a function, with whether the promise that it returns is kept, or a name.
pub data Arg : Type 0 where
  function : Bool → Arg
  named : String → Arg

-- Why a chain is rejected; `$.error` throws its message.
pub data Failure : Type 0 where
  not_found : String → Failure
  not_loaded : Loadable → Failure
  function_failed : Failure

-- The loads that were begun, and the end of the chain.
pub record Chain : Type 0 where
  pub begun : List Loadable
  pub failure : Option Failure

module _ (loads : Loadable → Bool) where
  -- The callback that runs once the chain so far is kept.
  unfoldable pub callback : Arg → List Loadable × Option Failure
  callback (function kept) = ([], if kept then none else some function_failed)
  callback (named name) = elim (required_data name) [
    | none ↦ ([], some (not_found name))
    | some d ↦ (d ∷ [], if loads d then none else some (not_loaded d))
  ]

  -- `promise.then(...)`: a chain that is rejected stays so, and its callbacks do not run.
  unfoldable pub promise_then : Chain → Arg → Chain
  promise_then c arg = elim c.failure [
    | some f ↦ c
    | none ↦ record { begun = c.begun ++ (callback arg).0; failure = (callback arg).1 }
  ]

  -- The loop over the arguments.
  unfoldable pub chain : Chain → List Arg → Chain
  chain c [] = c
  chain c (arg ∷ args) = chain (promise_then c arg) args

  unfoldable pub load_sequence : List Arg → Chain
  load_sequence args = chain (record { begun = []; failure = none }) args

  -- The arguments up to the first whose callback fails, that one included.
  unfoldable pub attempted : List Arg → List Arg
  attempted [] = []
  attempted (arg ∷ args) =
      let more = attempted args in elim (callback arg).1 [ none ↦ arg ∷ more | some f ↦ arg ∷ [] ]

  unfoldable pub loads_of : List Arg → List Loadable
  loads_of [] = []
  loads_of (arg ∷ args) = (callback arg).0 ++ loads_of args

  -- The failure of the first callback that fails.
  unfoldable pub first_failure : List Arg → Option Failure
  first_failure [] = none
  first_failure (arg ∷ args) =
      let more = first_failure args in elim (callback arg).1 [ none ↦ more | some f ↦ some f ]

module _ (loads : Loadable → Bool) where
  chain-failed :
      (begun : List Loadable) (f : Failure) (args : List Arg)
      → chain loads (record { begun = begun; failure = some f }) args
        ≡ record { begun = begun; failure = some f }
  unfolding chain promise_then
  chain-failed begun f [] = refl
  chain-failed begun f (arg ∷ args) = chain-failed begun f args

  chain-kept :
      (begun : List Loadable) (args : List Arg)
      → chain loads (record { begun = begun; failure = none }) args ≡ record {
        begun = begun ++ loads_of loads (attempted loads args);
        failure = first_failure loads args;
      }
  unfolding chain promise_then loads_of attempted first_failure
  chain-kept begun [] = rw (append-nil begun) refl
  chain-kept begun (arg ∷ args) = elim (Option-cases (callback loads arg).1) [
    | inl kept ↦
        rw (chain, promise_then, attempted, loads_of, first_failure, kept)
          (chain-kept (begun ++ (callback loads arg).0) args
            ∙ ap (λ (l : List Loadable). record { begun = l; failure = first_failure loads args })
                (append_assoc begun (callback loads arg).0 (loads_of loads (attempted loads args))))
    | inr (f, failed) ↦
        rw (chain, promise_then, attempted, loads_of, first_failure, failed)
          (rw (append-nil (callback loads arg).0) (chain-failed _ f args))
  ]

  -- The loads begin in order and stop after the first argument that fails, whose failure is that of
  -- the chain.
  pub load_sequence_lem :
      (args : List Arg)
      → ((load_sequence loads args).begun ≡ loads_of loads (attempted loads args))
        × ((load_sequence loads args).failure ≡ first_failure loads args)
  unfolding load_sequence
  load_sequence_lem args =
      let e = chain-kept [] args in (ap (λ (c : Chain). c.begun) e, ap (λ (c : Chain). c.failure) e)
