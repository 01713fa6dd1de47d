-- ===== src/Prelude/Text.antt =====
-- Texts: equality, concatenation, and objects with texts for keys.
use Prim.Native.String
use Prim.Native.String.{String}
use mathlib.Core.Path.{◌≡◌, refl}
use mathlib.Core.Option.{Option, none, some}
use mathlib.Core.List.{List, [], ◌∷◌}
use native.Mathlib.Omega.{arith}
use chat_bot_hub.Prelude.Tests.{if◌then◌else◌}
pub use text.Mathlib.Text.{◌==◌ as str_eq}
pub use text.Mathlib.TextEquality.{eq_iff}
pub use text.Mathlib.TextPositions.{eq_refl}

-- The concatenation `+` of two texts.
infixr 65 ◌<>◌
abbrev pub ◌<>◌ : String → String → String
s <> t = String.◌++◌ s t

-- An object with texts for keys, in the order in which the keys were first written.
abbrev pub Object {ℓ} : Type ℓ → Type ℓ
Object V = List (String × V)

module _ {ℓ} {V : Type ℓ} where
  -- `obj[name]`; `none` is `undefined`.
  unfoldable pub get : Object V → String → Option V
  get [] name = none
  get ((key, value) ∷ more) name = if str_eq key name then some value else get more name

  -- `obj[name] = value`.
  unfoldable pub assign : Object V → String → V → Object V
  assign [] name value = (name, value) ∷ []
  assign ((key, old) ∷ more) name value =
      if str_eq key name then (key, value) ∷ more else (key, old) ∷ assign more name value

  -- `delete obj[name]`.
  unfoldable pub delete : Object V → String → Object V
  delete [] name = []
  delete ((key, value) ∷ more) name =
      let kept = delete more name in if str_eq key name then kept else (key, value) ∷ kept

  pub get-assign :
      (o : Object V) (name key : String) (value : V)
      → get (assign o name value) key ≡ (if str_eq name key then some value else get o key)
  unfolding get assign
  get-assign [] name key value = refl
  get-assign ((k, old) ∷ more) name key value =
      ground (arith, get-assign more name key value, eq_iff k name, eq_iff name key, eq_iff k key)

  pub get-delete :
      (o : Object V) (name key : String)
      → get (delete o name) key ≡ (if str_eq name key then none else get o key)
  unfolding get delete
  get-delete [] name key = ground arith
  get-delete ((k, value) ∷ more) name key =
      ground (arith, get-delete more name key, eq_iff k name, eq_iff name key, eq_iff k key)
