-- ===== src/Table/Broadcast.antt =====
-- The values that frontend/static/app/common/directives/table.directive.js copies from `broadcastData` to
-- the scope of a table, and the watches of the scope around it.
mod Laws
mod Tests
use chat_bot_hub.Prelude.{
  String, Bool, true, false, Option, none, some, List, [], ◌∷◌, map, Object, assign, get,
  if◌then◌else◌, ◌≡◌,
}
use chat_bot_hub.Js.{Value, str, num}

-- The test of line 92; the scope around the table is given by what stands under each name.
unfoldable pub is_simple : Value → Bool
is_simple (str s) = true
is_simple (num n) = true
is_simple _ = false

-- A watch, with the value that it saw last.
pub record Watch : Type 0 where
  pub name : String
  pub last : Option Value

pub record Table : Type 0 where
  pub scope : Object Value
  pub watches : List Watch

unfoldable pub fresh : String → Watch
fresh name = record { name = name; last = none }

-- The loop over `broadcastData`: the values that it copies, and the names that it watches.
unfoldable pub copies : Object Value → Object Value → Object Value
copies [] scope = scope
copies ((name, v) ∷ more) scope = copies more (assign scope name v)

unfoldable pub watched : (String → Value) → Object Value → List String
watched parent [] = []
watched parent ((name, v) ∷ more) =
    let rest = watched parent more in if is_simple (parent name) then name ∷ rest else rest

unfoldable pub link : (String → Value) → Object Value → Object Value → Table
link parent data_ scope = record {
  scope = copies data_ scope;
  watches = map fresh (watched parent data_);
}

-- `!==` of the language, which is true of a watch that has not been called.
pub record Identity : Type 0 where
  pub same : Value → Value → Bool
  pub same-≡ : (v w : Value) → same v w ≡ true → v ≡ w

-- What each watch saw last behind a digest.
unfoldable pub note : (String → Value) → List Watch → List Watch
note parent [] = []
note parent (w ∷ ws) = record w { last = some (parent w.name) } ∷ note parent ws

module _ (id : Identity) where
  unfoldable pub seen : Option Value → Value → Bool
  seen none v = false
  seen (some w) v = id.same w v

  unfoldable pub fire : (String → Value) → Watch → Object Value → Object Value
  fire parent w scope =
      if seen w.last (parent w.name) then scope else assign scope w.name (parent w.name)

  unfoldable pub fire_all : (String → Value) → List Watch → Object Value → Object Value
  fire_all parent [] scope = scope
  fire_all parent (w ∷ ws) scope = fire_all parent ws (fire parent w scope)

  unfoldable pub digest : (String → Value) → Table → Table
  digest parent t = record {
    scope = fire_all parent t.watches t.scope;
    watches = note parent t.watches;
  }

  -- The scope around the table has one state after the other, each with a digest.
  unfoldable pub run : List (String → Value) → Table → Table
  run [] t = t
  run (parent ∷ parents) t = run parents (digest parent t)
