-- ===== src/Sidebar/Tidy.antt =====
-- At most one submenu of a list is open.
use chat_bot_hub.Prelude.{ℕ, true, false, some, List, get_elem?, ◌≡◌}
use chat_bot_hub.Sidebar.{Item}

-- No two elements are open; and when the animations have ended a submenu that is not always open is
-- visible exactly if its element is open.
pub record IsTidy (items : List Item) : Type 0 where
  pub one :
      (j k : ℕ) (a b : Item)
      → get_elem? items j ≡ some a
      → get_elem? items k ≡ some b
      → a.is_open ≡ true
      → b.is_open ≡ true
      → j ≡ k
  pub shown :
      (j : ℕ) (a : Item)
      → get_elem? items j ≡ some a
      → a.always_open ≡ false
      → a.will_show ≡ a.is_open
