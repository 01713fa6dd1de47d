-- ===== src/Pager/Tests.antt =====
-- The pager at concrete pages.
use chat_bot_hub.Prelude.{◌+◌, ◌-◌, min, suc, ◌≡◌, refl, some, List, [], ◌∷◌, arith}
use chat_bot_hub.Prelude.Int.{pos, pos_part}
use chat_bot_hub.Pager.{
  Entry, build_pager, entries, at_least_one, at_most, before, after, numbers, number, active,
  first_page, prev_page, next_page, last_page, Pager, clicks,
}
use chat_bot_hub.Pager.Links.{shown, upto, nearest, shown-build_pager}
use chat_bot_hub.Pager.Clicks.{IsRoute, IsOnRoute, clicks-IsOnRoute}

page_2_of_9 :
    build_pager (pos 2) (pos 9) (pos 2)
    ≡ some (
        first_page (some 1)
        ∷ prev_page (some 1)
        ∷ number 1
        ∷ active 2
        ∷ number 3
        ∷ number 4
        ∷ next_page (some 3)
        ∷ last_page (some 9)
        ∷ [])
unfolding build_pager entries at_least_one at_most before after numbers
page_2_of_9 = refl

shown-build_pager_example :
    (es : List Entry) × (build_pager (pos 2) (pos 9) (pos 2) ≡ some es)
    × (shown es
        ≡ upto (nearest (pos 2) 9 - min (pos_part (pos 2)) (nearest (pos 2) 9 - 1)) (
            min (pos_part (pos 2)) (nearest (pos 2) 9 - 1)
            + suc (min (pos_part (pos 2)) (9 - nearest (pos 2) 9))))
shown-build_pager_example = shown-build_pager (pos 2) (pos 2) 9 (omega arith)

abbrev start : Pager
start = record { ng_model = pos 2; changes = [] }

start-IsOnRoute : IsOnRoute 9 start
unfolding IsRoute
start-IsOnRoute = record { route = tt; latest = λ p e. cc }

clicks-IsOnRoute_example : IsOnRoute 9 (clicks (pos 9) (pos 2) start (7 ∷ 1 ∷ []))
clicks-IsOnRoute_example =
    clicks-IsOnRoute 9 (pos 2) start (7 ∷ 1 ∷ []) (omega arith) start-IsOnRoute
