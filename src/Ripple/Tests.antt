-- ===== src/Ripple/Tests.antt =====
-- Three clicks on one button.
use chat_bot_hub.Prelude.{ℕ, true, List, [], ◌∷◌, ◌≡◌, refl, map, ◌*◌, ◌-◌}
use chat_bot_hub.Ripple.{
  Reckoning, Press, Event, mouse_down, mouse_up, grown, faded, link, run, step, map_at, hear,
  release, touch, pressed,
}
use chat_bot_hub.Ripple.Laws.{summary, expected, link-expected}

-- Hundredths, without the division.
abbrev hundredths : Reckoning ℕ
hundredths = record {
  minus = λ a b. a - b;
  times_1_8 = λ n. n * 180;
  times_1_33 = λ n. n * 133;
  half_below = λ n. n;
}

abbrev press : Press ℕ
press = record { outer_width = 50; page_x = 30; page_y = 20; left = 10; top = 10 }

abbrev clicks : List (Event ℕ)
clicks =
    mouse_down press
    ∷ grown 0
    ∷ mouse_up
    ∷ faded 0
    ∷ mouse_down press
    ∷ mouse_up
    ∷ faded 1
    ∷ mouse_down press
    ∷ mouse_up
    ∷ []

-- Three clicks make six animations, three of them of the first circle, which is long gone.
three_clicks :
    map (summary hundredths) (link hundredths true clicks)
    ≡ (3, 50 * 180 * 133 * 133 * 133) ∷ (2, 50 * 180) ∷ (1, 50 * 180) ∷ []
unfolding link run step map_at hear release touch pressed
three_clicks = refl

link-expected_example :
    map (summary hundredths) (link hundredths true clicks) ≡ expected hundredths 0 clicks
link-expected_example = link-expected hundredths clicks
