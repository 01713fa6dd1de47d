-- ===== src/View/Drag.antt =====
-- How far the split bar can be dragged.
use chat_bot_hub.Prelude.{◌≡◌, ap, some, arith, ◌+◌, true, false, Bool-cases, inl, inr, ltb→lt}
use chat_bot_hub.Prelude.Int.{ℤ, pos, ◌+ℤ◌, ◌-ℤ◌, ◌≤ℤ◌, ltb_ℤ, int_laws, pos_part, neg_part}
use chat_bot_hub.View.{Grid, Grip, top_value, move}

-- The bar was grabbed by a point that lies `inset` below its top, in a container that ends where the
-- window ends.
pub record IsGrip (grip : Grip) (inset : ℤ) : Type 0 where
  pub place : grip.current_y ≡ grip.window_height -ℤ grip.container_height +ℤ grip.top +ℤ inset
  pub below : pos 0 ≤ℤ inset

lt_ℤ : (a b : ℤ) → ltb_ℤ a b ≡ true → a +ℤ pos 1 ≤ℤ b
lt_ℤ a b h = omega (int_laws, ltb→lt (pos_part a + neg_part b) (pos_part b + neg_part a) h)

ge_ℤ : (a b : ℤ) → ltb_ℤ a b ≡ false → b ≤ℤ a
ge_ℤ a b h = ground (arith, h)

-- The bar's top lies between the upper limit, less the inset, and the lower one.
abbrev IsBetween : ℤ → ℤ → ℤ → ℤ → Type 0
IsBetween max_height inset container top =
    (max_height ≤ℤ top +ℤ inset) × (top +ℤ pos 150 ≤ℤ container)

free_IsBetween :
    (grip : Grip) (inset max_height now_y : ℤ)
    → IsGrip grip inset
    → pos 150 ≤ℤ grip.window_height -ℤ now_y
    → max_height +ℤ grip.window_height -ℤ grip.container_height ≤ℤ now_y
    → IsBetween max_height inset grip.container_height (grip.top +ℤ (now_y -ℤ grip.current_y))
free_IsBetween grip inset max_height now_y held low high = (
  omega (int_laws, ap pos_part held.place, ap neg_part held.place),
  omega (int_laws, ap pos_part held.place, ap neg_part held.place, held.below),
)

top_value-IsBetween :
    (grip : Grip) (inset max_height now_y : ℤ)
    → IsGrip grip inset
    → max_height +ℤ pos 150 ≤ℤ grip.container_height
    → IsBetween max_height inset grip.container_height (top_value max_height grip now_y)
unfolding top_value
top_value-IsBetween grip inset max_height now_y held room =
    let limit : ℤ = max_height +ℤ grip.window_height -ℤ grip.container_height in
    let left : ℤ = grip.window_height -ℤ now_y in
    elim (Bool-cases (ltb_ℤ now_y limit)) [
      | inl above ↦ rw (top_value, above) (omega (int_laws, held.below), room)
      | inr within ↦ elim (Bool-cases (ltb_ℤ left (pos 150))) [
        | inl under ↦ rw (top_value, within, under) (omega (int_laws, held.below), omega int_laws)
        | inr inside ↦
            rw (top_value, within, inside)
              (free_IsBetween grip inset max_height now_y held (ge_ℤ left (pos 150) inside)
                (ge_ℤ now_y limit within))
      ]
    ]

-- While the bar is dragged, wherever the mouse is, at least 150 pixels, the `minHeight` of the code,
-- whose comment says 100, are left to the detail grid, and the bar rises above the upper limit by no more than the inset, if the container has
-- room for both limits.
pub move_lem :
    (g : Grid) (grip : Grip) (inset now_y : ℤ)
    → g.drag ≡ some grip
    → IsGrip grip inset
    → g.max_height +ℤ pos 150 ≤ℤ grip.container_height
    → (pos 150 ≤ℤ (move now_y g).tmp_top)
      × ((move now_y g).tmp_top ≤ℤ grip.container_height -ℤ g.max_height +ℤ inset)
unfolding move
move_lem g grip inset now_y d held room =
    let between : IsBetween g.max_height inset grip.container_height
        (top_value g.max_height grip now_y) =
      top_value-IsBetween grip inset g.max_height now_y held room in
    rw (move, d) (omega (int_laws, between.1), omega (int_laws, between.0))
