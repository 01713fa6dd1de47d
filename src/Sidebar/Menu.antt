-- ===== src/Sidebar/Menu.antt =====
-- What clicks and addresses do to the submenus.
use chat_bot_hub.Prelude.{
  none, Option-cases, inl, inr, ap, ◌∙◌, ℕ, zero, suc, true, not, ◌&&◌, ◌||◌, some, List, [], ◌∷◌,
  ◌==◌, map, get_elem?, set, ◌≡◌, refl, arith, if◌then◌else◌,
}
use chat_bot_hub.Sidebar.{Item, slide_up, slide_down, close, turn, slide_expand}

module _ {A : Type 0} where
  get_elem?-map :
      (f : A → A) (xs : List A) (j : ℕ) (x : A)
      → get_elem? xs j ≡ some x
      → get_elem? (map f xs) j ≡ some (f x)
  get_elem?-map f [] j x h = cc
  get_elem?-map f (y ∷ xs) zero x h = ground (arith, h)
  get_elem?-map f (y ∷ xs) (suc j) x h = get_elem?-map f xs j x h

  -- At the place of an element that there is.
  pub get_elem?-set-map :
      (f : A → A) (xs : List A) (i j : ℕ) (v x : A)
      → get_elem? xs j ≡ some x
      → get_elem? (set (map f xs) i v) j ≡ some (if j == i then v else f x)
  get_elem?-set-map f [] i j v x h = cc
  get_elem?-set-map f (y ∷ xs) zero zero v x h = refl
  get_elem?-set-map f (y ∷ xs) zero (suc j) v x h = ground (arith, get_elem?-map f xs j x h)
  get_elem?-set-map f (y ∷ xs) (suc i) zero v x h = ground (arith, h)
  get_elem?-set-map f (y ∷ xs) (suc i) (suc j) v x h =
      ground (arith, get_elem?-set-map f xs i j v x h)

module _ {A : Type 0} where
  get_elem?-map-none :
      (f : A → A) (xs : List A) (j : ℕ) → get_elem? xs j ≡ none → get_elem? (map f xs) j ≡ none
  get_elem?-map-none f [] j h = refl
  get_elem?-map-none f (x ∷ xs) zero h = cc
  get_elem?-map-none f (x ∷ xs) (suc j) h = get_elem?-map-none f xs j h

  get_elem?-set-none :
      (f : A → A) (xs : List A) (i j : ℕ) (v : A)
      → get_elem? xs j ≡ none
      → get_elem? (set (map f xs) i v) j ≡ none
  get_elem?-set-none f [] i j v h = refl
  get_elem?-set-none f (x ∷ xs) i zero v h = cc
  get_elem?-set-none f (x ∷ xs) zero (suc j) v h = get_elem?-map-none f xs j h
  get_elem?-set-none f (x ∷ xs) (suc i) (suc j) v h = get_elem?-set-none f xs i j v h

  pub map-same : (xs : List A) → map (λ x. x) xs ≡ xs
  map-same [] = refl
  map-same (x ∷ xs) = ap (x ∷◌) (map-same xs)

-- An element behind a write at a place, where every element went through a function.
module _ {A : Type 0} where
  pub written :
      (f : A → A) (xs : List A) (i j : ℕ) (v a : A)
      → get_elem? (set (map f xs) i v) j ≡ some a
      → (x : A) × (get_elem? xs j ≡ some x) × (a ≡ (if j == i then v else f x))
  written f xs i j v a h = elim (Option-cases (get_elem? xs j)) [
    | inl missing ↦ absurd (ground (arith, h, get_elem?-set-none f xs i j v missing))
    | inr (x, found) ↦ (x, found, ground (arith, h, get_elem?-set-map f xs i j v x found))
  ]

pub same_item :
    (items : List Item) (i j : ℕ) (it jt : Item)
    → get_elem? items i ≡ some it
    → get_elem? items j ≡ some jt
    → (j == i) ≡ true
    → it ≡ jt
same_item items i j it jt h g e = ground (arith, h, g, e)

pub expanded_lem :
    (items : List Item) (i : ℕ) (it : Item)
    → get_elem? items i ≡ some it
    → it.has_sub ≡ true
    → slide_expand items i ≡ set (map close items) i (turn (close it))
unfolding slide_expand
expanded_lem items i it h k = ground (arith, h, k)

-- A click on the link of an element with a submenu, whatever the state of the menu is: the element
-- is open afterwards if its submenu was not visible, and no other element of the list is; and the
-- submenus of those that were open close, unless they are always open.
pub slide_expand_lem :
    (items : List Item) (i j : ℕ) (it jt : Item)
    → get_elem? items i ≡ some it
    → it.has_sub ≡ true
    → get_elem? items j ≡ some jt
    → (new : Item) × (get_elem? (slide_expand items i) j ≡ some new)
      × (new.is_open ≡ (j == i && not it.visible))
      × (new.will_show ≡ (
          if j == i
          then not it.visible
          else jt.will_show && not (jt.is_open && not jt.always_open)))
      × (new.visible ≡ (jt.visible || j == i))
unfolding turn close slide_up slide_down
slide_expand_lem items i j it jt h k g = (
  if j == i then turn (close it) else close jt,
  ap (λ (l : List Item). get_elem? l j) (expanded_lem items i it h k)
      ∙ get_elem?-set-map close items i j (turn (close it)) jt g,
  ground arith,
  ground arith,
  ground (arith, same_item items i j it jt h g),
)
