-- ===== src/Select2/Laws.antt =====
-- What the form and the widget hold of each other's values, and whether setting up makes the form dirty.
use chat_bot_hub.Prelude.{
  List, [], ◌∷◌, Bool, true, false, ◌||◌, none, some, ◌≡◌, refl, ap, ◌∙◌, ◌⊎◌, inl, inr, arith,
  Bool-cases,
}
use chat_bot_hub.Js.{Value, Items, arr}
use chat_bot_hub.Select2.{
  Options, convert_to_angular_model, Widget, NgModel, set_converted, restore, init,
  on_init_selection, Event, assigned, picked, run,
}

-- The view value behind the `change` of a widget with a selection, where what cannot be converted leaves
-- the old one.
unfoldable pub written : Options → Items → Value → Value
written o vs old = elim (convert_to_angular_model o (arr vs)) [ none ↦ old | some v ↦ v ]

module _ {C W : Type 0} (ng : NgModel C) (wd : Widget W) (o : Options) where
  -- The last selection of the user, or else the one before.
  pub last_picked : List (Event ng wd o) → Items → Items
  last_picked [] old = old
  last_picked (assigned v ∷ es) old = last_picked es old
  last_picked (picked vs ∷ es) old = last_picked es vs

  -- What was assigned or picked last.
  pub last_shown : List (Event ng wd o) → Value → Value
  last_shown [] old = old
  last_shown (assigned v ∷ es) old = last_shown es v
  last_shown (picked vs ∷ es) old = last_shown es (written o vs old)

  set_converted-some :
      (after : C → C) (v u : Value) (c : C)
      → convert_to_angular_model o v ≡ some u
      → set_converted ng wd o after v c ≡ after (ng.set_view u c)
  unfolding set_converted
  set_converted-some after v u c e = rw (set_converted, e) refl

  restore-form_dirty :
      (was : Bool) (c : C) → ng.form_dirty (restore ng wd o was c) ≡ ng.form_dirty c
  restore-form_dirty true c = ng.form_dirty-set_pristine c
  restore-form_dirty false c = refl

  restore-pristine :
      (was : Bool) (v : Value) (c : C)
      → ng.pristine c ≡ false
      → ng.pristine (restore ng wd o was (ng.set_view v c)) ≡ was
  restore-pristine true v c h = ng.pristine-set_pristine (ng.set_view v c)
  restore-pristine false v c h = ng.pristine-set_view v c ∙ ground (arith, h)

  -- What the directive converts when it is set up.
  abbrev pub first_data : C → W → Value
  first_data c w = wd.data_of (wd.set_data (ng.model c) w)

  -- The control after it is set up, where the directive converts its first value.
  abbrev started : Value → C → C
  started v c = restore ng wd o (ng.pristine c) (ng.set_view v (ng.put_pristine false c))

  init-cases :
      (c : C) (w : W) (v : Value)
      → convert_to_angular_model o (first_data c w) ≡ some v
      → ((init ng wd o (c, w)).0 ≡ c) ⊎ ((init ng wd o (c, w)).0 ≡ started v c)
  unfolding init
  init-cases c w v e = elim (Bool-cases (o.has_init_selection || o.is_select)) [
    | inl skip ↦ inl (rw skip refl)
    | inr run ↦ inr (
        rw run (
          set_converted-some (restore ng wd o (ng.pristine c)) (first_data c w) v
            (ng.put_pristine false c) e))
  ]

  -- Where the first value can be converted, setting up leaves a pristine control pristine, a dirty one
  -- dirty, and its form as it is, whatever the options.
  pub init-keeps :
      (c : C) (w : W) (v : Value)
      → convert_to_angular_model o (first_data c w) ≡ some v
      → (ng.pristine (init ng wd o (c, w)).0 ≡ ng.pristine c)
        × (ng.form_dirty (init ng wd o (c, w)).0 ≡ ng.form_dirty c)
  init-keeps c w v e = elim (init-cases c w v e) [
    | inl same ↦ (ap ng.pristine same, ap ng.form_dirty same)
    | inr begun ↦ (
      ap ng.pristine begun
          ∙ restore-pristine (ng.pristine c) v (ng.put_pristine false c) (ng.pristine-put false c),
      ap ng.form_dirty begun
          ∙ restore-form_dirty (ng.pristine c) (ng.set_view v (ng.put_pristine false c))
          ∙ ng.form_dirty-set_view v (ng.put_pristine false c)
          ∙ ground (arith, ng.pristine-put false c, ng.form_dirty-put false c),
    )
  ]

  -- The values that `initSelection` finds for a pristine control make its form dirty, though the
  -- control is pristine again.
  pub on_init_selection-dirty :
      (c : C) (v u : Value)
      → convert_to_angular_model o v ≡ some u
      → ng.pristine c ≡ true
      → ng.unchanged u c ≡ false
      → (ng.pristine (on_init_selection ng wd o v c) ≡ true)
        × (ng.form_dirty (on_init_selection ng wd o v c) ≡ true)
  unfolding on_init_selection
  on_init_selection-dirty c v u e p other =
      let done = set_converted-some (restore ng wd o (ng.pristine c)) v u c e in
      (
        ap ng.pristine done
            ∙ ap (λ b. ng.pristine (restore ng wd o b (ng.set_view u c))) p
            ∙ ng.pristine-set_pristine (ng.set_view u c),
        ap ng.form_dirty done
            ∙ restore-form_dirty (ng.pristine c) (ng.set_view u c)
            ∙ ng.form_dirty-set_view u c
            ∙ ground (arith, p, other),
      )
