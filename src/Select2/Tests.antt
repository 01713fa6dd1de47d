-- ===== src/Select2/Tests.antt =====
-- A control and a widget that keep what they are given.
use chat_bot_hub.Prelude.{Bool, true, false, ◌||◌, some, List, [], ◌∷◌, ◌≡◌, refl}
use chat_bot_hub.Js.{Value, Items, item, no_items, str, arr, null, prop, get_field}
use chat_bot_hub.Select2.{
  Options, Widget, NgModel, on_change, init, convert_to_angular_model, collect, collected, ids,
  id_of, push, tags, set_converted, Event, assigned, picked, step, run,
}
use chat_bot_hub.Select2.Laws.{init-keeps}

record Control : Type 0 where
  view : Value
  model : Value
  pristine : Bool
  form_dirty : Bool

abbrev set_view : Value → Control → Control
set_view v c = record {
  view = v;
  model = v;
  pristine = false;
  form_dirty = c.form_dirty || c.pristine;
}

abbrev control : NgModel Control
control = record {
  view = λ c. c.view;
  model = λ c. c.model;
  pristine = λ c. c.pristine;
  form_dirty = λ c. c.form_dirty;
  set_view = set_view;
  set_pristine = λ c. record c { pristine = true };
  put_pristine = λ b c. record c { pristine = b };
  view-set_view = λ v c. refl;
  view-set_pristine = λ c. refl;
  pristine-set_pristine = λ c. refl;
  form_dirty-set_pristine = λ c. refl;
  pristine-put = λ b c. refl;
  form_dirty-put = λ b c. refl;
  show = λ v c. record c { view = v; model = v };
  view-show = λ v c. refl;
  unchanged = λ v c. false;
  pristine-set_view = λ v c. refl;
  form_dirty-set_view = λ v c. refl;
}

-- The widget is what is selected.
abbrev widget : Widget Items
widget = record {
  selection = λ w. w;
  pick = λ vs w. vs;
  set_data = λ v w. w;
  set_val = λ v w. w;
  elm_val = λ v w. w;
  data_of = λ w. arr w;
  selection-pick = λ vs w. refl;
  selection-set_data = λ v w. refl;
  data_of_lem = λ w. refl;
}

abbrev with_tags : Options
with_tags = record {
  is_select = false;
  multiple = true;
  simple_tags = true;
  has_init_selection = false;
}

abbrev fresh : Control
fresh = record { view = str "a,b"; model = null; pristine = true; form_dirty = false }

abbrev events : List (Event control widget with_tags)
events =
    picked (tags (item (str "a") no_items))
    ∷ assigned (str "b,c")
    ∷ picked (tags (item (str "a") (item (str "d") no_items)))
    ∷ []

-- The user adds one tag to what is shown, and what the program assigned is gone.
overwritten :
    (run control widget with_tags events (fresh, no_items)).0.view
    ≡ arr (item (str "a") (item (str "d") no_items))
unfolding run step on_change set_converted convert_to_angular_model collect collected ids id_of push
    tags prop get_field
overwritten = refl

first_converts : convert_to_angular_model with_tags (arr no_items) ≡ some (arr no_items)
unfolding convert_to_angular_model collect collected ids
first_converts = refl

init-keeps_example :
    ((init control widget with_tags (fresh, no_items)).0.pristine ≡ true)
    × ((init control widget with_tags (fresh, no_items)).0.form_dirty ≡ false)
init-keeps_example =
    init-keeps control widget with_tags fresh no_items (arr no_items) first_converts
