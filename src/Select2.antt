-- ===== src/Select2.antt =====
-- The binding of a form's control to the widget select2:
-- frontend/static/app/common/directives/ui-select2.directive.js. The widget and the ngModelController of
-- Angular are third-party: each is given as a type of states with the operations that the directive
-- calls, and what is documented of them, in the versions that the program loads: select2 4.0.0, which
-- the constants of app.constant.js name, and Angular 1.4.7.
pub mod Laws
mod Tests
use Prim.Native.Char.{code}
use Prim.Native.String
use chat_bot_hub.Prelude.{
  ℕ, String, Bool, true, false, ◌&&◌, ◌||◌, not, Option, none, some, List, [], ◌∷◌, ◌≡◌, ◌==◌,
  if◌then◌else◌,
}
use chat_bot_hub.Js.{
  Value, Fields, Items, field, end, item, no_items, undefined, null, num, str, bool, obj, arr,
  truthy, prop,
}

-- The options of the directive, with whether the element is a `select`.
pub record Options : Type 0 where
  pub is_select : Bool
  pub multiple : Bool
  pub simple_tags : Bool
  pub has_init_selection : Bool

-- What `link` makes of the options before the widget is set up, with whether the element has the
-- attribute `multiple`.
unfoldable pub linked : Bool → Options → Options
linked is_multiple o =
    if o.is_select
    then record o { multiple = false; has_init_selection = false }
    else record o { multiple = o.multiple || is_multiple }

-- `value.id`, which throws where there is no object to look into.
unfoldable pub id_of : Value → Option Value
id_of undefined = none
id_of null = none
id_of v = some (prop v "id")

unfoldable pub push : Option Value → Option Items → Option Items
push none rest = none
push (some v) none = none
push (some v) (some vs) = some (item v vs)

unfoldable pub ids : Items → Option Items
ids no_items = some no_items
ids (item v vs) = push (id_of v) (ids vs)

-- What `angular.forEach` goes through in an object.
unfoldable pub values : Fields → Items
values end = no_items
values (field k v fs) = item v (values fs)

-- A text is gone through by its characters, which have no `id`.
unfoldable pub no_ids : String → Items
no_ids String.[] = no_items
no_ids (String.◌∷◌ c s) = item undefined (no_ids s)

unfoldable pub collected : Option Items → Option Value
collected none = none
collected (some vs) = some (arr vs)

-- The model that `forEach` fills.
unfoldable pub collect : Value → Option Items
collect (arr vs) = ids vs
collect (obj fs) = ids (values fs)
collect (str s) = some (no_ids s)
collect v = some no_items

-- `convertToAngularModel`.
unfoldable pub convert_to_angular_model : Options → Value → Option Value
convert_to_angular_model o v = if o.simple_tags then collected (collect v) else some v

abbrev pub tag : Value → Value
tag v = obj (field "id" v (field "text" v end))

unfoldable pub tags : Items → Items
tags no_items = no_items
tags (item v vs) = item (tag v) (tags vs)

-- The characters of a text, each as a text.
unfoldable pub letters : String → Items
letters String.[] = no_items
letters (String.◌∷◌ c s) = item (str (String.◌∷◌ c String.[])) (letters s)

unfoldable pub tagged : Value → Items
tagged (arr vs) = tags vs
tagged (obj fs) = tags (values fs)
tagged (str s) = tags (letters s)
tagged v = no_items

-- `convertToSelect2Model`.
unfoldable pub convert_to_select2_model : Options → Value → Value
convert_to_select2_model o v =
    if truthy v then (if o.simple_tags then arr (tagged v) else v) else arr no_items

unfoldable pub push_first : String → Items → Items
push_first c no_items = no_items
push_first c (item (str s) vs) = item (str (String.◌++◌ c s)) vs
push_first c (item v vs) = item v vs

-- `viewValue.split(',')`.
unfoldable pub split : String → Items
split String.[] = item (str "") no_items
split (String.◌∷◌ c s) =
    if code c == b','
    then item (str "") (split s)
    else push_first (String.◌∷◌ c String.[]) (split s)

-- A text is taken for a list.
unfoldable pub split_text : Value → Value
split_text (str s) = arr (split s)
split_text v = v

pub record Widget (W : Type 0) : Type 0 where
  -- What is selected, and what it becomes when the user picks.
  pub selection : W → Items
  pub pick : Items → W → W
  -- `elm.select2('data', v)`, `elm.select2('val', v)`, `elm.val(v)` and `elm.select2('data')`.
  pub set_data : Value → W → W
  pub set_val : Value → W → W
  pub elm_val : Value → W → W
  pub data_of : W → Value
  pub selection-pick : (vs : Items) (w : W) → selection (pick vs w) ≡ vs
  -- The method `data` of select2 4 takes no value: it does not set anything, and returns what is
  -- selected.
  pub selection-set_data : (v : Value) (w : W) → selection (set_data v w) ≡ selection w
  pub data_of_lem : (w : W) → data_of w ≡ arr (selection w)

pub record NgModel (C : Type 0) : Type 0 where
  pub view : C → Value
  pub model : C → Value
  pub pristine : C → Bool
  -- Whether the form that the control belongs to is dirty.
  pub form_dirty : C → Bool
  pub set_view : Value → C → C
  pub set_pristine : C → C
  -- The assignment of `$pristine`.
  pub put_pristine : Bool → C → C
  pub view-set_view : (v : Value) (c : C) → view (set_view v c) ≡ v
  pub view-set_pristine : (c : C) → view (set_pristine c) ≡ view c
  pub pristine-set_pristine : (c : C) → pristine (set_pristine c) ≡ true
  pub form_dirty-set_pristine : (c : C) → form_dirty (set_pristine c) ≡ form_dirty c
  pub pristine-put : (b : Bool) (c : C) → pristine (put_pristine b c) ≡ b
  pub form_dirty-put : (b : Bool) (c : C) → form_dirty (put_pristine b c) ≡ form_dirty c
  -- `$modelValue` was assigned by the program, and Angular has made it the view value.
  pub show : Value → C → C
  pub view-show : (v : Value) (c : C) → view (show v c) ≡ v
  -- The view value is the one that was committed last, so that `$commitViewValue` does nothing.
  pub unchanged : Value → C → Bool
  -- Another view value makes a pristine control and its form dirty.
  pub pristine-set_view :
      (v : Value) (c : C) → pristine (set_view v c) ≡ (unchanged v c && pristine c)
  pub form_dirty-set_view :
      (v : Value) (c : C)
      → form_dirty (set_view v c) ≡ (form_dirty c || not (unchanged v c) && pristine c)

module _ {C W : Type 0} (ng : NgModel C) (wd : Widget W) (o : Options) where
  unfoldable pub render_single : Value → W → W
  render_single (obj fs) w = wd.set_data (obj fs) w
  render_single (arr vs) w = wd.set_data (arr vs) w
  render_single v w = if truthy v then wd.set_val v w else wd.set_data null w

  -- `controller.$render`; the change of a `select` that it triggers has no handler here.
  unfoldable pub render : C × W → C × W
  render (c, w) =
      if o.is_select
      then (c, wd.elm_val (ng.view c) w)
      else if o.multiple
      then (c, wd.set_data (convert_to_select2_model o (split_text (ng.view c))) w)
      else (c, render_single (ng.view c) w)

  -- The watch of the model, given what it was and is, and whether these are the same.
  unfoldable pub on_model : Value → Bool → C × W → C × W
  on_model current same s = if not (truthy current) || same then s else render s

  -- A conversion that throws leaves the view value; what follows it is not run.
  unfoldable pub set_converted : (C → C) → Value → C → C
  set_converted after v c = elim (convert_to_angular_model o v) [
    | none ↦ c
    | some w ↦ after (ng.set_view w c)
  ]

  -- The handler of `change`, which only a control that is no `select` has, with whether a digest is in
  -- progress.
  unfoldable pub on_change : Bool → C × W → C × W
  on_change in_digest (c, w) =
      if o.is_select || in_digest then (c, w) else (set_converted (λ d. d) (wd.data_of w) c, w)

  abbrev pub restore : Bool → C → C
  restore was_pristine c = if was_pristine then ng.set_pristine c else c

  -- `init`.
  unfoldable pub init : C × W → C × W
  init (c, w) =
      let set = wd.set_data (ng.model c) w in
      if o.has_init_selection || o.is_select
      then (c, set)
      else (set_converted (restore (ng.pristine c)) (wd.data_of set) (ng.put_pristine false c), set)

  -- The callback that the directive hands to the given `initSelection`.
  unfoldable pub on_init_selection : Value → C → C
  on_init_selection v c = set_converted (restore (ng.pristine c)) v c

  pub data Event : Type 0 where
    -- The program assigns a value to the model; the user picks.
    assigned : Value → Event
    picked : Items → Event

  -- An assignment is rendered, and a pick ends with `change`, outside of a digest.
  unfoldable pub step : Event → C × W → C × W
  step (assigned v) (c, w) = render (ng.show v c, w)
  step (picked vs) (c, w) = on_change false (c, wd.pick vs w)

  unfoldable pub run : List Event → C × W → C × W
  run [] s = s
  run (e ∷ es) s = run es (step e s)
