-- ===== src/Forms/Placement/Tests.antt =====
-- A form with two controls in one element, and one without a name.
use chat_bot_hub.Prelude.{none, some, List, [], ◌∷◌, ◌≡◌, refl, map}
use chat_bot_hub.Forms.Messages.{validate_attrs}
use chat_bot_hub.Forms.Messages.Laws.{present}
use chat_bot_hub.Forms.Placement.{Control, named, compile, class_value}
use chat_bot_hub.Forms.Placement.Laws.{elements_of, class_in, last_class, Compiled, compile_lem}

abbrev controls : List Control
controls =
    record { name = some "low"; attributes = ("required", "") ∷ ("number", "") ∷ []; parent = 1 }
    ∷ record { name = none; attributes = ("required", "") ∷ []; parent = 2 }
    ∷ record { name = some "high"; attributes = ("maxval", "9") ∷ []; parent = 1 }
    ∷ []

-- The class of the element is that of the second control.
highlighted : last_class "f" 1 controls ≡ some "{'has-error': f.showError && f.high.$invalid}"
unfolding last_class class_in class_value
highlighted = refl

compile_lem_example :
    Compiled (named (some "f")) controls (compile (some "f") controls)
    × ((c : Control)
        → map (λ e. e.ng_message) (elements_of c) ≡ present c.attributes validate_attrs)
compile_lem_example = compile_lem (some "f") controls
