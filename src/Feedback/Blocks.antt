-- ===== src/Feedback/Blocks.antt =====
-- The overlays of frontend/static/app/common/services/block.service.js, and what the interceptors ask of
-- them. The plugin that draws an overlay is third-party; heights are those of the page.
pub mod Named
pub mod Targets
use chat_bot_hub.Prelude.{
  ℕ, String, str_eq, Bool, true, false, ◌||◌, Option, none, some, leb, ◌==◌, if◌then◌else◌,
}
use chat_bot_hub.Http.{
  Effect, toast_error, complete_bar, block_ui, unblock_ui, remove_token, redirect_later,
  rearm_later,
}

-- The options of `blockUI`.
pub record Options : Type 0 where
  pub target : Option String
  pub boxed : Bool
  pub message : Option String
  pub z_index : Option ℕ
  pub overlay_color : Option String
  pub cenrer_y : Bool

-- What the plugin is given, as far as it differs between calls; `message` is none for the spinner,
-- which looks otherwise if it is boxed, and `color` none for the usual one.
pub record Overlay : Type 0 where
  pub target : String
  pub message : Option String
  pub boxed : Bool
  pub base_z : ℕ
  pub color : Option String
  pub center_y : Bool

pub data Outcome : Type 0 where
  blocks : Overlay → Outcome
  unblocks_at : String → Outcome
  unblocks_page : Outcome
  reference_error : Outcome
  type_error : Outcome

abbrev pub named : Option String → Option String
named none = none
named (some s) = if str_eq s "" then none else some s

-- `options.zIndex ? options.zIndex : 10000`.
unfoldable pub base_of : Option ℕ → ℕ
base_of none = 10000
base_of (some z) = if z == 0 then 10000 else z

-- The branches of `blockUI` on the target. Without one it reads `toptionsboxed`, a name that nothing
-- declares.
unfoldable pub block_at : (String → ℕ) → ℕ → Options → Option String → Outcome
block_at height window o none = reference_error
block_at height window o (some target) = blocks (record {
  target = target;
  message = named o.message;
  boxed = o.boxed;
  base_z = base_of o.z_index;
  color = named o.overlay_color;
  center_y = o.cenrer_y || leb (height target) window;
})

-- `blockUI`.
unfoldable pub block : (String → ℕ) → ℕ → Options → Outcome
block height window o = block_at height window o (named o.target)

unfoldable pub unblock_at : Option String → Outcome
unblock_at none = unblocks_page
unblock_at (some target) = unblocks_at target

-- `unblockUI`.
unfoldable pub unblock : Option String → Outcome
unblock target = unblock_at (named target)

-- `quickBlock`; a key that `targetList` has not is a TypeError.
unfoldable pub quick_block : (String → ℕ) → ℕ → String → Options → Outcome
quick_block height window key o =
    if str_eq key "window" || str_eq key "container"
    then block height window (record o { target = some key })
    else type_error

-- What an effect of the interceptors asks of the service.
unfoldable pub serve : (String → ℕ) → ℕ → Effect → Option Outcome
serve height window (block_ui id) = some (
    block height window (record {
      target = some id;
      boxed = false;
      message = none;
      z_index = none;
      overlay_color = none;
      cenrer_y = false;
    }))
serve height window (unblock_ui id) = some (unblock (some id))
serve height window _ = none
