-- ===== src/Dialogs/Injection.antt =====
-- Which dialogs can be opened.
use chat_bot_hub.Prelude.{Bool, true, false, not, ◌≡◌, refl, get}
use chat_bot_hub.Dialogs.Controllers.{controllers}
use chat_bot_hub.Dialogs.{
  Dialog, create_bot, scan_wechat_bot, edit_bot, show_qq_login, show_wechat_login, bot_action,
  show_scan_url, create_filter, edit_filter, create_ft_suite, edit_ft_suite, options, lists,
  provided, opens,
}

-- The QQ login asks for a `botId` that its opener does not provide, and the suite's creation names
-- a controller that the program does not have.
abbrev pub is_broken : Dialog → Bool
is_broken show_qq_login = true
is_broken create_ft_suite = true
is_broken _ = false

-- A dialog of the three pages can be opened exactly if it is not one of the two broken ones.
pub opens_lem : (d : Dialog) → opens d ≡ not (is_broken d)
unfolding opens options get controllers provided lists
opens_lem create_bot = refl
opens_lem scan_wechat_bot = refl
opens_lem edit_bot = refl
opens_lem show_qq_login = refl
opens_lem show_wechat_login = refl
opens_lem bot_action = refl
opens_lem show_scan_url = refl
opens_lem create_filter = refl
opens_lem edit_filter = refl
opens_lem create_ft_suite = refl
opens_lem edit_ft_suite = refl
