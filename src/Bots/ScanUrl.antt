-- ===== src/Bots/ScanUrl.antt =====
-- `scanUrlCtrl` of frontend/static/app/manage/controller/botslistCtrl.js: the dialog that asks for
-- the bot every three seconds until it has a url to scan, or is closed.
pub mod Polling
use chat_bot_hub.Prelude.{
  ℕ, suc, ◌+◌, ◌-◌, ◌<◌, String, Bool, true, false, Option, none, some, if◌then◌else◌,
}

-- `timers` and `in_flight` count the timeouts and requests that are pending, `sent` all requests.
pub record Scan : Type 0 where
  pub flag : Bool
  pub scan_url : Option String
  pub dismissed : Bool
  pub timers : ℕ
  pub in_flight : ℕ
  pub sent : ℕ

-- The answer: `data.body` is undefined, `bot.scanUrl` is, or neither.
pub data Answer : Type 0 where
  no_body no_url : Answer
  found : String → Answer

unfoldable pub refresh : Scan → Scan
refresh s = record s { in_flight = s.in_flight + 1; sent = s.sent + 1 }

-- The controller's body ends with the first call of `refresh`.
unfoldable pub opened : Scan
opened = refresh (record {
  flag = true;
  scan_url = none;
  dismissed = false;
  timers = 0;
  in_flight = 0;
  sent = 0;
})

-- `if ($scope.flag) { setTimeout(...) }`.
unfoldable pub retry : Scan → Scan
retry s = if s.flag then record s { timers = s.timers + 1 } else s

unfoldable pub on_answer : Scan → Answer → Scan
on_answer s no_body = retry (record s { in_flight = s.in_flight - 1 })
on_answer s no_url = retry (record s { in_flight = s.in_flight - 1 })
on_answer s (found url) = record s {
  in_flight = s.in_flight - 1;
  scan_url = some url;
  flag = false;
}

unfoldable pub on_timer : Scan → Scan
on_timer s = refresh (record s { timers = s.timers - 1 })

unfoldable pub close : Scan → Scan
close s = record s { flag = false; dismissed = true }

-- What may happen: the answer or the failure of a pending request, a pending timeout, or the
-- user's closing of the dialog.
pub data Step (s : Scan) : Scan → Type 0 where
  answered : (a : Answer) → 0 < s.in_flight → Step s (on_answer s a)
  failed : 0 < s.in_flight → Step s (record s { in_flight = s.in_flight - 1 })
  fired : 0 < s.timers → Step s (on_timer s)
  closed : Step s (close s)

pub data Reach (s : Scan) : Scan → Type 0 where
  here : Reach s s
  next : {t u : Scan} → Reach s t → Step t u → Reach s u
