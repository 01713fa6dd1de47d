-- ===== src/Bots.antt =====
-- The controllers of the bots' pages, frontend/static/app/manage/controller/botslistCtrl.js.
pub mod Actions
pub mod SendAction
pub mod ScanUrl
mod Tests
