-- ===== src/Feedback.antt =====
-- The services of frontend/static/app/common/services that tell the user something: the messages of
-- toastr.service.js, the overlays of block.service.js, and the uploads of upload-request.service.js.
-- The widgets behind them are third-party.
pub mod Toasts
pub mod Uploads
pub mod Blocks
mod Tests
