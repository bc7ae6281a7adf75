-- ===== src/Calling.antt =====
-- The calling window: when a campaign may place a call.
pub mod Window
