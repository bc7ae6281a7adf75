-- ===== src/Recovery.antt =====
-- Retries (backend/app/services/recovery/).
pub mod Scheduler
pub mod Manager
pub mod Dispatch
pub mod Rebuild
