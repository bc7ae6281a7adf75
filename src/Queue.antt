-- ===== src/Queue.antt =====
-- The dial queue (backend/app/services/queue/).
pub mod Job
pub mod Lease
pub mod Stream
