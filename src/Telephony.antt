-- ===== src/Telephony.antt =====
-- The telephone provider (backend/app/services/telephony/).
pub mod Breaker
pub mod Client
pub mod Outcome
pub mod Failure
