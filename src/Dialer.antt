-- ===== src/Dialer.antt =====
-- The calling worker (backend/app/services/queue/dialer_worker.py), on the Dograh engine: the native
-- provider, which drives the conversation subsystem, is not modelled.
pub mod Attempts
pub mod State
pub mod Reconcile
pub mod Trigger
pub mod Dial
pub mod Settle
pub mod Process
pub mod Letters
pub mod Deferral
pub mod Sweeper
pub mod Quiet
pub mod Once
