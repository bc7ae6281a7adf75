-- ===== src/Analysis.antt =====
-- Post-call analysis (backend/app/services/analysis/).
pub mod Scoring
pub mod Claim
