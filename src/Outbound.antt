-- ===== src/Outbound.antt =====
-- What may stop every new call (backend/app/services/: outbound_control.py, kill_switch.py,
-- provider_halt.py, spend_cap.py, outbound_gate.py).
pub mod Control
pub mod Budget
pub mod Gate
pub mod Streak
