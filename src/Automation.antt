-- ===== src/Automation.antt =====
-- backend/src/teco_quant/automation/: every evaluation is kept, and an actionable plan is submitted.
pub mod History
pub mod Service
pub mod Sound
pub mod Once
pub mod Tests
