-- ===== src/Validation.antt =====
-- backend/src/teco_quant/ingestion/validation.py: the fail-closed validation of a snapshot. A check
-- answers with the issues that it appends. An issue keeps its code, severity and path; its message
-- and the values that it quotes, which nothing reads back, are left out.
pub mod Issues
pub mod Envelope
pub mod Contract
pub mod State
pub mod Quote
pub mod Reference
pub mod Chain
pub mod Snapshot
pub mod Sound
pub mod Fixtures
pub mod Tests
