-- ===== src/Execution.antt =====
-- backend/src/teco_quant/execution: the controlled execution of trade plans.
pub mod Errors
pub mod Models
pub mod StoredTests
pub mod Ledger
pub mod Paper
pub mod Controller
pub mod Fixtures
mod Tests
