-- ===== src/Signals.antt =====
-- backend/src/teco_quant/signals/: from an accepted snapshot to a trade plan, and from the plan to
-- an order or a backtest.
pub mod Policy
pub mod Models
pub mod Decimals
pub mod Evidence
pub mod Greeks
pub mod Factors
pub mod Candidates
pub mod Plans
pub mod Pipeline
pub mod Adapters
pub mod Bounds
pub mod Sound
pub mod Fixtures
pub mod Tests
