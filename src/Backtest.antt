-- ===== src/Backtest.antt =====
-- backend/src/teco_quant/backtesting: the replay of option strategies over recorded frames.
pub mod Models
pub mod Fills
pub mod Engine
pub mod Entries
pub mod Run
pub mod Metrics
pub mod Sound
mod Tests
