-- ===== src/Strategy.antt =====
-- backend/src/teco_quant/strategy/spec.py: the strategy's policy, the scores, the decision and the
-- size of a position.
pub mod Config
pub mod Default
pub mod Scores
pub mod Decision
pub mod Sizing
pub mod Tests
