-- ===== src/Domain.antt =====
-- backend/src/teco_quant/domain: the normalized market models.
pub mod Enums
pub mod Models
pub mod Clock
pub mod Overrides
