-- ===== src/Execution/Ledger.antt =====
-- backend/src/teco_quant/execution/ledger.py: the SQLite ledger. Each table is the list of its
-- rows, the newest row first, so `rowid DESC` is the order of the list; a `CREATE TABLE` constraint
-- is a test at each insert; texts of decimals and timestamps stand for their values.
pub mod Rows
pub mod Signals
pub mod Orders
pub mod Positions
pub mod Consistency
pub mod Retention
pub mod Frames
pub mod Effects
