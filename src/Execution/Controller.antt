-- ===== src/Execution/Controller.antt =====
-- backend/src/teco_quant/execution/controller.py: the state machine of a signal and every gate
-- before a trade. `World` is the controller with what it changes: the ledger, the live gateway's
-- own state, and a record of the mutations that were sent to the gateway (kept by the model only).
-- A clock reading is the argument `now`; the policy's seconds are in microseconds.
pub mod Policy
pub mod Gates
pub mod Live
pub mod Actions
pub mod Sound
pub mod Invariants
pub mod OnLedger
pub mod Safety
pub mod Duplicates
pub mod Refusals
pub mod PaperResults
pub mod Modes
pub mod Admission
pub mod KillSwitch
pub mod Halted
pub mod Uncertain
pub mod Approvals
