-- ===== src/Execution/Ledger/Consistency.antt =====
-- What the ledger's tables always satisfy: keys are distinct, references resolve, quantities are
-- in range, a security has at most one open position, and a closed position is accounted for.
pub mod Signals
pub mod Orders
pub mod Positions
use techo_quant_options_pro.Prelude.{
  ℕ, String, Bool, true, false, ◌&&◌, ◌≡◌, refl, ◌≤◌, ◌<◌, Option, none, some, List, [], ◌∷◌, any,
  All, All-map, Distinct, is_some,
}
use techo_quant_options_pro.Time.{DateTime}
use techo_quant_options_pro.Execution.Models.{BrokerOrder, BrokerFill, PositionState, is_open}
use techo_quant_options_pro.Execution.Ledger.Rows.{
  Ledger, SignalRow, ApprovalRow, PositionRow, create_schema,
}
use techo_quant_options_pro.Execution.Ledger.Signals.{has_signal_id}
use techo_quant_options_pro.Execution.Ledger.Orders.{has_order_id, holds_security}

abbrev pub Known : List SignalRow → String → Type 0
Known signals id = any (has_signal_id id) signals ≡ true

-- A row repeats the identity of its plan.
abbrev pub MatchesPlan : SignalRow → Type 0
MatchesPlan row =
    (row.signal_id ≡ row.plan.signal_id)
    × (row.correlation_id ≡ row.plan.correlation_id)
    × (row.security_id ≡ row.plan.security_id)

pub record IsSignalTable (signals : List SignalRow) : Type 0 where
  pub ids : Distinct (λ r. r.signal_id) signals
  pub correlations : Distinct (λ r. r.correlation_id) signals
  pub plans : All MatchesPlan signals

pub record IsApprovalTable (signals : List SignalRow) (approvals : List ApprovalRow) : Type 0 where
  pub ids : Distinct (λ r. r.signal_id) approvals
  pub known : All (λ r. Known signals r.signal_id) approvals

abbrev pub IsFillable : BrokerOrder → Type 0
IsFillable o = (0 < o.quantity) × (o.filled_quantity ≤ o.quantity)

pub record IsOrderTable (signals : List SignalRow) (orders : List BrokerOrder) : Type 0 where
  pub ids : Distinct (λ r. r.order_id) orders
  pub correlations : Distinct (λ r. r.correlation_id) orders
  pub per_signal : Distinct (λ r. r.signal_id) orders
  pub known : All (λ r. Known signals r.signal_id) orders
  pub fillable : All IsFillable orders

pub record IsFillTable (orders : List BrokerOrder) (fills : List BrokerFill) : Type 0 where
  pub ids : Distinct (λ r. r.fill_id) fills
  pub known : All (λ r. any (has_order_id r.order_id) orders ≡ true) fills
  pub positive : All (λ r. 0 < r.quantity) fills

abbrev pub OneOpen : List PositionRow → Type 0
OneOpen [] = Unit
OneOpen (p ∷ ps) = ((is_open p.state && any (holds_security p.security_id) ps) ≡ false) × OneOpen ps

-- A closed row has its time, its day and its profit or loss.
abbrev pub Accounted : PositionState → PositionRow → Type 0
Accounted PositionState.opened row = Unit
Accounted PositionState.closed row =
    (is_some row.closed_at ≡ true)
    × (is_some row.closed_day ≡ true)
    × (is_some row.realized_pnl ≡ true)

abbrev pub IsAccounted : PositionRow → Type 0
IsAccounted row = Accounted row.state row

pub record IsPositionTable (signals : List SignalRow) (positions : List PositionRow) : Type 0 where
  pub ids : Distinct (λ r. r.position_id) positions
  pub per_signal : Distinct (λ r. r.signal_id) positions
  pub known : All (λ r. Known signals r.signal_id) positions
  pub positive : All (λ r. 0 < r.quantity) positions
  pub one_open : OneOpen positions
  pub accounted : All IsAccounted positions

pub record IsConsistent (l : Ledger) : Type 0 where
  pub signals : IsSignalTable l.signals
  pub approvals : IsApprovalTable l.signals l.approvals
  pub orders : IsOrderTable l.signals l.orders
  pub fills : IsFillTable l.orders l.fills
  pub positions : IsPositionTable l.signals l.positions

pub create_schema-IsConsistent : (now : DateTime) → IsConsistent (create_schema now)
create_schema-IsConsistent now = record {
  signals = record { ids = tt; correlations = tt; plans = tt };
  approvals = record { ids = tt; known = tt };
  orders = record { ids = tt; correlations = tt; per_signal = tt; known = tt; fillable = tt };
  fills = record { ids = tt; known = tt; positive = tt };
  positions = record {
    ids = tt;
    per_signal = tt;
    known = tt;
    positive = tt;
    one_open = tt;
    accounted = tt;
  };
}

-- A signal table that has every signal of another serves the tables that refer to it.
module _ (old new : List SignalRow) (covers : (id : String) → Known old id → Known new id) where
  pub approvals-covers :
      (approvals : List ApprovalRow) → IsApprovalTable old approvals → IsApprovalTable new approvals
  approvals-covers approvals h = record {
    ids = h.ids;
    known = All-map (λ r. covers r.signal_id) approvals h.known;
  }

  pub orders-covers :
      (orders : List BrokerOrder) → IsOrderTable old orders → IsOrderTable new orders
  orders-covers orders h = record {
    ids = h.ids;
    correlations = h.correlations;
    per_signal = h.per_signal;
    known = All-map (λ r. covers r.signal_id) orders h.known;
    fillable = h.fillable;
  }

  pub positions-covers :
      (positions : List PositionRow) → IsPositionTable old positions → IsPositionTable new positions
  positions-covers positions h = record {
    ids = h.ids;
    per_signal = h.per_signal;
    known = All-map (λ r. covers r.signal_id) positions h.known;
    positive = h.positive;
    one_open = h.one_open;
    accounted = h.accounted;
  }

pub signals_step :
    (l : Ledger) (new : List SignalRow)
    → ((id : String) → Known l.signals id → Known new id)
    → IsSignalTable new
    → IsConsistent l
    → IsConsistent (record l { signals = new })
signals_step l new covers table h = record {
  signals = table;
  approvals = approvals-covers l.signals new covers l.approvals h.approvals;
  orders = orders-covers l.signals new covers l.orders h.orders;
  fills = h.fills;
  positions = positions-covers l.signals new covers l.positions h.positions;
}
