-- ===== src/Execution/Models.antt =====
-- backend/src/teco_quant/execution/models.py: the broker-neutral contracts. A Python `int` that
-- counts contracts is a natural number where the code refuses a negative one as it refuses 0; the
-- fill quantity that a broker reports is an integer. `OrderSide` and the other enums are their
-- members, so the type tests on them cannot fail.
pub mod Stored
use techo_quant_options_pro.Prelude.{ℕ, String, Bool, true, false, Option, List, ℤ}
use techo_quant_options_pro.Decimal.{Decimal}
use techo_quant_options_pro.Time.{DateTime}

pub data ExecutionMode : Type 0 where
  off data_only paper_trading manual_approval live_automatic : ExecutionMode

pub data OrderSide : Type 0 where
  buy sell : OrderSide

pub data OrderState : Type 0 where
  pending acknowledged partially_filled filled rejected cancelled unknown : OrderState

pub data FillState : Type 0 where
  partial complete : FillState

pub data PositionState : Type 0 where
  opened closed : PositionState

pub data SignalExecutionState : Type 0 where
  received blocked awaiting_approval submitted partially_filled filled uncertain :
      SignalExecutionState

-- `ExecutablePlan` is the read-only view of this record.
pub record TradePlan : Type 0 where
  pub signal_id : String
  pub correlation_id : String
  pub symbol : String
  pub security_id : String
  pub side : OrderSide
  pub quantity : ℕ
  pub limit_price : Decimal
  pub maximum_loss : Decimal
  pub signal_time : DateTime
  pub data_time : DateTime
  pub valid_until : DateTime
  pub contract_expiry : DateTime
  pub event_risk_active : Option Bool
  pub expiry_risk_clear : Bool
  pub strategy_version : String

pub record BrokerOrder : Type 0 where
  pub order_id : String
  pub correlation_id : String
  pub signal_id : String
  pub symbol : String
  pub security_id : String
  pub side : OrderSide
  pub quantity : ℕ
  pub filled_quantity : ℕ
  pub limit_price : Decimal
  pub average_fill_price : Option Decimal
  pub state : OrderState
  pub submitted_at : DateTime

pub record BrokerFill : Type 0 where
  pub fill_id : String
  pub order_id : String
  pub quantity : ℕ
  pub price : Decimal
  pub state : FillState
  pub filled_at : DateTime

pub record Position : Type 0 where
  pub position_id : String
  pub signal_id : String
  pub symbol : String
  pub security_id : String
  pub side : OrderSide
  pub quantity : ℕ
  pub average_entry_price : Decimal
  pub state : PositionState
  pub opened_at : DateTime
  pub closed_at : Option DateTime
  pub realized_pnl : Option Decimal

pub record Approval : Type 0 where
  pub signal_id : String
  pub actor : String
  pub reason : String
  pub approved_at : DateTime

pub record ExecutionResult : Type 0 where
  pub signal_id : String
  pub state : SignalExecutionState
  pub order : Option BrokerOrder
  pub fills : List BrokerFill
  pub message : Option String

pub record LiveOrderAcknowledgement : Type 0 where
  pub broker_order_id : String
  pub correlation_id : String
  pub state : OrderState
  pub filled_quantity : ℤ
  pub average_fill_price : Option Decimal

abbrev pub is_open : PositionState → Bool
is_open PositionState.opened = true
is_open PositionState.closed = false
