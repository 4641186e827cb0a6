-- ===== src/Execution/Ledger/Rows.antt =====
-- The tables of execution/ledger.py as records, and the helpers `_timestamp`, `_decimal`,
-- `_optional_decimal`, `_event` and `_position`.
use techo_quant_options_pro.Prelude.{
  ℕ, String, Bool, false, Option, none, some, List, [], ◌∷◌, if◌then◌else◌,
}
use techo_quant_options_pro.Decimal.{Decimal, is_finite}
use techo_quant_options_pro.Time.{DateTime}
use techo_quant_options_pro.Execution.Errors.{ErrorKind}
use techo_quant_options_pro.Execution.Models.{
  OrderSide, OrderState, PositionState, SignalExecutionState, TradePlan, BrokerOrder, BrokerFill,
  Position,
}
use techo_quant_options_pro.Exec.{Result, ok, raised, Exec, lift, modify, ◌>>=◌}

pub record SignalRow : Type 0 where
  pub signal_id : String
  pub correlation_id : String
  pub symbol : String
  pub security_id : String
  pub plan : TradePlan
  pub state : SignalExecutionState
  pub received_at : DateTime
  pub updated_at : DateTime

pub record ApprovalRow : Type 0 where
  pub signal_id : String
  pub actor : String
  pub reason : String
  pub approved_at : DateTime

pub record PositionRow : Type 0 where
  pub position_id : String
  pub signal_id : String
  pub symbol : String
  pub security_id : String
  pub side : OrderSide
  pub quantity : ℕ
  pub average_entry_price : Decimal
  pub state : PositionState
  pub opened_at : DateTime
  pub closed_at : Option DateTime
  pub closed_day : Option ℕ
  pub realized_pnl : Option Decimal

-- The objects that the code serialises into `details_json` and `payload_json`.
pub data Details : Type 0 where
  order_recorded : String → OrderState → Details
  position_closed : String → Decimal → Details

pub data Payload : Type 0 where
  signal_state : SignalExecutionState → Payload
  approval : String → String → Payload
  order : String → OrderState → Payload
  closed : Decimal → Payload
  kill_switch : Bool → String → String → Payload

pub record JournalRow : Type 0 where
  pub signal_id : String
  pub entry_type : String
  pub amount : Option Decimal
  pub occurred_at : DateTime
  pub details : Details

pub record EventRow : Type 0 where
  pub event_type : String
  pub aggregate_id : String
  pub occurred_at : DateTime
  pub payload : Payload

pub record KillSwitchRow : Type 0 where
  pub active : Bool
  pub reason : Option String
  pub actor : Option String
  pub changed_at : DateTime

pub record Ledger : Type 0 where
  pub signals : List SignalRow
  pub approvals : List ApprovalRow
  pub orders : List BrokerOrder
  pub fills : List BrokerFill
  pub positions : List PositionRow
  pub journal : List JournalRow
  pub events : List EventRow
  pub kill_switch : KillSwitchRow

-- `_create_schema`, at the time of its clock reading.
abbrev pub create_schema : DateTime → Ledger
create_schema now = record {
  signals = [];
  approvals = [];
  orders = [];
  fills = [];
  positions = [];
  journal = [];
  events = [];
  kill_switch = record { active = false; reason = none; actor = none; changed_at = now };
}

abbrev pub timestamp : DateTime → Result DateTime
timestamp value =
    if value.aware
    then ok value
    else raised ErrorKind.execution_error "execution timestamps must be timezone-aware"

unfoldable pub decimal : Decimal → Result Decimal
decimal value =
    if is_finite value
    then ok value
    else raised ErrorKind.execution_error "execution decimals must be finite"

unfoldable pub optional_decimal : Option Decimal → Result (Option Decimal)
unfolding decimal
optional_decimal none = ok none
optional_decimal (some value) = elim (decimal value) [
  | ok v ↦ ok (some v)
  | raised kind message ↦ raised kind message
]

-- `INSERT INTO execution_events`
unfoldable pub event : String → String → DateTime → Payload → Exec Ledger (Unit {0})
event event_type aggregate_id occurred_at payload = do
  when ← lift (timestamp occurred_at)
  modify (λ l. record l {
    events =
        record {
          event_type = event_type;
          aggregate_id = aggregate_id;
          occurred_at = when;
          payload = payload;
        }
        ∷ l.events;
  })

-- `_position`
abbrev pub position : PositionRow → Position
position row = record {
  position_id = row.position_id;
  signal_id = row.signal_id;
  symbol = row.symbol;
  security_id = row.security_id;
  side = row.side;
  quantity = row.quantity;
  average_entry_price = row.average_entry_price;
  state = row.state;
  opened_at = row.opened_at;
  closed_at = row.closed_at;
  realized_pnl = row.realized_pnl;
}
