-- ===== src/Execution/Controller/Live.antt =====
-- The parts of execution/controller.py that see only the ledger: the order of an acknowledgement,
-- its validation, what is recorded, and the checks of an approval.
use Prim.Native.String.{◌++◌ as text_append}
use techo_quant_options_pro.Prelude.{
  String, Bool, true, false, ◌&&◌, ◌||◌, not, Option, none, some, List, [], ◌∷◌, ltb, ◌==◌, pos,
  pos_part, ltb_ℤ, str_eq, if◌then◌else◌,
}
use techo_quant_options_pro.Decimal.{Decimal, integer, is_finite, less_eq}
use techo_quant_options_pro.Time.{DateTime, before}
use techo_quant_options_pro.Text.{strip}
use techo_quant_options_pro.Execution.Errors.{ErrorKind}
use techo_quant_options_pro.Execution.Models.{
  ExecutionMode, OrderState, FillState, SignalExecutionState, TradePlan, BrokerOrder, BrokerFill,
  ExecutionResult, LiveOrderAcknowledgement, Approval,
}
use techo_quant_options_pro.Execution.Ledger.Rows.{Ledger}
use techo_quant_options_pro.Execution.Ledger.Signals.{update_signal_state, signal_state}
use techo_quant_options_pro.Execution.Ledger.Orders.{record_execution}
use techo_quant_options_pro.Exec.{Result, Exec, raise_if, ◌then_check◌, pure, raise, lift, ◌>>◌}

abbrev pub result_state : BrokerOrder → SignalExecutionState
result_state o = elim o.state [
  | OrderState.filled ↦ SignalExecutionState.filled
  | OrderState.partially_filled ↦ SignalExecutionState.partially_filled
  | _ ↦ SignalExecutionState.submitted
]

abbrev pub executed : TradePlan → BrokerOrder → List BrokerFill → ExecutionResult
executed plan o fs = record {
  signal_id = plan.signal_id;
  state = result_state o;
  order = some o;
  fills = fs;
  message = none;
}

abbrev pub awaiting : TradePlan → ExecutionResult
awaiting plan = record {
  signal_id = plan.signal_id;
  state = SignalExecutionState.awaiting_approval;
  order = none;
  fills = [];
  message = some "manual approval required";
}

-- `_live_order`; a fill quantity is used after its validation.
abbrev pub live_order : TradePlan → LiveOrderAcknowledgement → DateTime → BrokerOrder
live_order plan a now = record {
  order_id = a.broker_order_id;
  correlation_id = plan.correlation_id;
  signal_id = plan.signal_id;
  symbol = plan.symbol;
  security_id = plan.security_id;
  side = plan.side;
  quantity = plan.quantity;
  filled_quantity = pos_part a.filled_quantity;
  limit_price = plan.limit_price;
  average_fill_price = a.average_fill_price;
  state = a.state;
  submitted_at = now;
}

abbrev bad_price : Option Decimal → Bool
bad_price none = true
bad_price (some price) = not (is_finite price) || less_eq price (integer (pos 0))

abbrev present : Option Decimal → Bool
present none = false
present (some price) = true

-- `_validate_live_acknowledgement`
unfoldable pub validate_acknowledgement : TradePlan → LiveOrderAcknowledgement → Result (Unit {0})
validate_acknowledgement plan a =
    raise_if (ltb_ℤ a.filled_quantity (pos 0) || ltb_ℤ (pos plan.quantity) a.filled_quantity)
      ErrorKind.execution_uncertain "broker acknowledgement has an invalid fill quantity"
    then_check raise_if (ltb_ℤ (pos 0) a.filled_quantity && bad_price a.average_fill_price)
        ErrorKind.execution_uncertain "broker filled quantity lacks a valid average price"
    then_check raise_if (pos_part a.filled_quantity == 0 && present a.average_fill_price)
        ErrorKind.execution_uncertain "broker average price exists without a fill"

abbrev pub live_fills : TradePlan → LiveOrderAcknowledgement → DateTime → List BrokerFill
live_fills plan a now = elim a.average_fill_price [
  | none ↦ []
  | some price ↦
      if ltb 0 (pos_part a.filled_quantity)
      then record {
        fill_id = text_append (text_append "live-fill-" a.broker_order_id) "-reconciled";
        order_id = a.broker_order_id;
        quantity = pos_part a.filled_quantity;
        price = price;
        state =
            if pos_part a.filled_quantity == plan.quantity
            then FillState.complete
            else FillState.partial;
        filled_at = now;
      }
        ∷ []
      else []
]

abbrev pub unknown_acknowledgement : TradePlan → LiveOrderAcknowledgement
unknown_acknowledgement plan = record {
  broker_order_id = text_append "unknown-" plan.correlation_id;
  correlation_id = plan.correlation_id;
  state = OrderState.unknown;
  filled_quantity = pos 0;
  average_fill_price = none;
}

-- The timeout that reconciliation could not resolve.
unfoldable pub record_uncertain : TradePlan → DateTime → Exec Ledger LiveOrderAcknowledgement
record_uncertain plan now = do
  record_execution (live_order plan (unknown_acknowledgement plan) now) [] now
  update_signal_state plan.signal_id SignalExecutionState.uncertain now
  raise ErrorKind.execution_uncertain
      "live mutation timed out and reconciliation found no order; no retry was sent"

-- What the code does with an acknowledgement.
unfoldable pub record_acknowledgement :
    TradePlan → DateTime → LiveOrderAcknowledgement → Exec Ledger ExecutionResult
record_acknowledgement plan now a = do
  lift (
      raise_if (not (str_eq a.correlation_id plan.correlation_id)) ErrorKind.execution_uncertain
        "broker reconciliation correlation mismatch")
  lift (validate_acknowledgement plan a)
  lift (
      raise_if (ltb 0 (pos_part a.filled_quantity) && not (present a.average_fill_price))
        ErrorKind.execution_uncertain "broker reported fills without an average price")
  record_execution (live_order plan a now) (live_fills plan a now) now
  pure (executed plan (live_order plan a now) (live_fills plan a now))

unfoldable pub block : TradePlan → DateTime → ErrorKind → String → Exec Ledger ExecutionResult
block plan now kind message = do
  update_signal_state plan.signal_id SignalExecutionState.blocked now
  raise kind message

-- The first test of `_execute_live`.
abbrev pub live_disabled : TradePlan → DateTime → Exec Ledger ExecutionResult
live_disabled plan now =
    block plan now ErrorKind.live_execution_disabled "live execution is locked by policy"

abbrev pub is_manual : ExecutionMode → Bool
is_manual ExecutionMode.manual_approval = true
is_manual _ = false

abbrev pub is_awaiting : Option SignalExecutionState → Bool
is_awaiting (some SignalExecutionState.awaiting_approval) = true
is_awaiting _ = false

-- The two checks of `approve` between reading the plan and the gates.
unfoldable pub check_awaiting : String → TradePlan → DateTime → Exec Ledger (Unit {0})
check_awaiting id plan approval_time l = (
  raise_if (before approval_time plan.signal_time) ErrorKind.approval_error
        "approval timestamp precedes the signal"
      then_check raise_if (not (is_awaiting (signal_state id l))) ErrorKind.approval_error
          "signal is not awaiting approval",
  l,
)

abbrev pub stripped_approval : String → String → String → DateTime → Approval
stripped_approval id actor reason approval_time = record {
  signal_id = id;
  actor = strip actor;
  reason = strip reason;
  approved_at = approval_time;
}
