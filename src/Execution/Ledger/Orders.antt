-- ===== src/Execution/Ledger/Orders.antt =====
-- `record_execution` of execution/ledger.py: one transaction over orders, fills, positions, the
-- signal, the journal and the events.
use techo_quant_options_pro.Prelude.{
  String, Bool, true, ◌&&◌, ◌||◌, not, Option, none, some, List, [], ◌∷◌, any, str_eq, leb, ltb,
  ◌==◌, if◌then◌else◌,
}
use techo_quant_options_pro.Decimal.{Decimal, integer, less}
use techo_quant_options_pro.Prelude.Int.{pos}
use techo_quant_options_pro.Time.{DateTime}
use techo_quant_options_pro.Execution.Errors.{ErrorKind}
use techo_quant_options_pro.Execution.Models.{
  BrokerOrder, BrokerFill, Position, PositionState, SignalExecutionState, is_open,
}
use techo_quant_options_pro.Execution.Ledger.Rows.{
  Ledger, PositionRow, Details, Payload, timestamp, decimal, optional_decimal, event, position,
}
use techo_quant_options_pro.Execution.Ledger.Signals.{signal_exists, set_signal_state}
use techo_quant_options_pro.Exec.{Exec, ok, raised, pure, lift, modify, transaction, ◌>>=◌, ◌>>◌}
use Prim.Native.String.{◌++◌ as text_append}

-- `CAST(price AS REAL) > 0`
abbrev pub is_positive : Decimal → Bool
is_positive price = less (integer (pos 0)) price

abbrev pub is_positive_if_present : Option Decimal → Bool
is_positive_if_present none = true
is_positive_if_present (some price) = is_positive price

abbrev pub has_order_id : String → BrokerOrder → Bool
has_order_id id o = str_eq o.order_id id

-- The constraints of the table `orders`.
unfoldable pub order_violates : BrokerOrder → Ledger → Bool
order_violates o l =
    any (has_order_id o.order_id) l.orders
    || any (λ x. str_eq x.correlation_id o.correlation_id) l.orders
    || any (λ x. str_eq x.signal_id o.signal_id) l.orders
    || not (signal_exists o.signal_id l)
    || not (ltb 0 o.quantity && leb o.filled_quantity o.quantity)
    || not (is_positive o.limit_price && is_positive_if_present o.average_fill_price)

-- The constraints of the table `fills`.
unfoldable pub fill_violates : BrokerFill → Ledger → Bool
fill_violates f l =
    any (λ x. str_eq x.fill_id f.fill_id) l.fills
    || not (any (has_order_id f.order_id) l.orders)
    || not (ltb 0 f.quantity && is_positive f.price)

abbrev pub holds_security : String → PositionRow → Bool
holds_security security_id row = is_open row.state && str_eq row.security_id security_id

-- The constraints of the table `positions`, with the index `one_open_position_per_security`.
unfoldable pub position_violates : PositionRow → Ledger → Bool
position_violates p l =
    any (λ x. str_eq x.position_id p.position_id) l.positions
    || any (λ x. str_eq x.signal_id p.signal_id) l.positions
    || not (signal_exists p.signal_id l)
    || not (ltb 0 p.quantity && is_positive p.average_entry_price)
    || (is_open p.state && any (holds_security p.security_id) l.positions)

unfoldable pub insert_order : BrokerOrder → Exec Ledger (Unit {0})
insert_order o l =
    if order_violates o l
    then (raised ErrorKind.integrity_error "constraint failed: orders", l)
    else (ok tt, record l { orders = o ∷ l.orders })

unfoldable pub insert_fill : BrokerFill → Exec Ledger (Unit {0})
insert_fill f l =
    if fill_violates f l
    then (raised ErrorKind.integrity_error "constraint failed: fills", l)
    else (ok tt, record l { fills = f ∷ l.fills })

unfoldable pub insert_position : PositionRow → Exec Ledger (Unit {0})
insert_position p l =
    if position_violates p l
    then (raised ErrorKind.integrity_error "constraint failed: positions", l)
    else (ok tt, record l { positions = p ∷ l.positions })

-- The serialisation of a row can raise before its statement runs.
unfoldable pub write_order : BrokerOrder → Exec Ledger (Unit {0})
unfolding decimal optional_decimal insert_order
write_order o = do
  limit_price ← lift (decimal o.limit_price)
  average ← lift (optional_decimal o.average_fill_price)
  submitted_at ← lift (timestamp o.submitted_at)
  insert_order (record o {
    limit_price = limit_price;
    average_fill_price = average;
    submitted_at = submitted_at;
  })

unfoldable pub write_fill : BrokerFill → Exec Ledger (Unit {0})
unfolding decimal insert_fill
write_fill f = do
  price ← lift (decimal f.price)
  filled_at ← lift (timestamp f.filled_at)
  insert_fill (record f { price = price; filled_at = filled_at })

unfoldable pub write_fills : List BrokerFill → Exec Ledger (Unit {0})
unfolding write_fill
write_fills [] = pure tt
write_fills (f ∷ fs) = write_fill f >> write_fills fs

abbrev pub opening_row : BrokerOrder → Decimal → DateTime → PositionRow
opening_row o price now = record {
  position_id = text_append "position-" o.order_id;
  signal_id = o.signal_id;
  symbol = o.symbol;
  security_id = o.security_id;
  side = o.side;
  quantity = o.filled_quantity;
  average_entry_price = price;
  state = PositionState.opened;
  opened_at = now;
  closed_at = none;
  closed_day = none;
  realized_pnl = none;
}

unfoldable pub write_position : PositionRow → Exec Ledger (Unit {0})
unfolding decimal insert_position
write_position p = do
  price ← lift (decimal p.average_entry_price)
  opened_at ← lift (timestamp p.opened_at)
  insert_position (record p { average_entry_price = price; opened_at = opened_at })

-- `if order.filled_quantity > 0 and order.average_fill_price is not None`
unfoldable pub open_position :
    BrokerOrder → Option Decimal → DateTime → Exec Ledger (Option Position)
unfolding write_position
open_position o none now = pure none
open_position o (some price) now =
    if ltb 0 o.filled_quantity
    then (do
      write_position (opening_row o price now)
      pure (some (position (opening_row o price now))))
    else pure none

abbrev pub execution_state : BrokerOrder → SignalExecutionState
execution_state o =
    if o.filled_quantity == o.quantity
    then SignalExecutionState.filled
    else if ltb 0 o.filled_quantity
    then SignalExecutionState.partially_filled
    else SignalExecutionState.submitted

unfoldable pub write_outcome : BrokerOrder → DateTime → Exec Ledger (Unit {0})
write_outcome o now = do
  when ← lift (timestamp now)
  modify (set_signal_state o.signal_id (execution_state o) when)
  modify (λ l. record l {
    journal =
        record {
          signal_id = o.signal_id;
          entry_type = "ORDER_RECORDED";
          amount = none;
          occurred_at = when;
          details = Details.order_recorded o.order_id o.state;
        }
        ∷ l.journal;
  })
  event "ORDER_RECORDED" o.order_id now (Payload.order o.signal_id o.state)

unfoldable pub record_execution :
    BrokerOrder → List BrokerFill → DateTime → Exec Ledger (Option Position)
unfolding write_order write_fills open_position write_outcome
record_execution o fs now = transaction (do
  write_order o
  write_fills fs
  opened ← open_position o o.average_fill_price now
  write_outcome o now
  pure opened)
