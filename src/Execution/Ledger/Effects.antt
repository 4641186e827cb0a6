-- ===== src/Execution/Ledger/Effects.antt =====
-- What a committed execution has written: `record_execution` that returns ends in this ledger.
use techo_quant_options_pro.Prelude.{
  false, ◌≡◌, ◌∙◌, refl, sym, ap, Option, none, some, List, [], ◌∷◌, ltb, arith, if◌then◌else◌,
}
use techo_quant_options_pro.Decimal.{Decimal}
use techo_quant_options_pro.Time.{DateTime}
use techo_quant_options_pro.Execution.Models.{BrokerOrder, BrokerFill, Position}
use techo_quant_options_pro.Execution.Ledger.Rows.{
  Ledger, PositionRow, Details, Payload, event, position,
}
use techo_quant_options_pro.Execution.Ledger.Signals.{set_signal_state}
use techo_quant_options_pro.Execution.Ledger.Orders.{
  order_violates, write_order, write_fill, write_fills, opening_row, write_position, open_position,
  execution_state, write_outcome, record_execution,
}
use techo_quant_options_pro.Exec.{Result, ok}
use techo_quant_options_pro.Exec.Outcome.{bind-ok, bind_step, transaction-ok}

write_order-ok :
    (o : BrokerOrder) (l : Ledger) (u : Unit {0})
    → (write_order o l).0 ≡ ok u
    → (write_order o l ≡ (ok tt, record l { orders = o ∷ l.orders })) × (order_violates o l ≡ false)
unfolding write_order
write_order-ok o l u h = ground arith

write_fill-ok :
    (f : BrokerFill) (l : Ledger) (u : Unit {0})
    → (write_fill f l).0 ≡ ok u
    → write_fill f l ≡ (ok tt, record l { fills = f ∷ l.fills })
unfolding write_fill
write_fill-ok f l u h = ground arith

-- The fills in the order of their inserts, each in front of the table.
abbrev pub push_fills : List BrokerFill → List BrokerFill → List BrokerFill
push_fills [] table = table
push_fills (f ∷ fs) table = push_fills fs (f ∷ table)

write_fills-ok :
    (fs : List BrokerFill) (l : Ledger) (u : Unit {0})
    → (write_fills fs l).0 ≡ ok u
    → write_fills fs l ≡ (ok tt, record l { fills = push_fills fs l.fills })
unfolding write_fills
write_fills-ok [] l u h = refl
write_fills-ok (f ∷ fs) l u h =
    let (a, first, rest) = bind-ok (write_fill f) (λ _. write_fills fs) l u h in
    let written = write_fill-ok f l a first in
    let next : Ledger = record l { fills = f ∷ l.fills } in
    let step = ap (λ (r : Result (Unit {0}) × Ledger). write_fills fs r.1) written in
    rest
    ∙ step
    ∙ write_fills-ok fs next u
        (ap (λ (r : Result (Unit {0}) × Ledger). r.0) (sym (rest ∙ step)) ∙ h)

-- The position that an order opens, if it has a fill with a price.
abbrev pub opened_position : BrokerOrder → Option Decimal → DateTime → Option PositionRow
opened_position o none now = none
opened_position o (some price) now =
    if ltb 0 o.filled_quantity then some (opening_row o price now) else none

abbrev pub push_position : Option PositionRow → List PositionRow → List PositionRow
push_position none table = table
push_position (some row) table = row ∷ table

abbrev pub as_position : Option PositionRow → Option Position
as_position none = none
as_position (some row) = some (position row)

write_position-ok :
    (p : PositionRow) (l : Ledger) (u : Unit {0})
    → (write_position p l).0 ≡ ok u
    → write_position p l ≡ (ok tt, record l { positions = p ∷ l.positions })
unfolding write_position
write_position-ok p l u h = ground arith

open_position-ok :
    (o : BrokerOrder) (price : Option Decimal) (now : DateTime) (l : Ledger) (r : Option Position)
    → (open_position o price now l).0 ≡ ok r
    → open_position o price now l ≡ (
      ok (as_position (opened_position o price now)),
      record l { positions = push_position (opened_position o price now) l.positions },
    )
unfolding open_position
open_position-ok o none now l r h = refl
open_position-ok o (some price) now l r h = ground arith

abbrev pub outcome_ledger : BrokerOrder → DateTime → Ledger → Ledger
outcome_ledger o now l = record (set_signal_state o.signal_id (execution_state o) now l) {
  journal =
      record {
        signal_id = o.signal_id;
        entry_type = "ORDER_RECORDED";
        amount = none;
        occurred_at = now;
        details = Details.order_recorded o.order_id o.state;
      }
      ∷ l.journal;
  events =
      record {
        event_type = "ORDER_RECORDED";
        aggregate_id = o.order_id;
        occurred_at = now;
        payload = Payload.order o.signal_id o.state;
      }
      ∷ l.events;
}

write_outcome-ok :
    (o : BrokerOrder) (now : DateTime) (l : Ledger) (u : Unit {0})
    → (write_outcome o now l).0 ≡ ok u
    → write_outcome o now l ≡ (ok tt, outcome_ledger o now l)
unfolding write_outcome event
write_outcome-ok o now l u h = ground arith

-- The ledger after a committed execution.
abbrev pub executed_ledger : BrokerOrder → List BrokerFill → DateTime → Ledger → Ledger
executed_ledger o fs now l = outcome_ledger o now (record l {
  orders = o ∷ l.orders;
  fills = push_fills fs l.fills;
  positions = push_position (opened_position o o.average_fill_price now) l.positions;
})

-- A call that returns has written the order, every fill in turn, the position that the order
-- opens, the signal's state, one journal row and one event, and nothing else.
pub record_execution-ok :
    (o : BrokerOrder) (fs : List BrokerFill) (now : DateTime) (l : Ledger) (r : Option Position)
    → (record_execution o fs now l).0 ≡ ok r
    → record_execution o fs now l
      ≡ (ok (as_position (opened_position o o.average_fill_price now)), executed_ledger o fs now l)
unfolding record_execution
record_execution-ok o fs now l r h =
    let (returned, committed) = transaction-ok _ l r h in
    let (e1, h1) =
      bind_step (write_order o) _ l l1 tt r (λ u p. (write_order-ok o l u p).0) returned in
    let (e2, h2) = bind_step (write_fills fs) _ l1 l2 tt r (write_fills-ok fs l1) h1 in
    let (e3, h3) =
      bind_step (open_position o o.average_fill_price now) _ l2 l3 opened r
        (open_position-ok o o.average_fill_price now l2) h2 in
    let (e4, h4) =
      bind_step (write_outcome o now) _ l3 (outcome_ledger o now l3) tt r
        (write_outcome-ok o now l3) h3 in
    committed ∙ e1 ∙ e2 ∙ e3 ∙ e4
  where
    opened : Option Position
    opened = as_position (opened_position o o.average_fill_price now)

    l1 : Ledger
    l1 = record l { orders = o ∷ l.orders }

    l2 : Ledger
    l2 = record l1 { fills = push_fills fs l.fills }

    l3 : Ledger
    l3 = record l2 {
      positions = push_position (opened_position o o.average_fill_price now) l.positions;
    }
