-- ===== src/Execution/Ledger/Consistency/Orders.antt =====
-- Recording an execution keeps the ledger consistent.
use techo_quant_options_pro.Prelude.{
  true, false, ◌&&◌, ◌≡◌, Option, none, some, List, [], ◌∷◌, any, any-cons, All-map, ltb, leb,
  ltb→lt, leb→le, str_eq, arith,
}
use techo_quant_options_pro.Decimal.{Decimal}
use techo_quant_options_pro.Time.{DateTime}
use techo_quant_options_pro.Execution.Models.{BrokerOrder, BrokerFill, is_open}
use techo_quant_options_pro.Execution.Ledger.Rows.{Ledger, PositionRow, JournalRow}
use techo_quant_options_pro.Execution.Ledger.Signals.{signal_exists}
use techo_quant_options_pro.Execution.Ledger.Orders.{
  has_order_id, order_violates, fill_violates, position_violates, holds_security, insert_order,
  insert_fill, insert_position, write_order, write_fill, write_fills, opening_row, write_position,
  open_position, write_outcome, record_execution,
}
use techo_quant_options_pro.Execution.Ledger.Consistency.{IsConsistent, IsAccounted}
use techo_quant_options_pro.Execution.Ledger.Consistency.Signals.{
  event-IsConsistent, write_state-IsConsistent,
}
use techo_quant_options_pro.Exec.{modify}
use techo_quant_options_pro.Exec.Triple.{
  Maintains, Maintains-if, Maintains-bind, Maintains-pure, Triple-guarded, Triple-modify,
  maintains_rules,
}

-- What the constraints of `orders` leave.
order_checks :
    (o : BrokerOrder) (l : Ledger)
    → order_violates o l ≡ false
    → (any (has_order_id o.order_id) l.orders ≡ false)
      × (any (λ x. str_eq x.correlation_id o.correlation_id) l.orders ≡ false)
      × (any (λ x. str_eq x.signal_id o.signal_id) l.orders ≡ false)
      × (signal_exists o.signal_id l ≡ true)
      × (ltb 0 o.quantity ≡ true)
      × (leb o.filled_quantity o.quantity ≡ true)
unfolding order_violates
order_checks o l h = ground arith

pub insert_order-IsConsistent : (o : BrokerOrder) → Maintains IsConsistent (insert_order o)
unfolding insert_order
insert_order-IsConsistent o = Triple-guarded _ _ _ _ λ l h fresh.
    let (id, correlation, signal, known, positive, room) = order_checks o l fresh in
    record {
      signals = h.signals;
      approvals = h.approvals;
      orders = record {
        ids = (id, h.orders.ids);
        correlations = (correlation, h.orders.correlations);
        per_signal = (signal, h.orders.per_signal);
        known = (known, h.orders.known);
        fillable = ((ltb→lt _ _ positive, leb→le _ _ room), h.orders.fillable);
      };
      fills = record {
        ids = h.fills.ids;
        known = All-map (λ f. any-cons (has_order_id f.order_id) o l.orders) l.fills h.fills.known;
        positive = h.fills.positive;
      };
      positions = h.positions;
    }

fill_checks :
    (f : BrokerFill) (l : Ledger)
    → fill_violates f l ≡ false
    → (any (λ x. str_eq x.fill_id f.fill_id) l.fills ≡ false)
      × (any (has_order_id f.order_id) l.orders ≡ true)
      × (ltb 0 f.quantity ≡ true)
unfolding fill_violates
fill_checks f l h = ground arith

pub insert_fill-IsConsistent : (f : BrokerFill) → Maintains IsConsistent (insert_fill f)
unfolding insert_fill
insert_fill-IsConsistent f = Triple-guarded _ _ _ _ λ l h fresh.
    let (id, known, positive) = fill_checks f l fresh in
    record {
      signals = h.signals;
      approvals = h.approvals;
      orders = h.orders;
      fills = record {
        ids = (id, h.fills.ids);
        known = (known, h.fills.known);
        positive = (ltb→lt _ _ positive, h.fills.positive);
      };
      positions = h.positions;
    }

position_checks :
    (p : PositionRow) (l : Ledger)
    → position_violates p l ≡ false
    → (any (λ x. str_eq x.position_id p.position_id) l.positions ≡ false)
      × (any (λ x. str_eq x.signal_id p.signal_id) l.positions ≡ false)
      × (signal_exists p.signal_id l ≡ true)
      × (ltb 0 p.quantity ≡ true)
      × ((is_open p.state && any (holds_security p.security_id) l.positions) ≡ false)
unfolding position_violates
position_checks p l h = ground arith

pub insert_position-IsConsistent :
    (p : PositionRow) → IsAccounted p → Maintains IsConsistent (insert_position p)
unfolding insert_position
insert_position-IsConsistent p accounted = Triple-guarded _ _ _ _ λ l h fresh.
    let (id, signal, known, positive, single) = position_checks p l fresh in
    record {
      signals = h.signals;
      approvals = h.approvals;
      orders = h.orders;
      fills = h.fills;
      positions = record {
        ids = (id, h.positions.ids);
        per_signal = (signal, h.positions.per_signal);
        known = (known, h.positions.known);
        positive = (ltb→lt _ _ positive, h.positions.positive);
        one_open = (single, h.positions.one_open);
        accounted = (accounted, h.positions.accounted);
      };
    }

write_order-IsConsistent : (o : BrokerOrder) → Maintains IsConsistent (write_order o)
unfolding write_order
write_order-IsConsistent o = search (maintains_rules, insert_order-IsConsistent) depth 9

write_fill-IsConsistent : (f : BrokerFill) → Maintains IsConsistent (write_fill f)
unfolding write_fill
write_fill-IsConsistent f = search (maintains_rules, insert_fill-IsConsistent) depth 9

write_fills-IsConsistent : (fs : List BrokerFill) → Maintains IsConsistent (write_fills fs)
unfolding write_fills
write_fills-IsConsistent [] = search maintains_rules
write_fills-IsConsistent (f ∷ fs) =
    search (maintains_rules, write_fill-IsConsistent f, write_fills-IsConsistent fs)

open_position-IsConsistent :
    (o : BrokerOrder) (price : Option Decimal) (now : DateTime)
    → Maintains IsConsistent (open_position o price now)
unfolding open_position
open_position-IsConsistent o none now = search maintains_rules
open_position-IsConsistent o (some price) now =
    Maintains-if _ _ _ (Maintains-bind _ _ written (λ _. Maintains-pure _)) (Maintains-pure _)
  where
    inserted :
        (p : Decimal) (t : DateTime)
        → Maintains IsConsistent (
            insert_position
              (record (opening_row o price now) { average_entry_price = p; opened_at = t }))
    inserted p t =
        insert_position-IsConsistent
          (record (opening_row o price now) { average_entry_price = p; opened_at = t }) tt

    written : Maintains IsConsistent (write_position (opening_row o price now))
    written = search (maintains_rules, inserted) depth 9

write_outcome-IsConsistent :
    (o : BrokerOrder) (now : DateTime) → Maintains IsConsistent (write_outcome o now)
unfolding write_outcome
write_outcome-IsConsistent o now =
    search (maintains_rules, write_state-IsConsistent, journaled, event-IsConsistent) depth 9
  where
    journaled :
        (row : JournalRow)
        → Maintains IsConsistent (modify {S = Ledger} (λ l. record l { journal = row ∷ l.journal }))
    journaled row = Triple-modify _ λ l h. record {
      signals = h.signals;
      approvals = h.approvals;
      orders = h.orders;
      fills = h.fills;
      positions = h.positions;
    }

-- `record_execution` leaves a consistent ledger consistent, whether it commits or rolls back.
pub record_execution-IsConsistent :
    (o : BrokerOrder) (fs : List BrokerFill) (now : DateTime)
    → Maintains IsConsistent (record_execution o fs now)
unfolding record_execution
record_execution-IsConsistent o fs now =
    search
      (
        maintains_rules, write_order-IsConsistent, write_fills-IsConsistent,
        open_position-IsConsistent, write_outcome-IsConsistent,
      )
      depth 10
