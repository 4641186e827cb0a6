-- ===== src/Execution/Ledger/Consistency/Positions.antt =====
-- Closing a position keeps the ledger consistent.
use techo_quant_options_pro.Prelude.{
  ◌<◌, String, Bool, false, ◌≡◌, refl, Option, none, some, List, [], ◌∷◌, any, update_where,
  Distinct-update_where, All-update_where, arith,
}
use techo_quant_options_pro.Decimal.{Decimal}
use techo_quant_options_pro.Time.{DateTime}
use techo_quant_options_pro.Execution.Ledger.Rows.{PositionRow}
use techo_quant_options_pro.Execution.Ledger.Orders.{holds_security}
use techo_quant_options_pro.Execution.Ledger.Positions.{
  has_position_id, closing, write_close, journal_close, close_row, close_position,
}
use techo_quant_options_pro.Execution.Ledger.Consistency.{Known, IsConsistent, IsAccounted, OneOpen}
use techo_quant_options_pro.Execution.Ledger.Consistency.Signals.{event-IsConsistent}
use techo_quant_options_pro.Exec.{modify}
use techo_quant_options_pro.Exec.Triple.{Maintains, Triple-modify, maintains_rules}

module _ (id : String) (instant closed_at : DateTime) (pnl : Decimal) where
  closes : List PositionRow → List PositionRow
  closes = update_where (has_position_id id) (closing instant closed_at pnl)

  -- A close can only free a security.
  holds-closes :
      (security : String) (ps : List PositionRow)
      → any (holds_security security) ps ≡ false
      → any (holds_security security) (closes ps) ≡ false
  unfolding closes
  holds-closes security [] h = refl
  holds-closes security (p ∷ ps) h = ground (arith, holds-closes security ps)

  OneOpen-closes : (ps : List PositionRow) → OneOpen ps → OneOpen (closes ps)
  unfolding closes
  OneOpen-closes [] h = tt
  OneOpen-closes (p ∷ ps) h = ground (arith, holds-closes p.security_id ps, OneOpen-closes ps h.1)

  write_close-IsConsistent : Maintains IsConsistent (modify (write_close id instant closed_at pnl))
  unfolding closes
  write_close-IsConsistent = Triple-modify _ λ l h. record {
    signals = h.signals;
    approvals = h.approvals;
    orders = h.orders;
    fills = h.fills;
    positions = record {
      ids =
          Distinct-update_where test write (λ r. r.position_id) (λ r. refl) l.positions
            h.positions.ids;
      per_signal =
          Distinct-update_where test write (λ r. r.signal_id) (λ r. refl) l.positions
            h.positions.per_signal;
      known =
          All-update_where test write (λ r. Known l.signals r.signal_id) (λ r k. k) l.positions
            h.positions.known;
      positive =
          All-update_where test write (λ r. 0 < r.quantity) (λ r k. k) l.positions
            h.positions.positive;
      one_open = OneOpen-closes l.positions h.positions.one_open;
      accounted =
          All-update_where test write IsAccounted (λ r k. (refl, refl, refl)) l.positions
            h.positions.accounted;
    };
  }
    where
      test : PositionRow → Bool
      test = has_position_id id

      write : PositionRow → PositionRow
      write = closing instant closed_at pnl

journal_close-IsConsistent :
    (signal_id id : String) (instant : DateTime) (pnl exit_price : Decimal)
    → Maintains IsConsistent (modify (journal_close signal_id id instant pnl exit_price))
journal_close-IsConsistent signal_id id instant pnl exit_price = Triple-modify _ λ l h. record {
  signals = h.signals;
  approvals = h.approvals;
  orders = h.orders;
  fills = h.fills;
  positions = h.positions;
}

close_row-IsConsistent :
    (id : String) (exit_price : Decimal) (now : DateTime) (row : Option PositionRow)
    → Maintains IsConsistent (close_row id exit_price now row)
unfolding close_row
close_row-IsConsistent id exit_price now none = search maintains_rules
close_row-IsConsistent id exit_price now (some row) =
    search
      (maintains_rules, write_close-IsConsistent, journal_close-IsConsistent, event-IsConsistent)
      depth 12

-- `close_position` leaves a consistent ledger consistent, on every path.
pub close_position-IsConsistent :
    (id : String) (exit_price : Decimal) (now : DateTime)
    → Maintains IsConsistent (close_position id exit_price now)
unfolding close_position
close_position-IsConsistent id exit_price now =
    search (maintains_rules, close_row-IsConsistent) depth 9
