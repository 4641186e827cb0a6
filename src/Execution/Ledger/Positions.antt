-- ===== src/Execution/Ledger/Positions.antt =====
-- The positions of execution/ledger.py: closing one, the profit and loss that the limits read,
-- and the summaries.
use techo_quant_options_pro.Prelude.{
  ℕ, ◌+◌, String, Bool, true, false, ◌&&◌, ◌||◌, not, Option, none, some, List, [], ◌∷◌, find,
  select, update_where, length, str_eq, ◌==◌, if◌then◌else◌, pos, negsuc, ltb,
}
use techo_quant_options_pro.Decimal
use techo_quant_options_pro.Decimal.{Decimal, integer, is_finite, less, less_eq}
use techo_quant_options_pro.Time.{DateTime, utc_day}
use techo_quant_options_pro.Execution.Errors.{ErrorKind}
use techo_quant_options_pro.Execution.Models.{OrderSide, Position, PositionState, is_open}
use techo_quant_options_pro.Execution.Ledger.Rows.{
  Ledger, PositionRow, Details, Payload, timestamp, decimal, event, position,
}
use techo_quant_options_pro.Execution.Ledger.Orders.{holds_security}
use techo_quant_options_pro.Exec.{
  Result, Exec, ok, raised, raise_if, pure, raise, lift, gets, modify, transaction, ◌>>=◌, ◌>>◌,
}

abbrev pub stored_position : Option PositionRow → Option Position
stored_position none = none
stored_position (some row) = some (position row)

abbrev pub open_position_for_security : String → Ledger → Option Position
open_position_for_security security_id l =
    stored_position (find (holds_security security_id) l.positions)

-- `ORDER BY opened_at, position_id` is left to the caller: the rows in table order.
abbrev pub positions : Bool → Ledger → List PositionRow
positions open_only l = if open_only then select (λ p. is_open p.state) l.positions else l.positions

abbrev pub direction : OrderSide → Decimal
direction OrderSide.buy = integer (pos 1)
direction OrderSide.sell = integer (negsuc 0)

-- `(exit_price - entry) * Decimal(quantity) * direction`
unfoldable pub profit : PositionRow → Decimal → Decimal
profit row exit_price =
    Decimal.mul
      (Decimal.mul (Decimal.sub exit_price row.average_entry_price) (integer (pos row.quantity)))
      (direction row.side)

abbrev pub has_position_id : String → PositionRow → Bool
has_position_id id row = str_eq row.position_id id

abbrev pub is_open_position : String → PositionRow → Bool
is_open_position id row = str_eq row.position_id id && is_open row.state

abbrev pub closing : DateTime → DateTime → Decimal → PositionRow → PositionRow
closing instant closed_at pnl row = record row {
  state = PositionState.closed;
  closed_at = some instant;
  closed_day = some (utc_day closed_at);
  realized_pnl = some pnl;
}

abbrev pub write_close : String → DateTime → DateTime → Decimal → Ledger → Ledger
write_close id instant closed_at pnl l = record l {
  positions = update_where (has_position_id id) (closing instant closed_at pnl) l.positions;
}

abbrev pub journal_close : String → String → DateTime → Decimal → Decimal → Ledger → Ledger
journal_close signal_id position_id instant pnl exit_price l = record l {
  journal =
      record {
        signal_id = signal_id;
        entry_type = "POSITION_CLOSED";
        amount = some pnl;
        occurred_at = instant;
        details = Details.position_closed position_id exit_price;
      }
      ∷ l.journal;
}

-- What follows the `SELECT`; `none` is a row that is not there or not open.
unfoldable pub close_row : String → Decimal → DateTime → Option PositionRow → Exec Ledger Decimal
unfolding profit decimal
close_row id exit_price closed_at none =
    raise ErrorKind.execution_error "open position does not exist"
close_row id exit_price closed_at (some row) = do
  instant ← lift (timestamp closed_at)
  pnl ← lift (decimal (profit row exit_price))
  modify (write_close id instant closed_at pnl)
  modify (journal_close row.signal_id id instant pnl exit_price)
  event "POSITION_CLOSED" id closed_at (Payload.closed pnl)
  pure pnl

unfoldable pub close_position : String → Decimal → DateTime → Exec Ledger Decimal
unfolding close_row
close_position id exit_price closed_at = do
  lift (
      raise_if (not (is_finite exit_price) || less_eq exit_price (integer (pos 0)))
        ErrorKind.execution_error "exit price must be positive and finite")
  transaction (do
    row ← gets (λ l. find (is_open_position id) l.positions)
    close_row id exit_price closed_at row)

-- `Decimal(row["realized_pnl"])` raises on a missing value.
abbrev pub realized : PositionRow → Result Decimal
realized row = elim row.realized_pnl [
  | some pnl ↦ ok pnl
  | none ↦ raised ErrorKind.type_error "conversion from NoneType to Decimal is not supported"
]

-- `sum((Decimal(row["realized_pnl"]) for row in rows), total)`
abbrev pub add_realized : Decimal → Result Decimal → (Decimal → Result Decimal) → Result Decimal
add_realized total (ok pnl) rest = rest (Decimal.add total pnl)
add_realized total (raised kind message) rest = raised kind message

unfoldable pub sum_realized : Decimal → List PositionRow → Result Decimal
sum_realized total [] = ok total
sum_realized total (row ∷ rows) = add_realized total (realized row) (λ next. sum_realized next rows)

abbrev pub closed_on : ℕ → PositionRow → Bool
closed_on day row =
    not (is_open row.state) && elim row.closed_day [ none ↦ false | some d ↦ d == day ]

unfoldable pub daily_realized_pnl : ℕ → Ledger → Result Decimal
unfolding sum_realized
daily_realized_pnl day l = sum_realized (integer (pos 0)) (select (closed_on day) l.positions)

-- `closed_at DESC, rowid DESC`: a row goes before another that is newer in the table only if it
-- was closed strictly later; a missing time comes last.
abbrev pub closed_later : PositionRow → PositionRow → Bool
closed_later a b = elim a.closed_at [
  | none ↦ false
  | some t ↦ elim b.closed_at [ none ↦ true | some u ↦ ltb u.instant t.instant ]
]

unfoldable pub insert_by_close : PositionRow → List PositionRow → List PositionRow
insert_by_close row [] = row ∷ []
insert_by_close row (other ∷ rows) =
    let rest = insert_by_close row rows in
    if closed_later other row then other ∷ rest else row ∷ other ∷ rows

unfoldable pub latest_closed_first : List PositionRow → List PositionRow
unfolding insert_by_close
latest_closed_first [] = []
latest_closed_first (row ∷ rows) = insert_by_close row (latest_closed_first rows)

abbrev pub add_one : Result ℕ → Result ℕ
add_one (ok n) = ok (n + 1)
add_one (raised kind message) = raised kind message

-- The loop with its `break`.
unfoldable pub count_losses : List PositionRow → Result ℕ
count_losses [] = ok 0
count_losses (row ∷ rows) = elim (realized row) [
  | raised kind message ↦ raised kind message
  | ok pnl ↦ if less pnl (integer (pos 0)) then add_one (count_losses rows) else ok 0
]

unfoldable pub consecutive_losses : Ledger → Result ℕ
unfolding latest_closed_first count_losses
consecutive_losses l =
    count_losses (latest_closed_first (select (λ p. not (is_open p.state)) l.positions))

pub record JournalSummary : Type 0 where
  pub journal_entries : ℕ
  pub orders : ℕ
  pub closed_positions : ℕ
  pub realized_pnl : Decimal

unfoldable pub journal_summary : Ledger → Result JournalSummary
unfolding sum_realized
journal_summary l =
    let closed = select (λ p. not (is_open p.state)) l.positions in
    elim (sum_realized (integer (pos 0)) closed) [
      | raised kind message ↦ raised kind message
      | ok total ↦ ok (record {
        journal_entries = length l.journal;
        orders = length l.orders;
        closed_positions = length closed;
        realized_pnl = total;
      })
    ]
