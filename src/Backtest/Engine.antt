-- ===== src/Backtest/Engine.antt =====
-- `ReplayEngine` of backtesting/engine.py. The dict of open positions is a list in which an
-- instrument stands once, the dict of the latest bars a list with the newest first; lists grow at
-- their end, as in the source.
use Prim.Native.String.{compare, ◌++◌ as text_append}
use Prim.Native.Nat.{Ordering}
use techo_quant_options_pro.Prelude.{
  ℕ, ◌+◌, ◌-◌, String, Bool, true, false, not, Option, none, some, List, [], ◌∷◌, ◌++◌, find,
  select, update_where, str_eq, ltb, ◌==◌, if◌then◌else◌, pos,
}
use techo_quant_options_pro.Decimal
use techo_quant_options_pro.Decimal.{Decimal, integer, less}
use techo_quant_options_pro.Time.{DateTime}
use techo_quant_options_pro.Backtest.Models.{
  ExitReason, JournalEvent, OptionBar, BacktestSignal, BacktestConfig, CostBreakdown, JournalEntry,
  Trade, add_costs, total_cost,
}
use techo_quant_options_pro.Backtest.Fills.{
  times, order_costs, exit_price, fillable_quantity, exit_trigger,
}

pub record OpenPosition : Type 0 where
  pub signal : BacktestSignal
  pub entry_time : DateTime
  pub entry_price : Decimal
  pub entry_ask : Decimal
  pub quantity : ℕ
  pub remaining_quantity : ℕ
  pub entry_costs : CostBreakdown
  pub entry_slippage : Decimal
  pub exit_quantity : ℕ
  pub exit_notional : Decimal
  pub exit_costs : CostBreakdown
  pub exit_slippage : Decimal
  pub exit_reason : Option ExitReason
  pub last_exit_time : Option DateTime
  pub last_exit_attempt : Option DateTime

-- The variables of `run`.
pub record Replay : Type 0 where
  pub pending : List BacktestSignal
  pub positions : List OpenPosition
  pub trades : List Trade
  pub journal : List JournalEntry
  pub latest_bars : List OptionBar

abbrev pub holds : String → OpenPosition → Bool
holds instrument_id p = str_eq p.signal.instrument_id instrument_id

abbrev pub is_bar_of : String → OptionBar → Bool
is_bar_of instrument_id b = str_eq b.instrument_id instrument_id

-- A journal entry without a quantity and a price.
abbrev pub note : JournalEvent → DateTime → BacktestSignal → String → JournalEntry
note event timestamp s message = record {
  timestamp = timestamp;
  event = event;
  signal_id = s.signal_id;
  instrument_id = s.instrument_id;
  message = message;
  quantity = 0;
  price = none;
}

abbrev pub fill_note :
    JournalEvent → DateTime → BacktestSignal → String → ℕ → Decimal → JournalEntry
fill_note event timestamp s message quantity price = record (note event timestamp s message) {
  quantity = quantity;
  price = some price;
}

abbrev reason_or : Option ExitReason → ExitReason → ExitReason
reason_or none reason = reason
reason_or (some r) reason = r

-- `f"{actual_reason.value} ..."`
abbrev reason_value : ExitReason → String
reason_value ExitReason.stop = "STOP"
reason_value ExitReason.target = "TARGET"
reason_value ExitReason.expiry = "EXPIRY"
reason_value ExitReason.time = "TIME"
reason_value ExitReason.end_of_data = "END_OF_DATA"

abbrev attempted : OpenPosition → OptionBar → ExitReason → OpenPosition
attempted p bar reason = record p {
  exit_reason = some (reason_or p.exit_reason reason);
  last_exit_attempt = some bar.timestamp;
}

-- The position after a fill of its exit.
abbrev exit_filled : BacktestConfig → OpenPosition → OptionBar → ℕ → OpenPosition
exit_filled c p bar quantity =
    let (price, adverse) = exit_price bar c in
    record p {
      remaining_quantity = p.remaining_quantity - quantity;
      exit_quantity = p.exit_quantity + quantity;
      exit_notional = Decimal.add p.exit_notional (times price quantity);
      exit_costs = add_costs p.exit_costs (order_costs price quantity false c);
      exit_slippage = Decimal.add p.exit_slippage (times adverse quantity);
      last_exit_time = some bar.timestamp;
    }

-- The trade of a position that was closed at `exit_time`.
unfoldable pub closed_trade : OpenPosition → DateTime → ExitReason → Trade
closed_trade p exit_time reason =
    let exit_average = Decimal.divide p.exit_notional (integer (pos p.exit_quantity)) in
    let gross = times (Decimal.sub exit_average p.entry_price) p.quantity in
    let net =
      Decimal.sub gross (Decimal.add (total_cost p.entry_costs) (total_cost p.exit_costs)) in
    let risk = times (Decimal.sub p.entry_price p.signal.stop_price) p.quantity in
    record {
      signal_id = p.signal.signal_id;
      instrument_id = p.signal.instrument_id;
      option_side = p.signal.option_side;
      entry_time = p.entry_time;
      exit_time = exit_time;
      entry_price = p.entry_price;
      exit_price = exit_average;
      quantity = p.quantity;
      lots = Decimal.divide (integer (pos p.quantity)) (integer (pos p.signal.lot_size));
      stop_price = p.signal.stop_price;
      target_price = p.signal.target_price;
      exit_reason = reason;
      entry_costs = p.entry_costs;
      exit_costs = p.exit_costs;
      gross_pnl = gross;
      net_pnl = net;
      initial_risk = risk;
      r_multiple = Decimal.divide net risk;
      slippage_cost = Decimal.add p.entry_slippage p.exit_slippage;
      holding = exit_time.instant - p.entry_time.instant;
      score = p.signal.score;
      score_band = p.signal.score_band;
      market = p.signal.market;
      expiry_bucket = p.signal.expiry_bucket;
      moneyness = p.signal.moneyness;
      time_bucket = p.signal.time_bucket;
      volatility_bucket = p.signal.volatility_bucket;
      regime = p.signal.regime;
    }

-- What `_execute_exit` leaves: the position, the entries that it wrote, and the trade if the
-- position was closed.
pub record ExitOutcome : Type 0 where
  pub position : OpenPosition
  pub entries : List JournalEntry
  pub trade : Option Trade

abbrev exit_after_fill : OpenPosition → OptionBar → ExitReason → JournalEntry → ExitOutcome
exit_after_fill p bar reason fill =
    let t = closed_trade p bar.timestamp reason in
    if ltb 0 p.remaining_quantity
    then record { position = p; entries = fill ∷ []; trade = none }
    else record {
      position = p;
      entries =
          fill
          ∷ fill_note JournalEvent.exit t.exit_time p.signal
              (text_append "trade closed: " (reason_value t.exit_reason)) t.quantity t.exit_price
          ∷ [];
      trade = some t;
    }

unfoldable pub execute_exit : BacktestConfig → OpenPosition → OptionBar → ExitReason → ExitOutcome
execute_exit c p bar reason =
    let tried = attempted p bar reason in
    let actual = reason_or p.exit_reason reason in
    let quantity = fillable_quantity p.remaining_quantity bar.bid_quantity p.signal.lot_size c in
    if quantity == 0
    then record {
      position = tried;
      entries =
          note JournalEvent.unfilled bar.timestamp p.signal
            "exit pending: no whole lot within configured bid participation"
          ∷ [];
      trade = none;
    }
    else exit_after_fill (exit_filled c tried bar quantity) bar actual (
        fill_note JournalEvent.exit_fill bar.timestamp p.signal
          (text_append (reason_value actual) " exit fill") quantity (exit_price bar c).0)

-- The position is written back; with a trade it leaves the dict.
abbrev pub record_exit : String → ExitOutcome → Option Trade → Replay → Replay
record_exit id e none r = record r {
  positions = update_where (holds id) (λ _. e.position) r.positions;
  journal = r.journal ++ e.entries;
}
record_exit id e (some t) r = record r {
  positions = select (λ p. not (holds id p)) r.positions;
  trades = r.trades ++ (t ∷ []);
  journal = r.journal ++ e.entries;
}

unfoldable pub exit_with :
    BacktestConfig → OpenPosition → OptionBar → Option ExitReason → Replay → Replay
exit_with c p bar none r = r
exit_with c p bar (some reason) r =
    let e = execute_exit c p bar reason in record_exit p.signal.instrument_id e e.trade r

-- `position.exit_reason or _exit_trigger(position, bar)`
abbrev pub due_reason : OpenPosition → OptionBar → Option ExitReason
due_reason p bar = elim p.exit_reason [
  | some r ↦ some r
  | none ↦ exit_trigger p.signal p.entry_time bar
]

-- The body of the first loop, for an instrument that is open; without a bar it goes on.
abbrev pub exit_seen : BacktestConfig → Option OpenPosition → Option OptionBar → Replay → Replay
exit_seen c (some p) (some bar) r = exit_with c p bar (due_reason p bar) r
exit_seen c _ _ r = r

-- The loop over the sorted instruments.
unfoldable pub check_exits : BacktestConfig → List OptionBar → List String → Replay → Replay
unfolding exit_with
check_exits c bars [] r = r
check_exits c bars (id ∷ ids) r =
    check_exits c bars ids (exit_seen c (find (holds id) r.positions) (find (is_bar_of id) bars) r)

abbrev text_before : String → String → Bool
text_before a b = elim (compare a b) [ Ordering.lt ↦ true | _ ↦ false ]

insert_text : String → List String → List String
insert_text a [] = a ∷ []
insert_text a (b ∷ bs) =
    let rest = insert_text a bs in if text_before b a then b ∷ rest else a ∷ b ∷ bs

-- `sorted(positions)`
unfoldable pub sorted_instruments : List OpenPosition → List String
unfolding insert_text
sorted_instruments [] = []
sorted_instruments (p ∷ ps) = insert_text p.signal.instrument_id (sorted_instruments ps)
