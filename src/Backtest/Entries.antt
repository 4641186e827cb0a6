-- ===== src/Backtest/Entries.antt =====
-- `_execute_pending` of backtesting/engine.py: the signals that wait for a later quote. A signal
-- that goes on waiting is appended to the list that the loop rebuilds.
use techo_quant_options_pro.Prelude.{
  ℕ, String, Bool, true, false, not, ◌&&◌, Option, none, some, List, [], ◌∷◌, ◌++◌, any, find, ltb,
  ◌==◌, if◌then◌else◌, pos,
}
use techo_quant_options_pro.Decimal.{integer, less}
use techo_quant_options_pro.Time.{DateTime, before, not_after}
use techo_quant_options_pro.Execution.Errors.{ErrorKind}
use techo_quant_options_pro.Exec.{ok, raised, Exec, ◌>>◌}
use techo_quant_options_pro.Backtest.Models.{
  JournalEvent, OptionBar, BacktestSignal, BacktestConfig, JournalEntry, ReplayFrame, no_costs,
  requested_quantity,
}
use techo_quant_options_pro.Backtest.Fills.{times, order_costs, entry_price, fillable_quantity}
use techo_quant_options_pro.Backtest.Engine.{
  OpenPosition, Replay, holds, is_bar_of, note, fill_note,
}

abbrev pub keep : BacktestSignal → Replay → Replay
keep s r = record r { pending = r.pending ++ (s ∷ []) }

abbrev pub write : JournalEntry → Replay → Replay
write e r = record r { journal = r.journal ++ (e ∷ []) }

abbrev pub skip : BacktestSignal → DateTime → String → Replay → Replay
skip s timestamp message r = write (note JournalEvent.skipped timestamp s message) r

abbrev pub opened_entry_position :
    BacktestConfig → BacktestSignal → OptionBar → DateTime → ℕ → OpenPosition
opened_entry_position c s bar now quantity =
    let (price, adverse) = entry_price bar c in
    record {
      signal = s;
      entry_time = now;
      entry_price = price;
      entry_ask = bar.ask;
      quantity = quantity;
      remaining_quantity = quantity;
      entry_costs = order_costs price quantity true c;
      entry_slippage = times adverse quantity;
      exit_quantity = 0;
      exit_notional = integer (pos 0);
      exit_costs = no_costs;
      exit_slippage = integer (pos 0);
      exit_reason = none;
      last_exit_time = none;
      last_exit_attempt = none;
    }

abbrev fill_description : ℕ → BacktestSignal → String
fill_description quantity s =
    if ltb quantity (requested_quantity s)
    then "partial entry fill; unfilled remainder cancelled"
    else "entry filled"

-- `positions[signal.instrument_id] = ...`, and the journal's entry.
abbrev pub open_entry : OpenPosition → Replay → Replay
open_entry p r = record r {
  positions = r.positions ++ (p ∷ []);
  journal =
      r.journal
      ++ (fill_note JournalEvent.entry p.entry_time p.signal (fill_description p.quantity p.signal)
            p.quantity p.entry_price
          ∷ []);
}

-- The end of the loop's body, once the quantity is known.
unfoldable pub enter :
    BacktestConfig → BacktestSignal → OptionBar → DateTime → ℕ → Exec Replay (Unit {0})
enter c s bar now quantity r =
    if quantity == 0
    then if c.partial_fills.enabled
      then (
        ok tt,
        write (note JournalEvent.unfilled now s "no whole lot within configured ask participation")
            (keep s r),
      )
      else (raised ErrorKind.assertion_error "full-fill mode must return the requested quantity", r)
    else if not
        (less s.stop_price (entry_price bar c).0 && less (entry_price bar c).0 s.target_price)
    then (ok tt, skip s now "executable entry is not strictly between stop and target" r)
    else (ok tt, open_entry (opened_entry_position c s bar now quantity) r)

unfoldable pub enter_on :
    BacktestConfig → BacktestSignal → DateTime → Option OptionBar → Exec Replay (Unit {0})
unfolding enter
enter_on c s now none r = (ok tt, keep s r)
enter_on c s now (some bar) r =
    if any (holds s.instrument_id) r.positions
    then (ok tt, skip s now "position already open" r)
    else enter c s bar now (fillable_quantity (requested_quantity s) bar.ask_quantity s.lot_size c)
        r

abbrev pub has_elapsed : Option DateTime → DateTime → Bool
has_elapsed none now = false
has_elapsed (some t) now = before t now

-- The body of the loop.
unfoldable pub try_entry : BacktestConfig → ReplayFrame → BacktestSignal → Exec Replay (Unit {0})
unfolding enter_on
try_entry c frame s r =
    if not_after frame.timestamp s.generated_at
    then (ok tt, keep s r)
    else if not_after s.contract_expiry frame.timestamp
    then (ok tt, skip s frame.timestamp "contract expired before entry" r)
    else if has_elapsed s.valid_until frame.timestamp
    then (ok tt, skip s frame.timestamp "signal validity window elapsed" r)
    else enter_on c s frame.timestamp (find (is_bar_of s.instrument_id) frame.bars) r

unfoldable pub execute_pending :
    BacktestConfig → ReplayFrame → List BacktestSignal → Exec Replay (Unit {0})
unfolding try_entry
execute_pending c frame [] r = (ok tt, r)
execute_pending c frame (s ∷ ss) r = (try_entry c frame s >> execute_pending c frame ss) r
