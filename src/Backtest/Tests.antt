-- ===== src/Backtest/Tests.antt =====
-- A replay of three frames: a signal, its entry, and its exit at the target.
use techo_quant_options_pro.Prelude.{
  ℕ, ◌+◌, ◌*◌, ◌≡◌, refl, true, some, List, [], ◌∷◌, pos, arith, length, ◌+ℤ◌, ◌-ℤ◌, ◌*ℤ◌, map,
}
use techo_quant_options_pro.Decimal.{
  integer, finite, less, less_eq, add, sub, mul, divide, negate, floor, maximum,
}
use techo_quant_options_pro.Time.{DateTime}
use techo_quant_options_pro.Exec.{ok}
use techo_quant_options_pro.Backtest.Models.{
  OptionBar, BacktestSignal, ReplayFrame, BacktestConfig, JournalEvent, JournalEntry, Trade,
}
use techo_quant_options_pro.Backtest.Fills.{
  order_costs, entry_price, exit_price, fillable_quantity, participating_lots, exit_trigger,
}
use techo_quant_options_pro.Backtest.Engine.{
  closed_trade, execute_exit, check_exits, sorted_instruments,
}
use techo_quant_options_pro.Backtest.Entries.{execute_pending}
use techo_quant_options_pro.Backtest.Run.{
  validate_sequence, new_replay, replay, replay_frame, replay_frames, update_bars, queue_signals,
  liquidate, journal_unfilled,
}
use techo_quant_options_pro.Backtest.Fills.Lots.{WholeLots, fillable_lots}
use techo_quant_options_pro.Backtest.Metrics.{breakdown, count_of, is_win}
use techo_quant_options_pro.Backtest.Metrics.Totals.{total_trades, total_wins, breakdown_totals}
use techo_quant_options_pro.Backtest.Sound.{IsReplay}
use techo_quant_options_pro.Backtest.Sound.Whole.{replay_accounts}

abbrev at : ℕ → DateTime
at seconds = record { instant = seconds * 1000000; aware = true }

abbrev config : BacktestConfig
config = record {
  initial_capital = integer (pos 100000);
  slippage = record {
    entry_bps = integer (pos 10);
    exit_bps = integer (pos 10);
    fixed_entry_per_unit = integer (pos 0);
    fixed_exit_per_unit = integer (pos 0);
  };
  costs = record {
    brokerage_per_order = integer (pos 20);
    entry_tax_rate = integer (pos 0);
    exit_tax_rate = finite (pos 1) 3;
    transaction_fee_rate = finite (pos 5) 4;
    regulatory_fee_rate = integer (pos 0);
    gst_rate = finite (pos 18) 2;
  };
  partial_fills = record { enabled = true; maximum_participation_rate = finite (pos 5) 1 };
}

abbrev buy_signal : BacktestSignal
buy_signal = record {
  signal_id = "s-1";
  instrument_id = "NIFTY-CE";
  generated_at = at 60;
  option_side = "CE";
  lots = 2;
  lot_size = 75;
  stop_price = integer (pos 90);
  target_price = integer (pos 120);
  contract_expiry = at 100000;
  score = integer (pos 80);
  score_band = "80-90";
  market = "NIFTY";
  expiry_bucket = "0-7";
  moneyness = "ATM";
  time_bucket = "OPEN";
  volatility_bucket = "LOW";
  regime = "TREND";
  max_holding = some 3600000000;
  valid_until = some (at 300);
}

abbrev bar : DateTime → ℕ → ℕ → OptionBar
bar timestamp bid high = record {
  instrument_id = "NIFTY-CE";
  timestamp = timestamp;
  open_price = integer (pos bid);
  high = integer (pos high);
  low = integer (pos 95);
  close = integer (pos bid);
  bid = integer (pos bid);
  ask = integer (pos (bid + 1));
  bid_quantity = some 400;
  ask_quantity = some 200;
}

abbrev signal_frame : ReplayFrame
signal_frame = record { timestamp = at 60; bars = []; signals = buy_signal ∷ [] }

abbrev later_frames : List ReplayFrame
later_frames =
    record { timestamp = at 120; bars = bar (at 120) 100 102 ∷ []; signals = [] }
    ∷ record { timestamp = at 180; bars = bar (at 180) 119 121 ∷ []; signals = [] }
    ∷ []

frames_valid : validate_sequence (signal_frame ∷ later_frames) ≡ ok tt
unfolding validate_sequence
frames_valid = refl

-- One lot of the two is bought, half of the visible quantity being less than both.
journal_run :
    map {B = JournalEvent × ℕ}
      (λ (e : JournalEntry). (e.event, e.quantity))
      (replay config signal_frame later_frames new_replay).1.journal
    ≡ (JournalEvent.signal, 0)
      ∷ (JournalEvent.entry, 75)
      ∷ (JournalEvent.exit_fill, 75)
      ∷ (JournalEvent.exit, 75)
      ∷ []
unfolding replay validate_sequence replay_frames replay_frame update_bars queue_signals liquidate
    journal_unfilled execute_pending check_exits sorted_instruments execute_exit closed_trade
    order_costs entry_price exit_price fillable_quantity participating_lots exit_trigger less
    less_eq add sub mul divide negate floor maximum ◌+ℤ◌ ◌-ℤ◌ ◌*ℤ◌
journal_run = refl

replay_accounts_example :
    let (r, s) = replay config signal_frame later_frames new_replay in (r ≡ ok tt) × IsReplay 1 s
replay_accounts_example =
    replay_accounts config signal_frame later_frames frames_valid
      ((omega arith, tt), (tt, (tt, tt)))

-- Two and a half lots are visible at the participation rate.
fillable_lots_example : WholeLots 4 75 (fillable_quantity 300 (some 400) 75 config)
fillable_lots_example = fillable_lots 4 (some 400) 75 config

abbrev closed_trades : List Trade
closed_trades = (replay config signal_frame later_frames new_replay).1.trades

breakdown_totals_example :
    (total_trades (breakdown (λ t. t.market) closed_trades) ≡ length closed_trades)
    × (total_wins (breakdown (λ t. t.market) closed_trades) ≡ count_of is_win closed_trades)
breakdown_totals_example = breakdown_totals (λ t. t.market) closed_trades
