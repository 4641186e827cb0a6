-- ===== src/Backtest/Models.antt =====
-- backend/src/teco_quant/backtesting/models.py: the inputs and outputs of a replay. A float that is
-- only carried or compared is its exact decimal value; a duration is in microseconds. The
-- quantities, which the constructors refuse below 0, are natural numbers. `tags`, which nothing
-- reads, is left out.
pub mod Checks
use techo_quant_options_pro.Prelude.{ℕ, ◌*◌, String, Bool, Option, List, pos}
use techo_quant_options_pro.Decimal.{Decimal, integer, add}
use techo_quant_options_pro.Time.{DateTime}

pub data ExitReason : Type 0 where
  stop : ExitReason
  target : ExitReason
  expiry : ExitReason
  time : ExitReason
  end_of_data : ExitReason

pub data JournalEvent : Type 0 where
  signal : JournalEvent
  entry : JournalEvent
  exit_fill : JournalEvent
  exit : JournalEvent
  skipped : JournalEvent
  unfilled : JournalEvent

pub record OptionBar : Type 0 where
  pub instrument_id : String
  pub timestamp : DateTime
  pub open_price : Decimal
  pub high : Decimal
  pub low : Decimal
  pub close : Decimal
  pub bid : Decimal
  pub ask : Decimal
  pub bid_quantity : Option ℕ
  pub ask_quantity : Option ℕ

pub record BacktestSignal : Type 0 where
  pub signal_id : String
  pub instrument_id : String
  pub generated_at : DateTime
  pub option_side : String
  pub lots : ℕ
  pub lot_size : ℕ
  pub stop_price : Decimal
  pub target_price : Decimal
  pub contract_expiry : DateTime
  pub score : Decimal
  pub score_band : String
  pub market : String
  pub expiry_bucket : String
  pub moneyness : String
  pub time_bucket : String
  pub volatility_bucket : String
  pub regime : String
  pub max_holding : Option ℕ
  pub valid_until : Option DateTime

abbrev pub requested_quantity : BacktestSignal → ℕ
requested_quantity s = s.lots * s.lot_size

pub record ReplayFrame : Type 0 where
  pub timestamp : DateTime
  pub bars : List OptionBar
  pub signals : List BacktestSignal

pub record SlippageConfig : Type 0 where
  pub entry_bps : Decimal
  pub exit_bps : Decimal
  pub fixed_entry_per_unit : Decimal
  pub fixed_exit_per_unit : Decimal

pub record CostConfig : Type 0 where
  pub brokerage_per_order : Decimal
  pub entry_tax_rate : Decimal
  pub exit_tax_rate : Decimal
  pub transaction_fee_rate : Decimal
  pub regulatory_fee_rate : Decimal
  pub gst_rate : Decimal

pub record PartialFillConfig : Type 0 where
  pub enabled : Bool
  pub maximum_participation_rate : Decimal

pub record BacktestConfig : Type 0 where
  pub initial_capital : Decimal
  pub slippage : SlippageConfig
  pub costs : CostConfig
  pub partial_fills : PartialFillConfig

pub record CostBreakdown : Type 0 where
  pub brokerage : Decimal
  pub taxes : Decimal
  pub transaction_fees : Decimal
  pub regulatory_fees : Decimal
  pub gst : Decimal

abbrev pub no_costs : CostBreakdown
no_costs = record {
  brokerage = integer (pos 0);
  taxes = integer (pos 0);
  transaction_fees = integer (pos 0);
  regulatory_fees = integer (pos 0);
  gst = integer (pos 0);
}

abbrev pub total_cost : CostBreakdown → Decimal
total_cost c = add (add (add (add c.brokerage c.taxes) c.transaction_fees) c.regulatory_fees) c.gst

abbrev pub add_costs : CostBreakdown → CostBreakdown → CostBreakdown
add_costs a b = record {
  brokerage = add a.brokerage b.brokerage;
  taxes = add a.taxes b.taxes;
  transaction_fees = add a.transaction_fees b.transaction_fees;
  regulatory_fees = add a.regulatory_fees b.regulatory_fees;
  gst = add a.gst b.gst;
}

pub record JournalEntry : Type 0 where
  pub timestamp : DateTime
  pub event : JournalEvent
  pub signal_id : String
  pub instrument_id : String
  pub message : String
  pub quantity : ℕ
  pub price : Option Decimal

pub record Trade : Type 0 where
  pub signal_id : String
  pub instrument_id : String
  pub option_side : String
  pub entry_time : DateTime
  pub exit_time : DateTime
  pub entry_price : Decimal
  pub exit_price : Decimal
  pub quantity : ℕ
  pub lots : Decimal
  pub stop_price : Decimal
  pub target_price : Decimal
  pub exit_reason : ExitReason
  pub entry_costs : CostBreakdown
  pub exit_costs : CostBreakdown
  pub gross_pnl : Decimal
  pub net_pnl : Decimal
  pub initial_risk : Decimal
  pub r_multiple : Decimal
  pub slippage_cost : Decimal
  pub holding : ℕ
  pub score : Decimal
  pub score_band : String
  pub market : String
  pub expiry_bucket : String
  pub moneyness : String
  pub time_bucket : String
  pub volatility_bucket : String
  pub regime : String

abbrev pub total_costs : Trade → Decimal
total_costs t = add (total_cost t.entry_costs) (total_cost t.exit_costs)

pub record OpenPositionSummary : Type 0 where
  pub signal_id : String
  pub instrument_id : String
  pub remaining_quantity : ℕ
  pub entry_price : Decimal
  pub last_timestamp : DateTime
  pub pending_exit_reason : Option ExitReason
