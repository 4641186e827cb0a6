-- ===== src/Backtest/Fills.antt =====
-- The pure functions of backtesting/engine.py: prices with slippage, costs, the quantity that a
-- quote can fill, and what ends a position.
pub mod Lots
use techo_quant_options_pro.Prelude.{
  ℕ, ◌+◌, ◌*◌, ◌/◌, Bool, true, false, not, Option, none, some, min, leb, if◌then◌else◌, pos,
  pos_part,
}
use techo_quant_options_pro.Decimal
use techo_quant_options_pro.Decimal.{Decimal, integer, less, less_eq, floor, maximum}
use techo_quant_options_pro.Time.{DateTime, not_after}
use techo_quant_options_pro.Backtest.Models.{
  ExitReason, OptionBar, BacktestSignal, BacktestConfig, PartialFillConfig, CostConfig,
  CostBreakdown,
}

abbrev pub times : Decimal → ℕ → Decimal
times price quantity = Decimal.mul price (integer (pos quantity))

abbrev order_taxes : Bool → CostConfig → Decimal
order_taxes true c = c.entry_tax_rate
order_taxes false c = c.exit_tax_rate

unfoldable pub order_costs : Decimal → ℕ → Bool → BacktestConfig → CostBreakdown
order_costs price quantity is_entry config =
    let notional = times price quantity in
    let costs = config.costs in
    let transaction = Decimal.mul notional costs.transaction_fee_rate in
    let regulatory = Decimal.mul notional costs.regulatory_fee_rate in
    record {
      brokerage = costs.brokerage_per_order;
      taxes = Decimal.mul notional (order_taxes is_entry costs);
      transaction_fees = transaction;
      regulatory_fees = regulatory;
      gst =
          Decimal.mul (Decimal.add (Decimal.add costs.brokerage_per_order transaction) regulatory)
            costs.gst_rate;
    }

-- `price * bps / 10000 + fixed`
abbrev adverse_of : Decimal → Decimal → Decimal → Decimal
adverse_of price bps fixed =
    Decimal.add (Decimal.divide (Decimal.mul price bps) (integer (pos 10000))) fixed

-- The price of an entry, and how far it is above the ask.
unfoldable pub entry_price : OptionBar → BacktestConfig → Decimal × Decimal
entry_price bar config =
    let adverse =
      adverse_of bar.ask config.slippage.entry_bps config.slippage.fixed_entry_per_unit in
    (Decimal.add bar.ask adverse, adverse)

-- The price of an exit, never below 0, and how far it is below the bid.
unfoldable pub exit_price : OptionBar → BacktestConfig → Decimal × Decimal
exit_price bar config =
    let adverse = adverse_of bar.bid config.slippage.exit_bps config.slippage.fixed_exit_per_unit in
    let price = maximum (integer (pos 0)) (Decimal.sub bar.bid adverse) in
    (price, Decimal.sub bar.bid price)

-- The whole lots inside a share of the visible quantity, which is not negative.
unfoldable pub participating_lots : ℕ → ℕ → PartialFillConfig → ℕ
participating_lots visible lot_size partial =
    pos_part (floor (times partial.maximum_participation_rate visible)) / lot_size * lot_size

abbrev visible_fill : ℕ → Option ℕ → ℕ → BacktestConfig → ℕ
visible_fill requested none lot_size config = 0
visible_fill requested (some visible) lot_size config =
    min requested (participating_lots visible lot_size config.partial_fills)

unfoldable pub fillable_quantity : ℕ → Option ℕ → ℕ → BacktestConfig → ℕ
fillable_quantity requested visible lot_size config =
    if config.partial_fills.enabled
    then visible_fill requested visible lot_size config
    else requested

-- `max_holding` after the entry.
abbrev is_overdue : Option ℕ → DateTime → DateTime → Bool
is_overdue none entry_time now = false
is_overdue (some d) entry_time now = leb (entry_time.instant + d) now.instant

unfoldable pub exit_trigger : BacktestSignal → DateTime → OptionBar → Option ExitReason
exit_trigger signal entry_time bar =
    if less_eq bar.low signal.stop_price
    then some ExitReason.stop
    else if less_eq signal.target_price bar.high
    then some ExitReason.target
    else if not_after signal.contract_expiry bar.timestamp
    then some ExitReason.expiry
    else if is_overdue signal.max_holding entry_time bar.timestamp
    then some ExitReason.time
    else none
