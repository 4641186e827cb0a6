-- ===== src/Backtest/Models/Checks.antt =====
-- The `__post_init__` checks of backtesting/models.py, in the order of the source.
use techo_quant_options_pro.Prelude.{
  ℕ, String, Bool, true, false, not, ◌&&◌, ◌||◌, Option, none, some, List, [], ◌∷◌, any, str_eq,
  ◌==◌, pos,
}
use Prim.Native.String.{◌++◌ as text_append}
use techo_quant_options_pro.Decimal.{Decimal, integer, is_finite, less, less_eq, maximum}
use techo_quant_options_pro.Text.{is_blank}
use techo_quant_options_pro.Time.{DateTime, not_after, same_instant}
use techo_quant_options_pro.Execution.Errors.{ErrorKind}
use techo_quant_options_pro.Backtest.Models.{
  OptionBar, BacktestSignal, ReplayFrame, SlippageConfig, CostConfig, PartialFillConfig,
  BacktestConfig,
}
use techo_quant_options_pro.Exec.{Result, ok, raise_if, ◌then_check◌}

abbrev refuse : Bool → String → Result (Unit {0})
refuse test message = raise_if test ErrorKind.value_error message

abbrev zero_price : Decimal
zero_price = integer (pos 0)

abbrev require_finite : Decimal → String → Result (Unit {0})
require_finite value message = refuse (not (is_finite value)) message

abbrev says : String → String → String
says name problem = text_append name problem

abbrev require_positive : String → Decimal → Result (Unit {0})
require_positive name value =
    require_finite value (says name " must be finite")
    then_check refuse (less_eq value zero_price) (says name " must be positive")

-- Python's `min` of two decimals.
abbrev minimum : Decimal → Decimal → Decimal
minimum a b = elim (less b a) [ true ↦ b | false ↦ a ]

unfoldable pub validate_bar : OptionBar → Result (Unit {0})
validate_bar b =
    refuse (is_blank b.instrument_id) "bar instrument_id cannot be blank"
    then_check refuse (not b.timestamp.aware) "bar timestamp must be timezone-aware"
    then_check require_positive "bar open" b.open_price
    then_check require_positive "bar high" b.high
    then_check require_positive "bar low" b.low
    then_check require_positive "bar close" b.close
    then_check require_positive "bar bid" b.bid
    then_check require_positive "bar ask" b.ask
    then_check refuse (less b.high (maximum (maximum b.open_price b.close) b.low))
        "bar high must be at least open, low, and close"
    then_check refuse (less (minimum (minimum b.open_price b.close) b.high) b.low)
        "bar low must be at most open, high, and close"
    then_check refuse (less b.ask b.bid) "bar ask cannot be below bid"

abbrev valid_until_check : DateTime → Option DateTime → Result (Unit {0})
valid_until_check generated_at none = ok tt
valid_until_check generated_at (some t) =
    refuse (not t.aware) "signal valid_until must be timezone-aware"
    then_check refuse (not_after t generated_at) "valid_until must be after signal generation"

abbrev is_zero_if_present : Option ℕ → Bool
is_zero_if_present none = false
is_zero_if_present (some d) = d == 0

unfoldable pub validate_signal : BacktestSignal → Result (Unit {0})
validate_signal s =
    refuse (is_blank s.signal_id || is_blank s.instrument_id)
      "signal_id and instrument_id cannot be blank"
    then_check refuse (is_blank s.option_side) "option_side cannot be blank"
    then_check refuse (not s.generated_at.aware) "signal generated_at must be timezone-aware"
    then_check refuse (not s.contract_expiry.aware) "signal contract_expiry must be timezone-aware"
    then_check refuse (not_after s.contract_expiry s.generated_at)
        "contract_expiry must be after signal generation"
    then_check valid_until_check s.generated_at s.valid_until
    then_check refuse (is_zero_if_present s.max_holding) "max_holding must be positive"
    then_check refuse (s.lots == 0 || s.lot_size == 0) "lots and lot_size must be positive"
    then_check require_finite s.stop_price "signal stop_price must be finite"
    then_check require_finite s.target_price "signal target_price must be finite"
    then_check refuse (less s.stop_price zero_price || less_eq s.target_price s.stop_price)
        "long-option prices require 0 <= stop < target"
    then_check refuse
        (not (is_finite s.score)
          || not (less_eq zero_price s.score && less_eq s.score (integer (pos 100))))
        "signal score must be finite and within 0..100"
    then_check refuse
        (any is_blank (
          s.score_band ∷ s.market ∷ s.expiry_bucket ∷ s.moneyness ∷ s.time_bucket
          ∷ s.volatility_bucket ∷ s.regime ∷ []))
        "signal breakdown dimensions cannot be blank"

-- The loop over a frame's bars; `seen` holds the instruments so far.
unfoldable pub validate_bars : DateTime → List String → List OptionBar → Result (Unit {0})
validate_bars timestamp seen [] = ok tt
validate_bars timestamp seen (b ∷ bars) =
    refuse (not (same_instant b.timestamp timestamp))
      "every bar timestamp must equal its frame timestamp"
    then_check refuse (any (str_eq b.instrument_id) seen)
        "a frame cannot contain duplicate instrument bars"
    then_check validate_bars timestamp (b.instrument_id ∷ seen) bars

unfoldable pub validate_signals : DateTime → List String → List BacktestSignal → Result (Unit {0})
validate_signals timestamp seen [] = ok tt
validate_signals timestamp seen (s ∷ signals) =
    refuse (not (same_instant s.generated_at timestamp))
      "a signal must be placed in the frame where it became available"
    then_check refuse (any (str_eq s.signal_id) seen) "a frame cannot contain duplicate signal IDs"
    then_check validate_signals timestamp (s.signal_id ∷ seen) signals

unfoldable pub validate_frame : ReplayFrame → Result (Unit {0})
unfolding validate_bars validate_signals
validate_frame f =
    refuse (not f.timestamp.aware) "frame timestamp must be timezone-aware"
    then_check validate_bars f.timestamp [] f.bars
    then_check validate_signals f.timestamp [] f.signals

abbrev not_negative : String → Decimal → Result (Unit {0})
not_negative name value =
    require_finite value (says name " must be finite")
    then_check refuse (less value zero_price) (says name " cannot be negative")

abbrev at_most_one : String → Decimal → Result (Unit {0})
at_most_one name value = refuse (less (integer (pos 1)) value) (says name " must be within 0..1")

unfoldable pub validate_slippage : SlippageConfig → Result (Unit {0})
validate_slippage c =
    not_negative "entry_bps" c.entry_bps
    then_check not_negative "exit_bps" c.exit_bps
    then_check not_negative "fixed_entry_per_unit" c.fixed_entry_per_unit
    then_check not_negative "fixed_exit_per_unit" c.fixed_exit_per_unit

unfoldable pub validate_costs : CostConfig → Result (Unit {0})
validate_costs c =
    not_negative "brokerage_per_order" c.brokerage_per_order
    then_check not_negative "entry_tax_rate" c.entry_tax_rate
    then_check not_negative "exit_tax_rate" c.exit_tax_rate
    then_check not_negative "transaction_fee_rate" c.transaction_fee_rate
    then_check not_negative "regulatory_fee_rate" c.regulatory_fee_rate
    then_check not_negative "gst_rate" c.gst_rate
    then_check at_most_one "entry_tax_rate" c.entry_tax_rate
    then_check at_most_one "exit_tax_rate" c.exit_tax_rate
    then_check at_most_one "transaction_fee_rate" c.transaction_fee_rate
    then_check at_most_one "regulatory_fee_rate" c.regulatory_fee_rate
    then_check at_most_one "gst_rate" c.gst_rate

unfoldable pub validate_partial_fills : PartialFillConfig → Result (Unit {0})
validate_partial_fills c =
    require_finite c.maximum_participation_rate "maximum_participation_rate must be finite"
    then_check refuse
        (not (
          less zero_price c.maximum_participation_rate
          && less_eq c.maximum_participation_rate (integer (pos 1))))
        "maximum_participation_rate must be within (0, 1]"

unfoldable pub validate_config : BacktestConfig → Result (Unit {0})
validate_config c =
    require_finite c.initial_capital "initial_capital must be finite"
    then_check refuse (less_eq c.initial_capital zero_price) "initial_capital must be positive"
