-- ===== src/Strategy/Sizing.antt =====
-- `calculate_position_size` of strategy/spec.py.
use techo_quant_options_pro.Prelude.{
  Bool, not, ◌&&◌, ◌||◌, ℤ, pos, pos_part, leb_ℤ, ltb_ℤ, ◌*ℤ◌, if◌then◌else◌,
}
use techo_quant_options_pro.Decimal
use techo_quant_options_pro.Decimal.{Decimal, integer, is_finite, less, less_eq, floor}
use techo_quant_options_pro.Float.{Float, decimal_of_text}
use techo_quant_options_pro.Exec.{Result, ok, ◌then_check◌}
use techo_quant_options_pro.Strategy.Config.{StrategyConfig, refuse, nought, is_not_finite}

pub record PositionSizeResult : Type 0 where
  pub maximum_risk : Decimal
  pub risk_per_lot : Decimal
  pub premium_per_lot : Decimal
  pub lots_by_risk : ℤ
  pub lots_by_allocation : ℤ
  pub maximum_lots : ℤ
  pub quantity : ℤ
  pub affordable : Bool

-- The arguments of the call.
pub record SizeRequest : Type 0 where
  pub account_capital : Decimal
  pub risk_rate : Float
  pub maximum_premium_allocation : Float
  pub entry : Decimal
  pub stop : Decimal
  pub lot_size : ℤ
  pub cost_per_lot : Decimal

unfoldable pub check_request : SizeRequest → StrategyConfig → Result (Unit {0})
check_request r c =
    refuse
      (not (
        is_finite r.account_capital
        && is_finite r.entry
        && is_finite r.stop
        && is_finite r.cost_per_lot))
      "position-sizing decimal inputs must be finite"
    then_check refuse
        (less_eq r.account_capital (integer (pos 0))
          || less_eq r.entry (integer (pos 0))
          || leb_ℤ r.lot_size (pos 0))
        "capital, entry, and lot size must be positive"
    then_check refuse (is_not_finite r.risk_rate || is_not_finite r.maximum_premium_allocation)
        "risk and allocation rates must be finite"
    then_check refuse
        (not (less nought r.risk_rate && less_eq r.risk_rate c.maximum_risk_per_trade))
        "risk rate must be positive and within the configured maximum risk per trade"
    then_check refuse
        (not (
          less nought r.maximum_premium_allocation
          && less_eq r.maximum_premium_allocation (integer (pos 1))))
        "premium allocation rate must be within (0, 1]"
    then_check refuse (less r.stop (integer (pos 0)) || less_eq r.entry r.stop)
        "a long-option stop must be within [0, entry)"
    then_check refuse (less r.cost_per_lot (integer (pos 0))) "estimated costs cannot be negative"

-- `int((total / each).to_integral_value(rounding=ROUND_FLOOR))`
abbrev whole_lots : Decimal → Decimal → ℤ
whole_lots total each = floor (Decimal.divide total each)

abbrev min_ℤ : ℤ → ℤ → ℤ
min_ℤ a b = if ltb_ℤ b a then b else a

-- `max(0, min(a, b))`
abbrev capped_lots : ℤ → ℤ → ℤ
capped_lots a b = pos (pos_part (min_ℤ a b))

unfoldable pub size_of : SizeRequest → PositionSizeResult
size_of r =
    let maximum_risk = Decimal.mul r.account_capital (decimal_of_text r.risk_rate) in
    let risk_per_lot =
      Decimal.add (Decimal.mul (Decimal.sub r.entry r.stop) (integer r.lot_size)) r.cost_per_lot in
    let premium_per_lot = Decimal.mul r.entry (integer r.lot_size) in
    let allocation = Decimal.mul r.account_capital (decimal_of_text r.maximum_premium_allocation) in
    let lots_by_risk = whole_lots maximum_risk risk_per_lot in
    let lots_by_allocation = whole_lots allocation premium_per_lot in
    let maximum_lots = capped_lots lots_by_risk lots_by_allocation in
    record {
      maximum_risk = maximum_risk;
      risk_per_lot = risk_per_lot;
      premium_per_lot = premium_per_lot;
      lots_by_risk = lots_by_risk;
      lots_by_allocation = lots_by_allocation;
      maximum_lots = maximum_lots;
      quantity = maximum_lots *ℤ r.lot_size;
      affordable = ltb_ℤ (pos 0) maximum_lots;
    }

abbrev sized : SizeRequest → Result (Unit {0}) → Result PositionSizeResult
sized r (ok _) = ok (size_of r)
sized r (Result.raised kind message) = Result.raised kind message

unfoldable pub calculate_position_size : SizeRequest → StrategyConfig → Result PositionSizeResult
unfolding check_request
calculate_position_size r c = sized r (check_request r c)
