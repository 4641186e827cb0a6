-- ===== src/Signals/Greeks.antt =====
-- `_greeks_factor` of signals/pipeline.py.
use techo_quant_options_pro.Prelude.{◌^◌, Bool, true, ◌&&◌, Option, none, some, pos, if◌then◌else◌}
use techo_quant_options_pro.Decimal.{Decimal, finite, infinity, nan, integer, is_finite, less_eq}
use techo_quant_options_pro.Float
use techo_quant_options_pro.Float.{
  Float, of_decimal, absolute, float_max, float_min, ratio, decimal_of_text,
}
use techo_quant_options_pro.Execution.Errors.{ErrorKind}
use techo_quant_options_pro.Exec.{Result, ok, raised}
use techo_quant_options_pro.Exec.Results.{◌>>=◌}
use techo_quant_options_pro.Domain.Models.{AtomicSnapshot, OptionQuote, Greeks}
use techo_quant_options_pro.Strategy.Config.{StrategyConfig, delta_range, nought}
use techo_quant_options_pro.Signals.Policy.{EvidencePolicy}
use techo_quant_options_pro.Signals.Decimals.{difference, quotient}
use techo_quant_options_pro.Signals.Evidence.{one, clamp, decimals, Evidence}

abbrev pub is_price : Decimal → Bool
is_price x = is_finite x && less_eq (integer (pos 0)) x

-- `1 - error / ceiling`, or one half without a usable value; an `ltp` of 0 or infinity raises.
unfoldable pub theoretical_fit : EvidencePolicy → Decimal → Option Decimal → Result Float
theoretical_fit p ltp none = ok (decimals 5 1)
theoretical_fit p ltp (some theoretical) =
    if is_price theoretical
    then (do
      error ← difference theoretical ltp
      relative ← quotient (absolute error) ltp
      ok (clamp (Float.sub one (Float.divide (of_decimal relative) p.theoretical_error_ceiling))))
    else ok (decimals 5 1)

-- Half the least positive binary64 number: what is no larger rounds to 0.0.
abbrev is_float_zero : Decimal → Bool
is_float_zero x = less_eq (absolute x) (finite (pos (5 ^ 1075)) 1075)

-- `abs(theta) / float(ltp)`
unfoldable pub theta_drag : Float → Decimal → Result Float
theta_drag theta (finite c p) =
    if is_float_zero (finite c p)
    then raised ErrorKind.arithmetic_error "float division by zero"
    else ok (Float.divide (absolute theta) (of_decimal (finite c p)))
theta_drag theta (infinity s) = ok nought
theta_drag theta nan = ok nan

unfoldable pub theta_fit : EvidencePolicy → Decimal → Option Float → Result Float
unfolding theta_drag
theta_fit p ltp none = ok (decimals 5 1)
theta_fit p ltp (some theta) =
    if is_finite theta
    then (do
      drag ← theta_drag theta ltp
      ok (clamp (Float.sub one (Float.divide drag p.daily_theta_drag_ceiling))))
    else ok (decimals 5 1)

abbrev is_shaped : Option Float → Bool
is_shaped none = true
is_shaped (some x) = is_finite x && less_eq nought x

abbrev delta_fit : StrategyConfig → AtomicSnapshot → Float → Float
delta_fit c s delta =
    let (low, high) = delta_range c s.context.trading_style in
    let midpoint = Float.divide (Float.add low high) (integer (pos 2)) in
    let half_width =
      float_max (Float.divide (Float.sub high low) (integer (pos 2))) (decimals 1 9) in
    clamp (Float.sub one (Float.divide (absolute (Float.sub (absolute delta) midpoint)) half_width))

abbrev shape : Greeks → Float
shape g = if is_shaped g.gamma && is_shaped g.vega then one else nought

unfoldable pub greeks_factor :
    StrategyConfig → EvidencePolicy → AtomicSnapshot → OptionQuote → Evidence → Result Float
unfolding theoretical_fit theta_fit
greeks_factor c p s q e = do
  theoretical ← theoretical_fit p e.ltp q.greeks.theoretical_price
  theta ← theta_fit p e.ltp q.greeks.theta
  ok (
      clamp (
        Float.add
          (Float.add
            (Float.add (Float.mul (decimals 45 2) (delta_fit c s e.delta))
              (Float.mul (decimals 25 2) theoretical))
            (Float.mul (decimals 20 2) theta))
          (Float.mul (decimals 10 2) (shape q.greeks))))
