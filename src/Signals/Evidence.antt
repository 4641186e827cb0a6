-- ===== src/Signals/Evidence.antt =====
-- The values that `_factors` of signals/pipeline.py needs.
use techo_quant_options_pro.Prelude.{ℕ, Option, none, some, ℤ, pos, if◌then◌else◌}
use techo_quant_options_pro.Prelude.Options.{◌>>=◌}
use techo_quant_options_pro.Decimal.{Decimal, finite, integer, is_finite, less_eq}
use techo_quant_options_pro.Float.{Float, of_decimal, float_max, float_min}
use techo_quant_options_pro.Domain.Models.{AtomicSnapshot, OptionQuote, pricing_underlying}
use techo_quant_options_pro.Strategy.Config.{nought}
use techo_quant_options_pro.Execution.Errors.{ErrorKind}
use techo_quant_options_pro.Exec.{Result, ok, raised}
use techo_quant_options_pro.Signals.Decimals.{is_nan}

abbrev pub one : Float
one = integer (pos 1)

-- `_clamp`
abbrev pub clamp : Float → Float
clamp value = float_min one (float_max nought value)

abbrev pub decimals : ℕ → ℕ → Float
decimals n places = of_decimal (finite (pos n) places)

-- A value that is there and above 0.
abbrev pub above_zero : Option Decimal → Option Decimal
above_zero none = none
above_zero (some x) = if less_eq x (integer (pos 0)) then none else some x

abbrev pub finite_value : Option Float → Option Float
finite_value none = none
finite_value (some x) = if is_finite x then some x else none

-- The values that `_factors` asks for first, in its order.
pub record Levels : Type 0 where
  pub underlying : Decimal
  pub ema_9 : Decimal
  pub ema_21 : Decimal
  pub wma_44 : Decimal
  pub previous_wma_44 : Decimal
  pub ltp : Decimal
  pub previous_ltp : Decimal

-- What `_factors` needs, and does not answer without.
pub record Evidence : Type 0 where
  pub underlying : Decimal
  pub ema_9 : Decimal
  pub ema_21 : Decimal
  pub wma_44 : Decimal
  pub previous_wma_44 : Decimal
  pub ltp : Decimal
  pub previous_ltp : Decimal
  pub implied_volatility : Float
  pub reference_volatility : Float
  pub delta : Float
  pub change_open_interest : Option ℤ

abbrev levels_of : AtomicSnapshot → OptionQuote → Option OptionQuote → Option Levels
levels_of s q previous = do
  underlying ← pricing_underlying s.market s.contract.market_kind
  ema_9 ← s.technicals.ema_9
  ema_21 ← s.technicals.ema_21
  wma_44 ← s.technicals.wma_44
  previous_wma_44 ← s.technicals.previous_wma_44
  atr_14 ← s.technicals.atr_14
  ask ← q.ask
  ltp ← q.ltp
  earlier ← previous
  previous_ltp ← earlier.ltp
  some (record {
    underlying = underlying;
    ema_9 = ema_9;
    ema_21 = ema_21;
    wma_44 = wma_44;
    previous_wma_44 = previous_wma_44;
    ltp = ltp;
    previous_ltp = previous_ltp;
  })

abbrev completed : AtomicSnapshot → OptionQuote → Levels → Option Evidence
completed s q l = do
  previous_ltp ← above_zero (some l.previous_ltp)
  implied_volatility ← q.implied_volatility
  reference_volatility ← above_zero s.technicals.reference_volatility
  delta ← finite_value q.greeks.delta
  some (record {
    underlying = l.underlying;
    ema_9 = l.ema_9;
    ema_21 = l.ema_21;
    wma_44 = l.wma_44;
    previous_wma_44 = l.previous_wma_44;
    ltp = l.ltp;
    previous_ltp = previous_ltp;
    implied_volatility = implied_volatility;
    reference_volatility = reference_volatility;
    delta = delta;
    change_open_interest = q.change_open_interest;
  })

-- A previous price of NaN raises where it is compared with 0.
abbrev evidence_from : AtomicSnapshot → OptionQuote → Option Levels → Result (Option Evidence)
evidence_from s q none = ok none
evidence_from s q (some l) =
    if is_nan l.previous_ltp
    then raised ErrorKind.invalid_operation "decimal.InvalidOperation"
    else ok (completed s q l)

unfoldable pub evidence_of :
    AtomicSnapshot → OptionQuote → Option OptionQuote → Result (Option Evidence)
evidence_of s q previous = evidence_from s q (levels_of s q previous)
