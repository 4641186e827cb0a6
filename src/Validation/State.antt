-- ===== src/Validation/State.antt =====
-- `_validate_market`, `_validate_technicals` and `_validate_context` of ingestion/validation.py.
use techo_quant_options_pro.Prelude.{
  String, Bool, true, false, not, ◌&&◌, Option, none, some, List, [], ◌∷◌, ◌++◌, pos, is_some,
  if◌then◌else◌,
}
use techo_quant_options_pro.Decimal.{Decimal, integer, is_finite, less, less_eq}
use techo_quant_options_pro.Float.{Float}
use techo_quant_options_pro.Domain.Enums.{MarketKind}
use techo_quant_options_pro.Domain.Models.{AtomicSnapshot, pricing_underlying}
use techo_quant_options_pro.Strategy.Config.{nought}
use techo_quant_options_pro.Validation.Issues.{
  ValidationIssue, IssuePath, Validator, error_if, warning_if, require_aware, is_positive,
}

-- The loop over named values that must be positive.
abbrev pub positive_issues : String → List (String × Option Decimal) → List ValidationIssue
positive_issues code [] = []
positive_issues code ((name, value) ∷ rest) =
    error_if (not (is_positive value)) code (IssuePath.field name) ++ positive_issues code rest

abbrev pub is_commodity : MarketKind → Bool
is_commodity MarketKind.commodity = true
is_commodity _ = false

-- A positive high below a positive low.
abbrev pub is_reversed : Option Decimal → Option Decimal → Bool
is_reversed (some high) (some low) =
    is_positive (some high) && is_positive (some low) && less high low
is_reversed _ _ = false

unfoldable pub validate_market : AtomicSnapshot → List ValidationIssue
validate_market s =
    let m = s.market in
    require_aware m.observed_at (IssuePath.field "market.observed_at")
    ++ (error_if (not (is_positive (pricing_underlying m s.contract.market_kind)))
          "PRICING_UNDERLYING_MISSING" (IssuePath.field "market.pricing_underlying")
        ++ (error_if
              (not (is_commodity s.contract.market_kind) && not (is_positive m.futures_price))
              "FUTURES_PRICE_MISSING" (IssuePath.field "market.futures_price")
            ++ (positive_issues "MARKET_FIELD_MISSING" (
                  ("market.previous_close", m.previous_close)
                  ∷ ("market.day_open", m.day_open)
                  ∷ ("market.day_high", m.day_high)
                  ∷ ("market.day_low", m.day_low)
                  ∷ ("market.vwap", m.vwap)
                  ∷ [])
                ++ error_if (is_reversed m.day_high m.day_low) "INVALID_DAY_RANGE"
                    (IssuePath.field "market.day_high"))))

abbrev is_rsi : Option Float → Bool
is_rsi none = false
is_rsi (some r) = is_finite r && less_eq nought r && less_eq r (integer (pos 100))

unfoldable pub validate_technicals : AtomicSnapshot → List ValidationIssue
validate_technicals s =
    let t = s.technicals in
    require_aware t.observed_at (IssuePath.field "technicals.observed_at")
    ++ (error_if (not t.completed_candle) "INCOMPLETE_TECHNICAL_CANDLE"
          (IssuePath.field "technicals.completed_candle")
        ++ (positive_issues "TECHNICAL_FIELD_MISSING" (
              ("technicals.ema_9", t.ema_9)
              ∷ ("technicals.ema_21", t.ema_21)
              ∷ ("technicals.wma_44", t.wma_44)
              ∷ ("technicals.previous_wma_44", t.previous_wma_44)
              ∷ [])
            ++ (error_if (not (is_rsi t.rsi_14)) "INVALID_RSI" (IssuePath.field "technicals.rsi_14")
                ++ (error_if (not (is_positive t.atr_14)) "INVALID_ATR"
                      (IssuePath.field "technicals.atr_14")
                    ++ error_if (not (is_positive t.reference_volatility))
                        "REFERENCE_VOLATILITY_MISSING"
                        (IssuePath.field "technicals.reference_volatility")))))

abbrev pub is_rate_up_to : Float → Float → Bool
is_rate_up_to top rate = is_finite rate && less nought rate && less_eq rate top

abbrev pub candle_issues : Decimal → Decimal → List ValidationIssue
candle_issues high low =
    if not (is_positive (some high) && is_positive (some low))
    then error_if true "SIGNAL_CANDLE_MISSING" (IssuePath.field "context.signal_candle_high")
    else error_if (less high low) "INVALID_SIGNAL_CANDLE"
        (IssuePath.field "context.signal_candle_high")

unfoldable pub validate_context : Validator → AtomicSnapshot → List ValidationIssue
validate_context v s =
    let x = s.context in
    error_if (not (is_positive (some x.account_capital))) "INVALID_ACCOUNT_CAPITAL"
      (IssuePath.field "context.account_capital")
    ++ (error_if (not (is_rate_up_to v.config.maximum_risk_per_trade x.risk_per_trade))
          "RISK_LIMIT_EXCEEDED" (IssuePath.field "context.risk_per_trade")
        ++ (error_if (not (is_rate_up_to (integer (pos 1)) x.maximum_premium_allocation))
              "INVALID_PREMIUM_ALLOCATION" (IssuePath.field "context.maximum_premium_allocation")
            ++ (candle_issues x.signal_candle_high x.signal_candle_low
                ++ (error_if (not (is_positive (some x.expected_holding_hours)))
                      "INVALID_HOLDING_PERIOD" (IssuePath.field "context.expected_holding_hours")
                    ++ warning_if (not (is_some x.event_risk_active)) "EVENT_RISK_UNKNOWN"
                        (IssuePath.field "context.event_risk_active")))))
