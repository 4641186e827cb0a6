-- ===== src/Validation/Quote.antt =====
-- `_validate_quote` of ingestion/validation.py.
use techo_quant_options_pro.Prelude.{
  ℕ, String, Bool, true, false, not, ◌||◌, Option, none, some, List, ◌++◌, ℤ, pos, ltb_ℤ, is_some,
  if◌then◌else◌,
}
use techo_quant_options_pro.Decimal.{less}
use techo_quant_options_pro.Float.{Float}
use techo_quant_options_pro.Text.{is_empty}
use techo_quant_options_pro.Domain.Enums.{DataSource, same_source}
use techo_quant_options_pro.Domain.Models.{OptionQuote, spread_ratio}
use techo_quant_options_pro.Strategy.Config.{StrategyConfig}
use techo_quant_options_pro.Validation.Issues.{
  ValidationIssue, IssuePath, error_if, warning_if, require_aware, is_positive,
}
use techo_quant_options_pro.Validation.State.{is_reversed, is_rate_up_to}

abbrev pub at_quote : ℕ → String → IssuePath
at_quote n name = IssuePath.item "option_chain" n name

abbrev is_wide : StrategyConfig → Option Float → Bool
is_wide c none = false
is_wide c (some r) = less c.maximum_spread_ratio r

-- Absent or negative.
abbrev is_missing_count : Option ℤ → Bool
is_missing_count none = true
is_missing_count (some n) = ltb_ℤ n (pos 0)

abbrev pub is_absent_text : Option String → Bool
is_absent_text none = true
is_absent_text (some s) = is_empty s

-- `0 < interval <= live_max_age_seconds`, finite.
abbrev is_bounded_interval : StrategyConfig → Option Float → Bool
is_bounded_interval c none = false
is_bounded_interval c (some x) = is_rate_up_to c.live_max_age_seconds x

unfoldable pub change_oi_issues :
    StrategyConfig → OptionQuote → DataSource → ℕ → Option ℤ → List ValidationIssue
change_oi_issues c q source n none =
    warning_if true "CHANGE_OI_BASELINE_REQUIRED" (at_quote n "change_open_interest")
    ++ error_if (is_some q.change_oi_source_snapshot_id || is_some q.change_oi_interval_seconds)
        "ORPHAN_CHANGE_OI_PROVENANCE" (at_quote n "change_oi_source_snapshot_id")
change_oi_issues c q source n (some change) =
    if not (same_source source DataSource.dhan_rest)
    then error_if true "INVALID_CHANGE_OI_SOURCE" (at_quote n "change_open_interest")
    else error_if
        (is_absent_text q.change_oi_source_snapshot_id
          || not (is_bounded_interval c q.change_oi_interval_seconds))
        "INVALID_CHANGE_OI_PROVENANCE" (at_quote n "change_oi_source_snapshot_id")

unfoldable pub validate_quote : StrategyConfig → OptionQuote → DataSource → ℕ → List ValidationIssue
unfolding spread_ratio
validate_quote c q source n =
    require_aware q.expiry (at_quote n "expiry")
    ++ (require_aware q.observed_at (at_quote n "observed_at")
        ++ (error_if (not (is_positive (some q.strike))) "INVALID_STRIKE" (at_quote n "strike")
            ++ (error_if (not (is_positive q.bid)) "QUOTE_FIELD_MISSING" (at_quote n "bid")
                ++ (error_if (not (is_positive q.ask)) "QUOTE_FIELD_MISSING" (at_quote n "ask")
                    ++ (error_if (not (is_positive q.ltp)) "QUOTE_FIELD_MISSING" (at_quote n "ltp")
                        ++ (error_if (is_reversed q.ask q.bid) "ASK_BELOW_BID" (at_quote n "ask")
                            ++ (warning_if (is_wide c (spread_ratio q)) "WIDE_SPREAD"
                                  (at_quote n "spread_ratio")
                                ++ (error_if (is_missing_count q.volume) "QUOTE_FIELD_MISSING"
                                      (at_quote n "volume")
                                    ++ (error_if (is_missing_count q.open_interest)
                                          "QUOTE_FIELD_MISSING" (at_quote n "open_interest")
                                        ++ (change_oi_issues c q source n q.change_open_interest
                                            ++ error_if (not (is_positive q.implied_volatility))
                                                "IV_UNAVAILABLE"
                                                (at_quote n "implied_volatility")))))))))))
