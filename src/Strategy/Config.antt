-- ===== src/Strategy/Config.antt =====
-- `ScoreWeights` and `StrategyConfig` of strategy/spec.py, with their `__post_init__` checks. An
-- optional mapping of seven named factors or weights is a record of them.
use techo_quant_options_pro.Prelude.{
  Bool, true, false, not, ◌&&◌, ◌||◌, String, List, [], ◌∷◌, any, ℤ, pos, negsuc, leb_ℤ,
}
use techo_quant_options_pro.Decimal.{finite, integer, is_finite, less, less_eq}
use techo_quant_options_pro.Float
use techo_quant_options_pro.Float.{Float, of_decimal, absolute, sum_of}
use techo_quant_options_pro.Execution.Errors.{ErrorKind}
use techo_quant_options_pro.Exec.{Result, raise_if, ◌then_check◌}
use techo_quant_options_pro.Domain.Enums.{TradingStyle}

-- A value for each of the seven evidence factors.
pub record Seven : Type 0 where
  pub trend : Float
  pub premium : Float
  pub open_interest : Float
  pub liquidity : Float
  pub greeks : Float
  pub volatility : Float
  pub risk_reward : Float

abbrev pub values : Seven → List Float
values s =
    s.trend ∷ s.premium ∷ s.open_interest ∷ s.liquidity ∷ s.greeks ∷ s.volatility ∷ s.risk_reward
    ∷ []

abbrev pub refuse : Bool → String → Result (Unit {0})
refuse test message = raise_if test ErrorKind.value_error message

abbrev pub nought : Float
nought = integer (pos 0)

abbrev is_negative : Float → Bool
is_negative x = less x nought

abbrev pub is_not_finite : Float → Bool
is_not_finite x = not (is_finite x)

-- `abs(sum(values) - 100.0) > 1e-9`
unfoldable pub validate_weights : Seven → Result (Unit {0})
validate_weights w =
    refuse (any is_not_finite (values w)) "score weights must be finite"
    then_check refuse (any is_negative (values w)) "score weights cannot be negative"
    then_check refuse
        (less (of_decimal (finite (pos 1) 9))
          (absolute (Float.sub (sum_of (values w)) (integer (pos 100)))))
        "score weights must sum to 100"

pub record StrategyConfig : Type 0 where
  pub version : String
  pub risk_free_rate : Float
  pub dividend_yield : Float
  pub maximum_risk_per_trade : Float
  pub intraday_delta_minimum : Float
  pub intraday_delta_maximum : Float
  pub positional_delta_minimum : Float
  pub positional_delta_maximum : Float
  pub minimum_volume : ℤ
  pub minimum_open_interest : ℤ
  pub maximum_spread_ratio : Float
  pub minimum_liquidity_score : Float
  pub watchlist_score : Float
  pub minimum_tradable_score : Float
  pub strong_setup_score : Float
  pub conflict_gap : Float
  pub live_max_age_seconds : Float
  pub component_skew_seconds : Float
  pub future_clock_skew_seconds : Float
  pub instrument_master_max_age_seconds : Float
  pub extreme_expiry_seconds : Float
  pub premium_stop_ratio : Float
  pub atr_stop_multiple : Float
  pub target_r_multiples : List Float
  pub event_risk_blocks_new_trades : Bool
  pub weights : Seven

abbrev pub delta_range : StrategyConfig → TradingStyle → Float × Float
delta_range c TradingStyle.positional = (c.positional_delta_minimum, c.positional_delta_maximum)
delta_range c TradingStyle.intraday = (c.intraday_delta_minimum, c.intraday_delta_maximum)

-- The float fields; an int field is finite.
abbrev numeric_fields : StrategyConfig → List Float
numeric_fields c =
    c.risk_free_rate ∷ c.dividend_yield ∷ c.maximum_risk_per_trade ∷ c.intraday_delta_minimum
    ∷ c.intraday_delta_maximum ∷ c.positional_delta_minimum ∷ c.positional_delta_maximum
    ∷ c.maximum_spread_ratio ∷ c.minimum_liquidity_score ∷ c.watchlist_score
    ∷ c.minimum_tradable_score ∷ c.strong_setup_score ∷ c.conflict_gap ∷ c.live_max_age_seconds
    ∷ c.component_skew_seconds ∷ c.future_clock_skew_seconds ∷ c.instrument_master_max_age_seconds
    ∷ c.extreme_expiry_seconds ∷ c.premium_stop_ratio ∷ c.atr_stop_multiple ∷ []

abbrev one : Float
one = integer (pos 1)

abbrev hundred : Float
hundred = integer (pos 100)

abbrev is_bad_rate : Float → Bool
is_bad_rate x = less_eq x nought || less one x

abbrev is_delta_range : Float → Float → Bool
is_delta_range minimum maximum =
    less nought minimum && less_eq minimum maximum && less_eq maximum one

abbrev not_positive : Float → Bool
not_positive x = less_eq x nought

-- Every neighbour is larger.
abbrev is_increasing : List Float → Bool
is_increasing [] = true
is_increasing (x ∷ []) = true
is_increasing (x ∷ y ∷ rest) = not (less_eq y x) && is_increasing (y ∷ rest)

abbrev is_empty_list : List Float → Bool
is_empty_list [] = true
is_empty_list (x ∷ xs) = false

-- The hard ceiling of 2% on the risk of a trade.
abbrev pub hard_maximum_risk : Float
hard_maximum_risk = of_decimal (finite (pos 2) 2)

abbrev is_ordered : StrategyConfig → Bool
is_ordered c =
    less_eq nought c.watchlist_score
    && less c.watchlist_score c.minimum_tradable_score
    && less_eq c.minimum_tradable_score c.strong_setup_score
    && less_eq c.strong_setup_score hundred

unfoldable pub validate_config : StrategyConfig → Result (Unit {0})
validate_config c =
    refuse (any is_not_finite (numeric_fields c)) "strategy configuration values must be finite"
    then_check refuse
        (not (less (integer (negsuc 0)) c.risk_free_rate && less_eq c.risk_free_rate one))
        "risk-free rate must be within (-1, 1]"
    then_check refuse (not (less_eq nought c.dividend_yield && less_eq c.dividend_yield one))
        "dividend yield must be within [0, 1]"
    then_check refuse (any is_not_finite c.target_r_multiples) "target R multiples must be finite"
    then_check refuse (is_bad_rate c.maximum_spread_ratio || is_bad_rate c.premium_stop_ratio)
        "configured rates must be within (0, 1]"
    then_check refuse
        (not (
          less nought c.maximum_risk_per_trade
          && less_eq c.maximum_risk_per_trade hard_maximum_risk))
        "maximum risk per trade cannot exceed the hard 2% ceiling"
    then_check refuse (not (is_ordered c)) "score thresholds must be ordered within 0..100"
    then_check refuse (is_negative c.conflict_gap) "conflict gap cannot be negative"
    then_check refuse (not (is_delta_range c.intraday_delta_minimum c.intraday_delta_maximum))
        "intraday delta range must satisfy 0 < minimum <= maximum <= 1"
    then_check refuse (not (is_delta_range c.positional_delta_minimum c.positional_delta_maximum))
        "positional delta range must satisfy 0 < minimum <= maximum <= 1"
    then_check refuse (leb_ℤ c.minimum_volume (pos 0) || leb_ℤ c.minimum_open_interest (pos 0))
        "minimum volume and open interest must be positive"
    then_check refuse
        (not
          (less_eq nought c.minimum_liquidity_score && less_eq c.minimum_liquidity_score hundred))
        "minimum liquidity score must be within 0..100"
    then_check refuse (not (less_eq nought c.conflict_gap && less_eq c.conflict_gap hundred))
        "conflict gap must be within 0..100"
    then_check refuse (not_positive c.live_max_age_seconds) "live maximum age must be positive"
    then_check refuse
        (is_negative c.component_skew_seconds || is_negative c.future_clock_skew_seconds)
        "clock-skew tolerances cannot be negative"
    then_check refuse (not_positive c.instrument_master_max_age_seconds)
        "instrument-master maximum age must be positive"
    then_check refuse (not_positive c.extreme_expiry_seconds)
        "extreme-expiry window must be positive"
    then_check refuse (not_positive c.atr_stop_multiple) "ATR stop multiple must be positive"
    then_check refuse (is_empty_list c.target_r_multiples || any not_positive c.target_r_multiples)
        "target R multiples must be positive"
    then_check refuse (not (is_increasing c.target_r_multiples))
        "target R multiples must be strictly increasing"
