-- ===== src/Strategy/Scores.antt =====
-- The scores of strategy/spec.py: bands, the weighted score, and the liquidity of a quote.
use techo_quant_options_pro.Prelude.{
  Bool, true, false, not, ◌&&◌, ◌||◌, String, Option, none, some, List, [], ◌∷◌, ◌++◌, any, ℤ, pos,
  pos_part, ltb_ℤ, if◌then◌else◌,
}
use techo_quant_options_pro.Decimal
use techo_quant_options_pro.Decimal.{Decimal, integer, less, less_eq}
use techo_quant_options_pro.Float
use techo_quant_options_pro.Float.{Float, of_decimal, ratio, float_max, float_min, sum_of}
use techo_quant_options_pro.Execution.Errors.{ErrorKind}
use techo_quant_options_pro.Exec.{Result, ok, raised}
use techo_quant_options_pro.Domain.Enums.{ScoreBand}
use techo_quant_options_pro.Strategy.Config.{Seven, values, StrategyConfig, nought}

unfoldable pub score_band : Float → StrategyConfig → ScoreBand
score_band score c =
    if less_eq c.strong_setup_score score
    then ScoreBand.strong
    else if less_eq c.minimum_tradable_score score
    then ScoreBand.tradable
    else if less_eq c.watchlist_score score
    then ScoreBand.watchlist
    else ScoreBand.rejected

pub record ScoreResult : Type 0 where
  pub total : Float
  pub points : Seven
  pub band : ScoreBand

abbrev pub out_of_range : Float → Bool
out_of_range factor = not (less_eq nought factor && less_eq factor (integer (pos 1)))

abbrev weigh : Seven → Seven → Seven
weigh f w = record {
  trend = Float.mul f.trend w.trend;
  premium = Float.mul f.premium w.premium;
  open_interest = Float.mul f.open_interest w.open_interest;
  liquidity = Float.mul f.liquidity w.liquidity;
  greeks = Float.mul f.greeks w.greeks;
  volatility = Float.mul f.volatility w.volatility;
  risk_reward = Float.mul f.risk_reward w.risk_reward;
}

-- `min(100.0, max(0.0, value))`
abbrev pub within_hundred : Float → Float
within_hundred value = float_min (integer (pos 100)) (float_max nought value)

unfoldable pub weighted_score : Seven → StrategyConfig → Result ScoreResult
unfolding score_band
weighted_score factors c =
    let points = weigh factors c.weights in
    let total = within_hundred (sum_of (values points)) in
    if any out_of_range (values factors)
    then raised ErrorKind.value_error "score factor must be within 0..1"
    else ok (record { total = total; points = points; band = score_band total c })

pub record LiquidityResult : Type 0 where
  pub score : Float
  pub eligible : Bool
  pub rejection_reasons : List String

abbrev not_positive : Decimal → Bool
not_positive value = less_eq value (integer (pos 0))

abbrev pub when : Bool → String → List String
when true reason = reason ∷ []
when false reason = []

abbrev market_reasons : Option Decimal → Option Decimal → List String
market_reasons (some bid) (some ask) =
    if not_positive bid || not_positive ask
    then "MISSING_OR_NON_POSITIVE_MARKET" ∷ []
    else when (less ask bid) "ASK_BELOW_BID"
market_reasons _ _ = "MISSING_OR_NON_POSITIVE_MARKET" ∷ []

-- A spread below 0 counts as the whole price.
abbrev usable_ratio : Float → Float
usable_ratio r = if less r nought then integer (pos 1) else r

-- The ratio, and whether it was computed.
abbrev liquidity_spread : Option Decimal → Option Decimal → Option Float
liquidity_spread (some bid) (some ask) =
    if less (integer (pos 0)) ask
    then some (usable_ratio (of_decimal (Decimal.divide (Decimal.sub ask bid) ask)))
    else none
liquidity_spread _ _ = none

abbrev spread_reasons : StrategyConfig → Option Float → List String
spread_reasons c none = []
spread_reasons c (some r) = when (less c.maximum_spread_ratio r) "WIDE_SPREAD"

abbrev spread_or_one : Option Float → Float
spread_or_one none = integer (pos 1)
spread_or_one (some r) = r

abbrev is_low : Option ℤ → ℤ → Bool
is_low none minimum = true
is_low (some n) minimum = ltb_ℤ n minimum

-- `25.0 * min(1.0, max(0, n or 0) / minimum)`; the minimum is positive.
abbrev depth_points : Option ℤ → ℤ → Float
depth_points none minimum = nought
depth_points (some n) minimum =
    Float.mul (integer (pos 25))
      (float_min (integer (pos 1)) (ratio (pos_part n) (pos_part minimum)))

abbrev hard_reasons :
    Option Decimal → Option Decimal → Option ℤ → Option ℤ → StrategyConfig → List String
hard_reasons bid ask volume open_interest c =
    market_reasons bid ask
    ++ (spread_reasons c (liquidity_spread bid ask)
        ++ (when (is_low volume c.minimum_volume) "LOW_VOLUME"
            ++ when (is_low open_interest c.minimum_open_interest) "LOW_OPEN_INTEREST"))

unfoldable pub liquidity_points :
    Option Decimal → Option Decimal → Option ℤ → Option ℤ → StrategyConfig → Float
liquidity_points bid ask volume open_interest c =
    let spread = spread_or_one (liquidity_spread bid ask) in
    let spread_points = Float.mul (integer (pos 50)) (
      float_max nought
        (Float.sub (integer (pos 1)) (Float.divide spread c.maximum_spread_ratio))) in
    let total =
      Float.add (Float.add spread_points (depth_points volume c.minimum_volume))
        (depth_points open_interest c.minimum_open_interest) in
    float_max nought (float_min (integer (pos 100)) total)

abbrev liquidity_verdict : List String → Float → StrategyConfig → LiquidityResult
liquidity_verdict [] score c =
    if less_eq c.minimum_liquidity_score score
    then record { score = score; eligible = true; rejection_reasons = [] }
    else record {
      score = score;
      eligible = false;
      rejection_reasons = "LIQUIDITY_SCORE_BELOW_MINIMUM" ∷ [];
    }
liquidity_verdict (r ∷ rs) score c = record {
  score = score;
  eligible = false;
  rejection_reasons = r ∷ rs;
}

unfoldable pub liquidity_score :
    Option Decimal → Option Decimal → Option ℤ → Option ℤ → StrategyConfig → LiquidityResult
liquidity_score bid ask volume open_interest c =
    liquidity_verdict (hard_reasons bid ask volume open_interest c)
      (liquidity_points bid ask volume open_interest c) c
