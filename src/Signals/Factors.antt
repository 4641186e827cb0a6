-- ===== src/Signals/Factors.antt =====
-- `_factors`, its helpers and `_risk_distance` of signals/pipeline.py: the seven factors of the
-- evidence for one quote.
use techo_quant_options_pro.Prelude.{
  ℕ, suc, Bool, true, false, not, ◌&&◌, ◌||◌, Option, none, some, List, [], ◌∷◌, ◌++◌, pos, ℤ,
  ltb_ℤ, map, if◌then◌else◌,
}
use techo_quant_options_pro.Decimal.{Decimal, integer, is_finite, less, less_eq, maximum}
use techo_quant_options_pro.Float
use techo_quant_options_pro.Float.{
  Float, of_decimal, absolute, float_max, float_min, ratio, decimal_of_text,
}
use techo_quant_options_pro.Time.{DateTime}
use techo_quant_options_pro.Execution.Errors.{ErrorKind}
use techo_quant_options_pro.Exec.{Result, ok, raised}
use techo_quant_options_pro.Exec.Results.{◌>>=◌, ◌>>◌}
use techo_quant_options_pro.Domain.Enums.{OptionType}
use techo_quant_options_pro.Domain.Models.{AtomicSnapshot, OptionQuote, MarketState, same_bool}
use techo_quant_options_pro.Domain.Clock.{seconds_between}
use techo_quant_options_pro.Strategy.Config.{Seven, StrategyConfig, nought}
use techo_quant_options_pro.Signals.Policy.{EvidencePolicy, Environment}
use techo_quant_options_pro.Signals.Greeks.{greeks_factor}
use techo_quant_options_pro.Signals.Decimals.{compared, difference, product, quotient, over, times}
use techo_quant_options_pro.Signals.Evidence.{
  one, clamp, decimals, above_zero, Evidence, evidence_of,
}

abbrev pub is_call : OptionType → Bool
is_call OptionType.call = true
is_call OptionType.put = false

abbrev directed : Bool → Bool → Bool
directed bullish test = if bullish then test else not test

abbrev is_between : Float → Float → Float → Bool
is_between low x high = less_eq low x && less_eq x high

abbrev rsi_supports : Bool → Option Float → Bool
rsi_supports bullish none = false
rsi_supports bullish (some rsi) =
    if bullish
    then is_between (integer (pos 50)) rsi (integer (pos 75))
    else is_between (integer (pos 25)) rsi (integer (pos 50))

abbrev supports : Bool → Option Decimal → Option Decimal → Bool
supports bullish (some spot) (some futures) =
    if bullish then less_eq spot futures else less_eq futures spot
supports bullish _ _ = true

abbrev futures_support : Bool → MarketState → Bool
futures_support bullish m = supports bullish m.spot_price m.futures_price

-- `Decimal` tests of a spot and a futures price that are both there.
abbrev both_compared : Option Decimal → Option Decimal → Result (Unit {0})
both_compared (some spot) (some futures) = compared (spot ∷ futures ∷ [])
both_compared _ _ = ok tt

-- `sum` of the Booleans.
abbrev count_true : List Bool → ℕ
count_true [] = 0
count_true (b ∷ bs) = let rest = count_true bs in if b then suc rest else rest

unfoldable pub trend_factor : AtomicSnapshot → Evidence → Bool → Float
trend_factor s e bullish = clamp (
    ratio
      (count_true (
        map (directed bullish) (
          less e.ema_9 e.underlying
          ∷ less e.ema_21 e.ema_9
          ∷ less e.wma_44 e.ema_21
          ∷ less e.previous_wma_44 e.wma_44
          ∷ [])
        ++ (rsi_supports bullish s.technicals.rsi_14 ∷ futures_support bullish s.market ∷ [])))
      6)

-- The order tests of the trend: each is made, whichever way the others go.
unfoldable pub comparable : AtomicSnapshot → Evidence → Result (Unit {0})
comparable s e =
    compared (e.underlying ∷ e.ema_9 ∷ e.ema_21 ∷ e.wma_44 ∷ e.previous_wma_44 ∷ [])
    >> both_compared s.market.spot_price s.market.futures_price

unfoldable pub momentum : Evidence → Result Float
momentum e = do
  rise ← difference e.ltp e.previous_ltp
  relative ← quotient rise e.previous_ltp
  ok (of_decimal relative)

unfoldable pub premium_factor : EvidencePolicy → Float → Float
premium_factor p rise =
    let shift = over rise (Float.mul (integer (pos 2)) p.premium_momentum_saturation) in
    clamp (if is_finite shift then Float.add (decimals 5 1) shift else shift)

unfoldable pub open_interest_factor : Float → ℤ → Float
open_interest_factor rise change =
    let rising = less nought rise in
    let building = ltb_ℤ (pos 0) change in
    if rising && building
    then one
    else if rising
    then decimals 70 2
    else if building
    then decimals 25 2
    else nought

abbrev is_rate : Float → Bool
is_rate x = is_finite x && less nought x

unfoldable pub volatility_factor : Environment → EvidencePolicy → Float → Float → Float
volatility_factor env p iv reference =
    let r = Float.divide iv reference in
    let scale =
      float_max (absolute (env.log p.volatility_ratio_floor))
        (absolute (env.log p.volatility_ratio_ceiling)) in
    if not (is_rate iv) || not (is_rate reference)
    then nought
    else if less r p.volatility_ratio_floor
    then clamp (Float.divide r p.volatility_ratio_floor)
    else if less p.volatility_ratio_ceiling r
    then clamp (Float.divide p.volatility_ratio_ceiling r)
    else clamp (Float.sub one (Float.divide (absolute (env.log r)) scale))

-- `min` of two decimals.
abbrev minimum : Decimal → Decimal → Decimal
minimum a b = if less b a then b else a

abbrev stop_distance : StrategyConfig → AtomicSnapshot → Decimal → Float → Decimal → Result Decimal
stop_distance c s ask delta atr = do
  premium_distance ← product ask (decimal_of_text c.premium_stop_ratio)
  delta_distance ← product atr (decimal_of_text (absolute delta))
  atr_distance ← product delta_distance (decimal_of_text c.atr_stop_multiple)
  compared (premium_distance ∷ atr_distance ∷ [])
  compared (s.contract.tick_size ∷ [])
  ok (maximum s.contract.tick_size (minimum premium_distance atr_distance))

-- The value where it is above 0; NaN raises.
abbrev positive : Option Decimal → Result (Option Decimal)
positive none = ok none
positive (some x) = compared (x ∷ []) >> ok (above_zero (some x))

abbrev distance_over :
    StrategyConfig → AtomicSnapshot → Decimal → Float → Option Decimal → Result (Option Decimal)
distance_over c s ask delta none = ok none
distance_over c s ask delta (some atr) = stop_distance c s ask delta atr >>= λ d. ok (some d)

abbrev distance_from :
    StrategyConfig → AtomicSnapshot → Option Decimal → Option Float → Result (Option Decimal)
distance_from c s (some ask) (some delta) =
    positive s.technicals.atr_14 >>= distance_over c s ask delta
distance_from c s _ _ = ok none

unfoldable pub risk_distance :
    StrategyConfig → AtomicSnapshot → OptionQuote → Result (Option Decimal)
risk_distance c s q = positive q.ask >>= λ ask. distance_from c s ask q.greeks.delta

-- `(a - b).total_seconds()`: a naive and an aware time have no difference.
abbrev pub seconds_of : DateTime → DateTime → Result Float
seconds_of a b =
    if same_bool a.aware b.aware
    then ok (seconds_between a b)
    else raised ErrorKind.type_error "can't subtract offset-naive and offset-aware datetimes"

abbrev pub expected_move : Environment → Evidence → Float → Result Decimal
expected_move env e seconds =
    let years = float_max nought (Float.divide seconds (integer (pos 31536000))) in
    if less nought years
    then product e.underlying (decimal_of_text (times e.reference_volatility (env.sqrt years)))
    else ok (integer (pos 0))

abbrev pub reward_over : EvidencePolicy → Decimal → Option Decimal → Result Float
reward_over p move none = ok nought
reward_over p move (some distance) =
    if less (integer (pos 0)) distance
    then (do
      reward ← quotient move distance
      ok (clamp (over (of_decimal reward) p.reward_risk_full_score)))
    else ok nought

unfoldable pub reward_factor :
    Environment → EvidencePolicy → Evidence → Option Decimal → Float → Result Float
reward_factor env p e distance seconds = do
  move ← expected_move env e seconds
  premium_move ← product move (decimal_of_text (absolute e.delta))
  reward_over p premium_move distance

abbrev pub with_change :
    Environment
    → StrategyConfig
    → EvidencePolicy
    → AtomicSnapshot
    → OptionQuote
    → Float
    → Evidence
    → Float
    → Option ℤ
    → Result (Option Seven)
with_change env c p s q liquidity e rise none = ok none
with_change env c p s q liquidity e rise (some change) = do
  greeks ← greeks_factor c p s q e
  distance ← risk_distance c s q
  seconds ← seconds_of s.contract.option_expiry s.source_timestamp
  reward ← reward_factor env p e distance seconds
  ok (
      some (record {
        trend = trend_factor s e (is_call q.option_type);
        premium = premium_factor p rise;
        open_interest = open_interest_factor rise change;
        liquidity = clamp (Float.divide liquidity (integer (pos 100)));
        greeks = greeks;
        volatility = volatility_factor env p e.implied_volatility e.reference_volatility;
        risk_reward = reward;
      }))

abbrev pub factors_of :
    Environment
    → StrategyConfig
    → EvidencePolicy
    → AtomicSnapshot
    → OptionQuote
    → Float
    → Option Evidence
    → Result (Option Seven)
factors_of env c p s q liquidity none = ok none
factors_of env c p s q liquidity (some e) = do
  comparable s e
  rise ← momentum e
  with_change env c p s q liquidity e rise e.change_open_interest

-- `_factors`
unfoldable pub factors :
    Environment
    → StrategyConfig
    → EvidencePolicy
    → AtomicSnapshot
    → OptionQuote
    → Option OptionQuote
    → Float
    → Result (Option Seven)
factors env c p s q previous liquidity =
    evidence_of s q previous >>= factors_of env c p s q liquidity
