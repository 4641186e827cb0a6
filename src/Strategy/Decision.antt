-- ===== src/Strategy/Decision.antt =====
-- `resolve_decision` and the price helpers of strategy/spec.py.
pub mod Gates
use techo_quant_options_pro.Prelude.{
  Bool, true, false, not, ◌&&◌, ◌||◌, String, Option, none, some, List, [], ◌∷◌, pos, if◌then◌else◌,
}
use techo_quant_options_pro.Decimal
use techo_quant_options_pro.Decimal.{Decimal, integer, less, less_eq}
use techo_quant_options_pro.Float
use techo_quant_options_pro.Float.{Float, absolute, float_max}
use techo_quant_options_pro.Execution.Errors.{ErrorKind}
use techo_quant_options_pro.Exec.{Result, ok, raised, raise_if}
use techo_quant_options_pro.Domain.Enums.{
  DecisionState, DecisionReason, OperatingMode, OptionType, ScoreBand,
}
use techo_quant_options_pro.Strategy.Config.{StrategyConfig, nought}
use techo_quant_options_pro.Strategy.Scores.{score_band}

pub record DecisionInputs : Type 0 where
  pub data_complete : Bool
  pub data_stale : Bool
  pub expiry_valid : Bool
  pub extreme_expiry_risk : Bool
  pub event_risk_active : Option Bool
  pub liquid_strike_available : Bool
  pub affordable : Bool
  pub call_score : Float
  pub put_score : Float
  pub price_action_confirmed : Option Bool
  pub operating_mode : OperatingMode

pub record DecisionOutcome : Type 0 where
  pub state : DecisionState
  pub reason : DecisionReason
  pub call_band : ScoreBand
  pub put_band : ScoreBand
  pub leading_score : Float
  pub score_gap : Float

abbrev pub is_score : Float → Bool
is_score x = less_eq nought x && less_eq x (integer (pos 100))

abbrev pub score_gap_of : DecisionInputs → Float
score_gap_of i = absolute (Float.sub i.call_score i.put_score)

abbrev pub leading_of : DecisionInputs → Float
leading_of i = float_max i.call_score i.put_score

abbrev pub is_known_clear : Option Bool → Bool
is_known_clear (some false) = true
is_known_clear _ = false

abbrev pub is_confirmed : Option Bool → Bool
is_confirmed (some true) = true
is_confirmed _ = false

abbrev pub is_quick : OperatingMode → Bool
is_quick OperatingMode.quick = true
is_quick OperatingMode.pro = false

-- The chain of early returns, as the state and the reason.
unfoldable pub decide : DecisionInputs → StrategyConfig → DecisionState × DecisionReason
decide i c =
    if not i.data_complete
    then (DecisionState.insufficient_data, DecisionReason.data_incomplete)
    else if i.data_stale
    then (DecisionState.no_trade, DecisionReason.data_stale)
    else if not i.expiry_valid
    then (DecisionState.no_trade, DecisionReason.invalid_expiry)
    else if i.extreme_expiry_risk
    then (DecisionState.no_trade, DecisionReason.extreme_expiry_risk)
    else if not (is_known_clear i.event_risk_active) && c.event_risk_blocks_new_trades
    then (DecisionState.no_trade, DecisionReason.event_risk)
    else if not i.liquid_strike_available
    then (DecisionState.no_trade, DecisionReason.no_liquid_strike)
    else if not i.affordable
    then (DecisionState.no_trade, DecisionReason.not_affordable)
    else if less (leading_of i) c.watchlist_score
    then (DecisionState.no_trade, DecisionReason.below_watchlist_score)
    else if less (leading_of i) c.minimum_tradable_score
    then (DecisionState.wait, DecisionReason.watchlist_only)
    else if less (score_gap_of i) c.conflict_gap
    then (DecisionState.wait, DecisionReason.conflicting_scores)
    else if is_quick i.operating_mode
    then (DecisionState.wait, DecisionReason.quick_mode_only)
    else if not (is_confirmed i.price_action_confirmed)
    then (DecisionState.wait, DecisionReason.price_action_pending)
    else if less i.put_score i.call_score
    then (DecisionState.buy_call, DecisionReason.bullish_confirmed)
    else (DecisionState.buy_put, DecisionReason.bearish_confirmed)

unfoldable pub resolve_decision : DecisionInputs → StrategyConfig → Result DecisionOutcome
unfolding score_band
resolve_decision i c =
    if not (is_score i.call_score) || not (is_score i.put_score)
    then raised ErrorKind.value_error "call and put scores must be within 0..100"
    else ok (record {
      state = (decide i c).0;
      reason = (decide i c).1;
      call_band = score_band i.call_score c;
      put_band = score_band i.put_score c;
      leading_score = leading_of i;
      score_gap = score_gap_of i;
    })

abbrev not_positive : Decimal → Bool
not_positive value = less_eq value (integer (pos 0))

abbrev breaks_out : OptionType → Decimal → Decimal → Decimal → Bool
breaks_out OptionType.call price high low = less high price
breaks_out OptionType.put price high low = less price low

unfoldable pub confirm_price_action : OptionType → Decimal → Decimal → Decimal → Result Bool
confirm_price_action option_type price high low =
    if not_positive price || not_positive high || not_positive low
    then raised ErrorKind.value_error "price-action inputs must be positive"
    else if less high low
    then raised ErrorKind.value_error "signal-candle high cannot be below its low"
    else ok (breaks_out option_type price high low)

-- `abs` of a decimal difference.
abbrev pub distance : Decimal → Decimal → Decimal
distance a b = absolute (Decimal.sub a b)

abbrev pub is_closer : Decimal → Decimal → Decimal → Bool
is_closer underlying a b =
    less (distance a underlying) (distance b underlying)
    || (less_eq (distance a underlying) (distance b underlying) && less a b)

-- `min` over (distance, strike): what is nearest, and the lower of two that are equally near.
unfoldable pub nearest_from : Decimal → Decimal → List Decimal → Decimal
nearest_from underlying best [] = best
nearest_from underlying best (s ∷ strikes) =
    nearest_from underlying (if is_closer underlying s best then s else best) strikes

unfoldable pub nearest_atm : Decimal → List Decimal → Result Decimal
unfolding nearest_from
nearest_atm underlying [] =
    raised ErrorKind.value_error "underlying and at least one listed strike are required"
nearest_atm underlying (s ∷ strikes) =
    if not_positive underlying
    then raised ErrorKind.value_error "underlying and at least one listed strike are required"
    else ok (nearest_from underlying s strikes)

unfoldable pub midpoint : Decimal → Decimal → Result Decimal
midpoint bid ask =
    if not_positive bid || not_positive ask || less ask bid
    then raised ErrorKind.value_error "a midpoint requires positive bid <= ask"
    else ok (Decimal.divide (Decimal.add bid ask) (integer (pos 2)))

unfoldable pub atm_straddle : Decimal → Decimal → Result Decimal
atm_straddle call_ltp put_ltp =
    if not_positive call_ltp || not_positive put_ltp
    then raised ErrorKind.value_error "ATM LTP values must be positive"
    else ok (Decimal.add call_ltp put_ltp)

unfoldable pub executable_straddle : Decimal → Decimal → Result Decimal
executable_straddle call_ask put_ask =
    if not_positive call_ask || not_positive put_ask
    then raised ErrorKind.value_error "ATM ask values must be positive"
    else ok (Decimal.add call_ask put_ask)

unfoldable pub expected_bounds : Decimal → Decimal → Result (Decimal × Decimal)
expected_bounds underlying move =
    if not_positive underlying || less move (integer (pos 0))
    then raised ErrorKind.value_error "underlying must be positive and expected move non-negative"
    else ok (Decimal.sub underlying move, Decimal.add underlying move)

unfoldable pub synthetic_futures : Decimal → Decimal → Decimal → Result Decimal
synthetic_futures strike call_price put_price =
    if not_positive strike || not_positive call_price || not_positive put_price
    then raised ErrorKind.value_error "synthetic-futures inputs must be positive"
    else ok (Decimal.sub (Decimal.add strike call_price) put_price)
