-- ===== src/Strategy/Tests.antt =====
-- The strategy's rules at concrete inputs.
use techo_quant_options_pro.Prelude.{true, false, some, ◌≡◌, refl, ◌*ℤ◌, ◌-ℤ◌, pos, ◌↔◌}
use techo_quant_options_pro.Decimal.{integer, less, less_eq, is_finite}
use techo_quant_options_pro.Float
use techo_quant_options_pro.Float.{of_decimal, round_ratio, absolute, sum_of}
use techo_quant_options_pro.Exec.{ok}
use techo_quant_options_pro.Domain.Enums.{DecisionState, DecisionReason, OperatingMode, ScoreBand}
use techo_quant_options_pro.Strategy.Config.{validate_config, validate_weights}
use techo_quant_options_pro.Strategy.Default.{default_config, default_weights}
use techo_quant_options_pro.Strategy.Scores.{score_band}
use techo_quant_options_pro.Strategy.Decision.{
  DecisionInputs, DecisionOutcome, score_gap_of, decide, resolve_decision,
}
use techo_quant_options_pro.Strategy.Decision.Gates.{IsTradable, resolve_decision_iff}

-- The defaults pass their own checks.
default_weights_pass : validate_weights default_weights ≡ ok tt
unfolding validate_weights ◌*ℤ◌ ◌-ℤ◌ less less_eq is_finite of_decimal round_ratio absolute
    Float.sub Float.add
default_weights_pass = refl

default_config_pass : validate_config default_config ≡ ok tt
unfolding validate_config ◌*ℤ◌ ◌-ℤ◌ less less_eq is_finite of_decimal round_ratio absolute Float.sub
    Float.add
default_config_pass = refl

abbrev bullish : DecisionInputs
bullish = record {
  data_complete = true;
  data_stale = false;
  expiry_valid = true;
  extreme_expiry_risk = false;
  event_risk_active = some false;
  liquid_strike_available = true;
  affordable = true;
  call_score = integer (pos 80);
  put_score = integer (pos 60);
  price_action_confirmed = some true;
  operating_mode = OperatingMode.pro;
}

abbrev bought : DecisionOutcome
bought = record {
  state = DecisionState.buy_call;
  reason = DecisionReason.bullish_confirmed;
  call_band = ScoreBand.tradable;
  put_band = ScoreBand.rejected;
  leading_score = integer (pos 80);
  score_gap = score_gap_of bullish;
}

bullish_call : resolve_decision bullish default_config ≡ ok bought
unfolding resolve_decision decide score_band ◌*ℤ◌ ◌-ℤ◌ less less_eq of_decimal round_ratio absolute
    Float.sub
bullish_call = refl

resolve_decision_iff_example :
    ((bought.state ≡ DecisionState.buy_call)
      ↔ (IsTradable bullish default_config × (less bullish.put_score bullish.call_score ≡ true)))
    × ((bought.state ≡ DecisionState.buy_put)
        ↔ (IsTradable bullish default_config × (less bullish.put_score bullish.call_score ≡ false)))
resolve_decision_iff_example = resolve_decision_iff bullish default_config bought bullish_call
