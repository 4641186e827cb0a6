-- ===== src/Signals/Tests.antt =====
-- The pipeline on the concrete legs, and the theorems at them.
use techo_quant_options_pro.Prelude.{
  Bool, true, false, ◌≡◌, refl, arith, ◌+ℤ◌, ◌-ℤ◌, ◌*ℤ◌, pos, Option, none, some, All,
}
use techo_quant_options_pro.Prelude.Options
use techo_quant_options_pro.Decimal
use techo_quant_options_pro.Decimal.{integer, is_finite, less, less_eq, negate, maximum, floor}
use techo_quant_options_pro.Float
use techo_quant_options_pro.Float.{of_decimal, round_ratio, absolute, decimal_of_text}
use techo_quant_options_pro.Domain.Clock.{seconds_between}
use techo_quant_options_pro.Domain.Models.{OptionQuote}
use techo_quant_options_pro.Domain.Enums.{DecisionState, OptionType}
use techo_quant_options_pro.Exec.{Result, ok, raised}
use techo_quant_options_pro.Exec.Results.{◌>>=◌, ◌>>◌}
use techo_quant_options_pro.Strategy.Scores.{
  ScoreResult, score_band, weighted_score, liquidity_score, liquidity_points,
}
use techo_quant_options_pro.Strategy.Decision.{
  is_score, confirm_price_action, decide, resolve_decision,
}
use techo_quant_options_pro.Strategy.Sizing.{check_request, size_of, calculate_position_size}
use techo_quant_options_pro.Strategy.Config.{Seven, values, nought}
use techo_quant_options_pro.Signals.Models.{SignalPipelineResult}
use techo_quant_options_pro.Signals.Bounds.{factors-IsScored}
use techo_quant_options_pro.Signals.Decimals.{compared, difference, product, quotient}
use techo_quant_options_pro.Signals.Evidence.{evidence_of}
use techo_quant_options_pro.Signals.Greeks.{theoretical_fit, theta_drag, theta_fit, greeks_factor}
use techo_quant_options_pro.Signals.Factors.{
  trend_factor, premium_factor, open_interest_factor, volatility_factor, risk_distance,
  reward_factor, factors, comparable, momentum,
}
use techo_quant_options_pro.Signals.Candidates.{
  reasons_of, score_candidate, key_before, rank, best_from,
}
use techo_quant_options_pro.Signals.Plans.{ceiling, round_up, round_down, draft_of, draft_plan}
use techo_quant_options_pro.Signals.Pipeline.{
  require_bound_report, previous_quotes, price_confirmed, drafted, decision_inputs, conclude,
  evaluate,
}
use techo_quant_options_pro.Signals.Sound.Buys.{IsBacked, evaluate_call, evaluate_put}
use techo_quant_options_pro.Signals.Fixtures.{
  pipeline, traded, call_leg, clean_report, falling, call_rose, put_rose, answer_of, answer_of-ok,
}
use techo_quant_options_pro.Validation.Fixtures.{second}

abbrev call_result : SignalPipelineResult
call_result =
    answer_of (evaluate pipeline traded clean_report (some call_rose) none (second 100001))

call_answer :
    evaluate pipeline traded clean_report (some call_rose) none (second 100001) ≡ ok call_result
unfolding ◌+ℤ◌ ◌-ℤ◌ ◌*ℤ◌ ◌>>=◌ Options.◌>>=◌ ◌>>◌ is_finite less less_eq negate maximum floor
    Decimal.add Decimal.sub Decimal.mul Decimal.divide of_decimal round_ratio absolute
    decimal_of_text Float.add Float.sub Float.mul Float.divide seconds_between score_band
    weighted_score liquidity_score liquidity_points confirm_price_action decide resolve_decision
    check_request size_of calculate_position_size evidence_of trend_factor premium_factor compared
    difference product quotient comparable momentum open_interest_factor theoretical_fit theta_drag
    theta_fit greeks_factor volatility_factor risk_distance reward_factor factors reasons_of
    score_candidate key_before rank best_from ceiling round_up round_down draft_of draft_plan
    require_bound_report previous_quotes price_confirmed drafted decision_inputs conclude evaluate
call_answer =
    answer_of-ok (evaluate pipeline traded clean_report (some call_rose) none (second 100001)) refl

call_bought : call_result.decision ≡ DecisionState.buy_call
unfolding ◌+ℤ◌ ◌-ℤ◌ ◌*ℤ◌ ◌>>=◌ Options.◌>>=◌ ◌>>◌ is_finite less less_eq negate maximum floor
    Decimal.add Decimal.sub Decimal.mul Decimal.divide of_decimal round_ratio absolute
    decimal_of_text Float.add Float.sub Float.mul Float.divide seconds_between score_band
    weighted_score liquidity_score liquidity_points confirm_price_action decide resolve_decision
    check_request size_of calculate_position_size evidence_of trend_factor premium_factor compared
    difference product quotient comparable momentum open_interest_factor theoretical_fit theta_drag
    theta_fit greeks_factor volatility_factor risk_distance reward_factor factors reasons_of
    score_candidate key_before rank best_from ceiling round_up round_down draft_of draft_plan
    require_bound_report previous_quotes price_confirmed drafted decision_inputs conclude evaluate
call_bought = refl

evaluate_call_example : IsBacked traded clean_report call_result OptionType.call
evaluate_call_example =
    evaluate_call pipeline traded clean_report (some call_rose) none (second 100001) call_result
      call_answer call_bought

abbrev call_before : OptionQuote
call_before = record call_leg { ltp = some (integer (pos 9)) }

abbrev no_factors : Seven
no_factors = record {
  trend = nought;
  premium = nought;
  open_interest = nought;
  liquidity = nought;
  greeks = nought;
  volatility = nought;
  risk_reward = nought;
}

abbrev seven_of : Result (Option Seven) → Seven
seven_of (ok (some f)) = f
seven_of _ = no_factors

abbrev has_seven : Result (Option Seven) → Bool
has_seven (ok (some f)) = true
has_seven _ = false

seven_of-ok : (m : Result (Option Seven)) → has_seven m ≡ true → m ≡ ok (some (seven_of m))
seven_of-ok (ok (some f)) h = refl
seven_of-ok (ok none) h = ground arith
seven_of-ok (raised kind message) h = ground arith

abbrev first_factors : Result (Option Seven)
first_factors =
    factors pipeline.environment pipeline.strategy pipeline.evidence traded call_leg
      (some call_before) (integer (pos 80))

found_factors : first_factors ≡ ok (some (seven_of first_factors))
unfolding ◌+ℤ◌ ◌-ℤ◌ ◌*ℤ◌ ◌>>=◌ Options.◌>>=◌ ◌>>◌ is_finite less less_eq negate maximum floor
    Decimal.add Decimal.sub Decimal.mul Decimal.divide of_decimal round_ratio absolute
    decimal_of_text Float.add Float.sub Float.mul Float.divide seconds_between score_band
    weighted_score liquidity_score liquidity_points confirm_price_action decide resolve_decision
    check_request size_of calculate_position_size evidence_of trend_factor premium_factor compared
    difference product quotient comparable momentum open_interest_factor theoretical_fit theta_drag
    theta_fit greeks_factor volatility_factor risk_distance reward_factor factors reasons_of
    score_candidate key_before rank best_from ceiling round_up round_down draft_of draft_plan
    require_bound_report previous_quotes price_confirmed drafted decision_inputs conclude evaluate
found_factors = seven_of-ok first_factors refl

factors-IsScored_example :
    All
      (λ x. (less_eq nought x ≡ true) × (less_eq x (integer (pos 1)) ≡ true))
      (values (seven_of first_factors))
    × ((r : ScoreResult) × (weighted_score (seven_of first_factors) pipeline.strategy ≡ ok r)
        × (is_score r.total ≡ true))
factors-IsScored_example =
    factors-IsScored pipeline.environment pipeline.strategy pipeline.evidence traded call_leg
      (some call_before) (integer (pos 80)) (seven_of first_factors) found_factors

abbrev put_result : SignalPipelineResult
put_result = answer_of (evaluate pipeline falling clean_report (some put_rose) none (second 100001))

put_answer :
    evaluate pipeline falling clean_report (some put_rose) none (second 100001) ≡ ok put_result
unfolding ◌+ℤ◌ ◌-ℤ◌ ◌*ℤ◌ ◌>>=◌ Options.◌>>=◌ ◌>>◌ is_finite less less_eq negate maximum floor
    Decimal.add Decimal.sub Decimal.mul Decimal.divide of_decimal round_ratio absolute
    decimal_of_text Float.add Float.sub Float.mul Float.divide seconds_between score_band
    weighted_score liquidity_score liquidity_points confirm_price_action decide resolve_decision
    check_request size_of calculate_position_size evidence_of trend_factor premium_factor compared
    difference product quotient comparable momentum open_interest_factor theoretical_fit theta_drag
    theta_fit greeks_factor volatility_factor risk_distance reward_factor factors reasons_of
    score_candidate key_before rank best_from ceiling round_up round_down draft_of draft_plan
    require_bound_report previous_quotes price_confirmed drafted decision_inputs conclude evaluate
put_answer =
    answer_of-ok (evaluate pipeline falling clean_report (some put_rose) none (second 100001)) refl

put_bought : put_result.decision ≡ DecisionState.buy_put
unfolding ◌+ℤ◌ ◌-ℤ◌ ◌*ℤ◌ ◌>>=◌ Options.◌>>=◌ ◌>>◌ is_finite less less_eq negate maximum floor
    Decimal.add Decimal.sub Decimal.mul Decimal.divide of_decimal round_ratio absolute
    decimal_of_text Float.add Float.sub Float.mul Float.divide seconds_between score_band
    weighted_score liquidity_score liquidity_points confirm_price_action decide resolve_decision
    check_request size_of calculate_position_size evidence_of trend_factor premium_factor compared
    difference product quotient comparable momentum open_interest_factor theoretical_fit theta_drag
    theta_fit greeks_factor volatility_factor risk_distance reward_factor factors reasons_of
    score_candidate key_before rank best_from ceiling round_up round_down draft_of draft_plan
    require_bound_report previous_quotes price_confirmed drafted decision_inputs conclude evaluate
put_bought = refl

positive_gap : less nought pipeline.strategy.conflict_gap ≡ true
unfolding less ◌*ℤ◌
positive_gap = refl

evaluate_put_example : IsBacked falling clean_report put_result OptionType.put
evaluate_put_example =
    evaluate_put pipeline falling clean_report (some put_rose) none (second 100001) put_result
      positive_gap put_answer put_bought
