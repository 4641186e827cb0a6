-- ===== src/Signals/Pipeline.antt =====
-- `SignalPipeline` of signals/pipeline.py.
use techo_quant_options_pro.Prelude.{
  String, Bool, true, false, not, ◌&&◌, ◌||◌, Option, none, some, List, [], ◌∷◌, any, map, find,
  str_eq, leb_ℤ, pos, is_some, if◌then◌else◌,
}
use techo_quant_options_pro.Decimal.{Decimal, integer, is_finite, less, less_eq, negate}
use techo_quant_options_pro.Float
use techo_quant_options_pro.Float.{Float, absolute}
use techo_quant_options_pro.Time.{DateTime, not_after}
use techo_quant_options_pro.Execution.Errors.{ErrorKind}
use techo_quant_options_pro.Exec.{Result, ok, raised, raise_if}
use techo_quant_options_pro.Exec.Results.{◌>>=◌, ◌>>◌, map_results}
use techo_quant_options_pro.Domain.Enums.{OptionType, same_source}
use techo_quant_options_pro.Domain.Models.{
  AtomicSnapshot, OptionQuote, Greeks, PreviousOptionSnapshot, pricing_underlying,
}
use techo_quant_options_pro.Strategy.Config.{StrategyConfig, refuse, nought}
use techo_quant_options_pro.Strategy.Sizing.{PositionSizeResult}
use techo_quant_options_pro.Strategy.Decision.{
  DecisionInputs, DecisionOutcome, resolve_decision, confirm_price_action,
}
use techo_quant_options_pro.Validation.Issues.{
  ValidationIssue, ValidationReport, accepted, warnings,
}
use techo_quant_options_pro.Signals.Policy.{EvidencePolicy, Environment}
use techo_quant_options_pro.Signals.Models.{SignalPipelineResult, TradePlan}
use techo_quant_options_pro.Signals.Factors.{seconds_of}
use techo_quant_options_pro.Signals.Candidates.{Candidate, score_candidate, rank, best}
use techo_quant_options_pro.Signals.Plans.{Draft, draft_plan}

-- What the constructor keeps.
pub record SignalPipeline : Type 0 where
  pub strategy : StrategyConfig
  pub evidence : EvidencePolicy
  pub cost_per_lot : Decimal
  pub environment : Environment

unfoldable pub validate_pipeline : SignalPipeline → Result (Unit {0})
validate_pipeline p =
    refuse (not (is_finite p.cost_per_lot) || less p.cost_per_lot (integer (pos 0)))
      "estimated round-trip cost must be finite and non-negative"

-- Greeks by security ID.
abbrev pub GreeksTable : Type 0
GreeksTable = List (String × Greeks)

unfoldable pub require_bound_report :
    SignalPipeline → AtomicSnapshot → ValidationReport → Result (Unit {0})
require_bound_report p s report =
    refuse
      (not (str_eq report.snapshot_id s.snapshot_id)
        || not (str_eq report.snapshot_hash (p.environment.hash.of_snapshot s)))
      "validation report is not bound to this snapshot"

abbrev is_unrelated : SignalPipeline → AtomicSnapshot → PreviousOptionSnapshot → Bool
is_unrelated p s previous =
    not (str_eq previous.contract_key (p.environment.hash.contract_key s.contract))
    || not (same_source previous.source s.source)
    || leb_ℤ s.sequence previous.sequence

abbrev is_recent : StrategyConfig → Float → Bool
is_recent c interval = less nought interval && less_eq interval c.live_max_age_seconds

-- A naive and an aware time have no order.
abbrev related_quotes :
    SignalPipeline → AtomicSnapshot → PreviousOptionSnapshot → Result (List OptionQuote)
related_quotes p s previous = do
  interval ← seconds_of s.source_timestamp previous.source_timestamp
  ok (
      if not_after s.source_timestamp previous.source_timestamp
        || not (is_recent p.strategy interval)
      then []
      else previous.option_chain)

-- The quotes of the earlier snapshot that count.
unfoldable pub previous_quotes :
    SignalPipeline → AtomicSnapshot → Option PreviousOptionSnapshot → Result (List OptionQuote)
previous_quotes p s none = ok []
previous_quotes p s (some previous) = elim (is_unrelated p s previous) [
  | true ↦ ok []
  | false ↦ related_quotes p s previous
]

-- `{quote.security_id: quote for quote in ...}.get(id)`: the last of equal IDs.
abbrev or_quote : Option OptionQuote → Option OptionQuote → Option OptionQuote
or_quote (some found) other = some found
or_quote none other = other

abbrev pub quote_by_id : String → List OptionQuote → Option OptionQuote
quote_by_id id [] = none
quote_by_id id (q ∷ qs) =
    or_quote (quote_by_id id qs) (if str_eq q.security_id id then some q else none)

abbrev covers : List OptionQuote → GreeksTable → Bool
covers quotes table =
    not (
      any (λ (q : OptionQuote). not (any (λ (e : String × Greeks). str_eq e.0 q.security_id) table))
        quotes)
    && not (
        any
          (λ (e : String × Greeks).
            not (any (λ (q : OptionQuote). str_eq q.security_id e.0) quotes))
          table)

abbrev is_exact : List OptionQuote → Option GreeksTable → Bool
is_exact quotes none = true
is_exact quotes (some table) = covers quotes table

abbrev with_entry : OptionQuote → Option (String × Greeks) → OptionQuote
with_entry q none = q
with_entry q (some entry) = record q { greeks = entry.1 }

-- `replace_quote_greeks`; the table has an entry for each quote.
abbrev pub replace_quote_greeks : Option GreeksTable → OptionQuote → OptionQuote
replace_quote_greeks none q = q
replace_quote_greeks (some table) q =
    with_entry q (find (λ (e : String × Greeks). str_eq e.0 q.security_id) table)

-- The candidates of a snapshot's quotes, with their modelled Greeks.
abbrev pub candidates_of :
    SignalPipeline
    → AtomicSnapshot
    → List OptionQuote
    → Option GreeksTable
    → Result (List Candidate)
candidates_of p s previous modeled =
    map_results
      (λ (q : OptionQuote).
        score_candidate p.environment p.strategy p.evidence s (replace_quote_greeks modeled q)
          (quote_by_id q.security_id previous))
      s.option_chain

abbrev pub score_or_zero : Option Candidate → Float
score_or_zero none = nought
score_or_zero (some c) = c.score

abbrev pub leading_candidate : Option Candidate → Option Candidate → Option Candidate
leading_candidate call put = if less_eq (score_or_zero put) (score_or_zero call) then call else put

unfoldable pub price_confirmed :
    AtomicSnapshot → Option Decimal → Option Candidate → Result (Option Bool)
price_confirmed s (some underlying) (some leading) =
    confirm_price_action leading.quote.option_type underlying s.context.signal_candle_high
      s.context.signal_candle_low
    >>= λ b. ok (some b)
price_confirmed s _ _ = ok none

abbrev pub plan_from :
    SignalPipeline
    → AtomicSnapshot
    → Candidate
    → Option Decimal
    → Option Decimal
    → Float
    → DateTime
    → Result (Option (Draft × PositionSizeResult))
plan_from p s leading ask none score_gap generated_at = ok none
plan_from p s leading none (some distance) score_gap generated_at =
    raised ErrorKind.assertion_error ""
plan_from p s leading (some ask) (some distance) score_gap generated_at =
    draft_plan p.environment p.strategy p.evidence p.cost_per_lot s leading ask distance score_gap
      generated_at
    >>= λ d. ok (some d)

unfoldable pub drafted :
    SignalPipeline
    → AtomicSnapshot
    → Option Candidate
    → Float
    → DateTime
    → Result (Option (Draft × PositionSizeResult))
unfolding draft_plan
drafted p s none score_gap generated_at = ok none
drafted p s (some leading) score_gap generated_at =
    plan_from p s leading leading.quote.ask leading.risk_distance score_gap generated_at

abbrev has_evidence : Option Candidate → Bool
has_evidence none = false
has_evidence (some c) = is_some c.evidence

abbrev pub is_affordable : Option (Draft × PositionSizeResult) → Bool
is_affordable none = false
is_affordable (some d) = d.1.affordable

unfoldable pub decision_inputs :
    SignalPipeline
    → AtomicSnapshot
    → ValidationReport
    → List Candidate
    → Option Bool
    → Option (Draft × PositionSizeResult)
    → Float
    → Float
    → DecisionInputs
decision_inputs p s report candidates confirmed draft age expiry_seconds = record {
  data_complete =
      accepted report
      && has_evidence (best candidates OptionType.call)
      && has_evidence (best candidates OptionType.put);
  data_stale =
      less age (negate p.strategy.future_clock_skew_seconds)
      || less p.strategy.live_max_age_seconds age;
  expiry_valid = less nought expiry_seconds;
  extreme_expiry_risk =
      less nought expiry_seconds && less_eq expiry_seconds p.strategy.extreme_expiry_seconds;
  event_risk_active = s.context.event_risk_active;
  liquid_strike_available = any (λ (c : Candidate). c.eligible) candidates;
  affordable = is_affordable draft;
  call_score = score_or_zero (best candidates OptionType.call);
  put_score = score_or_zero (best candidates OptionType.put);
  price_action_confirmed = confirmed;
  operating_mode = s.context.operating_mode;
}

abbrev pub finalize : DecisionOutcome → Option (Draft × PositionSizeResult) → Option TradePlan
finalize o none = none
finalize o (some d) = some (d.0 o.state)

-- From the candidates to the result.
unfoldable pub conclude :
    SignalPipeline
    → AtomicSnapshot
    → ValidationReport
    → DateTime
    → List Candidate
    → Result SignalPipelineResult
unfolding rank price_confirmed drafted decision_inputs resolve_decision
conclude p s report generated_at candidates = do
  let call = best candidates OptionType.call
  let put = best candidates OptionType.put
  let leading = leading_candidate call put
  confirmed ← price_confirmed s (pricing_underlying s.market s.contract.market_kind) leading
  draft ←
      drafted p s leading (absolute (Float.sub (score_or_zero call) (score_or_zero put)))
        generated_at
  age ← seconds_of generated_at s.source_timestamp
  expiry_seconds ← seconds_of s.contract.option_expiry generated_at
  outcome ←
      resolve_decision (decision_inputs p s report candidates confirmed draft age expiry_seconds)
        p.strategy
  ok (record {
    snapshot_id = s.snapshot_id;
    generated_at = generated_at;
    decision = outcome.state;
    reason = outcome.reason;
    call_score = score_or_zero call;
    put_score = score_or_zero put;
    score_gap = outcome.score_gap;
    ranked_strikes = rank s candidates;
    trade_plan = finalize outcome draft;
    warnings = map (λ (i : ValidationIssue). i.code) (warnings report);
  })

unfoldable pub evaluate :
    SignalPipeline
    → AtomicSnapshot
    → ValidationReport
    → Option PreviousOptionSnapshot
    → Option GreeksTable
    → DateTime
    → Result SignalPipelineResult
unfolding require_bound_report previous_quotes score_candidate conclude
evaluate p s report previous_snapshot modeled generated_at = do
  raise_if (not generated_at.aware) ErrorKind.value_error
      "signal evaluation time must be timezone-aware"
  require_bound_report p s report
  previous ← previous_quotes p s previous_snapshot
  raise_if (not (is_exact s.option_chain modeled)) ErrorKind.value_error
      "modeled Greeks must cover the exact snapshot option chain"
  candidates ← candidates_of p s previous modeled
  conclude p s report generated_at candidates
