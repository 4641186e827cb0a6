-- ===== src/Signals/Sound.antt =====
-- What a result of the pipeline is made of: its candidates, its decision and its drafted plan.
pub mod Ties
pub mod Best
pub mod Buys
use mathlib.Core.Option.{some-injective}
use techo_quant_options_pro.Prelude.{
  String, Bool, true, false, not, ◌&&◌, ◌||◌, Option, none, some, List, [], ◌∷◌, any, ◌≡◌, ◌∙◌,
  refl, sym, ap, subst, arith, All, pos, ltb_ℤ, str_eq, Bool-cases, Option-cases, inl, inr,
  if◌then◌else◌, and_left, and_right,
}
use techo_quant_options_pro.Decimal.{Decimal, less, less_eq}
use techo_quant_options_pro.Float.{Float, absolute, sub}
use techo_quant_options_pro.Time.{DateTime}
use techo_quant_options_pro.Exec.{Result, ok, raised}
use techo_quant_options_pro.Exec.Outcome.{Outcome, outcome, ok_injective}
use techo_quant_options_pro.Exec.Results.{bind_ok, next_ok, map_results-All, ◌>>=◌}
use techo_quant_options_pro.Domain.Enums.{DecisionState, OptionType, same_option_type}
use techo_quant_options_pro.Domain.Models.{AtomicSnapshot, OptionQuote, PreviousOptionSnapshot}
use techo_quant_options_pro.Strategy.Decision.{
  DecisionInputs, DecisionOutcome, is_score, resolve_decision,
}
use techo_quant_options_pro.Strategy.Sizing.{
  PositionSizeResult, SizeRequest, check_request, size_of, calculate_position_size,
}
use techo_quant_options_pro.Strategy.Config.{StrategyConfig}
use techo_quant_options_pro.Signals.Policy.{EvidencePolicy, Environment}
use techo_quant_options_pro.Validation.Issues.{ValidationReport, accepted}
use techo_quant_options_pro.Signals.Models.{SignalPipelineResult, TradePlan}
use techo_quant_options_pro.Signals.Candidates.{
  Candidate, score_candidate, best, best_from, better, is_best_side,
}
use techo_quant_options_pro.Signals.Plans.{
  Draft, is_buy, draft_plan, draft_of, round_up, stop_of, size_request,
}
use techo_quant_options_pro.Signals.Pipeline.{
  SignalPipeline, GreeksTable, evaluate, conclude, drafted, decision_inputs, finalize,
  is_affordable, score_or_zero, leading_candidate, price_confirmed, plan_from,
}
use techo_quant_options_pro.Signals.Bounds.{score_candidate-is_score}

-- What `conclude` computed on the way.
pub record IsConcluded (p : SignalPipeline) (s : AtomicSnapshot) (report : ValidationReport)
    (generated_at : DateTime) (candidates : List Candidate) (r : SignalPipelineResult)
    : Type 0 where
  pub confirmed : Option Bool
  pub draft : Option (Draft × PositionSizeResult)
  pub age : Float
  pub expiry_seconds : Float
  pub outcome : DecisionOutcome
  pub planned :
      drafted p s
        (leading_candidate (best candidates OptionType.call) (best candidates OptionType.put))
        (absolute (
          sub
            (score_or_zero (best candidates OptionType.call))
            (score_or_zero (best candidates OptionType.put))))
        generated_at
      ≡ ok draft
  pub decided :
      resolve_decision
        (decision_inputs p s report candidates confirmed draft age expiry_seconds)
        p.strategy
      ≡ ok outcome
  pub decision : r.decision ≡ outcome.state
  pub plan : r.trade_plan ≡ finalize outcome draft
  pub call_score : r.call_score ≡ score_or_zero (best candidates OptionType.call)
  pub put_score : r.put_score ≡ score_or_zero (best candidates OptionType.put)

pub conclude-IsConcluded :
    (p : SignalPipeline) (s : AtomicSnapshot) (report : ValidationReport) (generated_at : DateTime)
    (candidates : List Candidate) (r : SignalPipelineResult)
    → conclude p s report generated_at candidates ≡ ok r
    → IsConcluded p s report generated_at candidates r
unfolding conclude
conclude-IsConcluded p s report generated_at candidates r h =
    let (confirmed, _, h1) = bind_ok _ _ r h in
    let (draft, planned, h2) = bind_ok _ _ r h1 in
    let (age, _, h3) = bind_ok _ _ r h2 in
    let (expiry_seconds, _, h4) = bind_ok _ _ r h3 in
    let (outcome, decided, h5) = bind_ok _ _ r h4 in
    let e = ok_injective h5 in
    record {
      confirmed = confirmed;
      draft = draft;
      age = age;
      expiry_seconds = expiry_seconds;
      outcome = outcome;
      planned = planned;
      decided = decided;
      decision = sym (ap (λ (x : SignalPipelineResult). x.decision) e);
      plan = sym (ap (λ (x : SignalPipelineResult). x.trade_plan) e);
      call_score = sym (ap (λ (x : SignalPipelineResult). x.call_score) e);
      put_score = sym (ap (λ (x : SignalPipelineResult). x.put_score) e);
    }

-- A fact of every candidate of the side is one of the best.
better-fact :
    (P : Candidate → Type 0) (start : Option Candidate) (c : Candidate)
    → ((d : Candidate) → start ≡ some d → P d)
    → P c
    → (d : Candidate) → better start c ≡ some d
    → P d
better-fact P none c known this d h = subst P (some-injective _ _ h) this
better-fact P (some found) c known this d h = elim (Bool-cases (less found.score c.score)) [
  | inl e ↦ subst P (some-injective _ _ (rw e at h)) this
  | inr e ↦ subst P (some-injective _ _ (rw e at h)) (known found refl)
]

pub best_from-fact :
    (P : Candidate → Type 0) (t : OptionType) (start : Option Candidate) (cs : List Candidate)
    (c : Candidate)
    → ((d : Candidate) → start ≡ some d → P d)
    → All (λ d. is_best_side t d ≡ true → P d) cs
    → best_from t start cs ≡ some c
    → P c
unfolding best_from
best_from-fact P t start [] c known all h = known c h
best_from-fact P t start (d ∷ ds) c known all h = elim (Bool-cases (is_best_side t d)) [
  | inl e ↦
      best_from-fact P t (better start d) ds c (better-fact P start d known (all.0 e)) all.1
        (rw e at h)
  | inr e ↦ best_from-fact P t start ds c known all.1 (rw e at h)
]

drafted-position :
    (r : SizeRequest) (c : StrategyConfig) (position : PositionSizeResult)
    → calculate_position_size r c ≡ ok position
    → position.affordable ≡ ltb_ℤ (pos 0) position.maximum_lots
unfolding calculate_position_size size_of
drafted-position r c position h = elim (outcome (check_request r c)) [
  | Outcome.returned u e ↦
      subst (λ (x : PositionSizeResult). x.affordable ≡ ltb_ℤ (pos 0) x.maximum_lots)
        (ok_injective (rw e at h)) refl
  | Outcome.failed k m e ↦ ground (arith, e, h)
]

-- What the drafted plan says of the candidate, and of the position's size.
pub record IsDraftOf (s : AtomicSnapshot) (leading : Candidate) (d : Draft × PositionSizeResult)
    : Type 0 where
  pub side : (state : DecisionState) → (d.0 state).option_type ≡ leading.quote.option_type
  pub actionable : (state : DecisionState) → (d.0 state).actionable ≡ is_buy state
  pub source : (state : DecisionState) → (d.0 state).snapshot_id ≡ s.snapshot_id
  pub lots : (state : DecisionState) → (d.0 state).lots ≡ d.1.maximum_lots
  pub affordable : d.1.affordable ≡ ltb_ℤ (pos 0) d.1.maximum_lots

draft_plan-IsDraftOf :
    (env : Environment) (c : StrategyConfig) (p : EvidencePolicy) (cost : Decimal)
    (s : AtomicSnapshot) (leading : Candidate) (ask distance : Decimal) (gap : Float)
    (generated_at : DateTime) (d : Draft × PositionSizeResult)
    → draft_plan env c p cost s leading ask distance gap generated_at ≡ ok d
    → IsDraftOf s leading d
unfolding draft_plan draft_of
draft_plan-IsDraftOf env c p cost s leading ask distance gap generated_at d h =
    let tick = s.contract.tick_size in
    let entry = round_up ask tick in
    let (u, _, h1) = next_ok _ _ d h in
    let (position, sized, h2) = bind_ok _ _ d h1 in
    let (symbol, _, h3) = bind_ok _ _ d h2 in
    subst (IsDraftOf s leading) (ok_injective h3) (record {
      side = λ state. refl;
      actionable = λ state. refl;
      source = λ state. refl;
      lots = λ state. refl;
      affordable =
          drafted-position (size_request s entry (stop_of entry distance tick) cost) c position
            sized;
    })

plan_from-IsDraftOf :
    (p : SignalPipeline) (s : AtomicSnapshot) (leading : Candidate) (ask distance : Option Decimal)
    (gap : Float) (generated_at : DateTime) (d : Draft × PositionSizeResult)
    → plan_from p s leading ask distance gap generated_at ≡ ok (some d)
    → IsDraftOf s leading d
plan_from-IsDraftOf p s leading ask none gap generated_at d h = ground arith
plan_from-IsDraftOf p s leading none (some distance) gap generated_at d h = ground arith
plan_from-IsDraftOf p s leading (some ask) (some distance) gap generated_at d h =
    let (d', from, h1) = bind_ok _ _ (some d) h in
    subst (IsDraftOf s leading) (some-injective _ _ (ok_injective h1)) (
      draft_plan-IsDraftOf p.environment p.strategy p.evidence p.cost_per_lot s leading ask distance
        gap generated_at d' from)

pub drafted-IsDraftOf :
    (p : SignalPipeline) (s : AtomicSnapshot) (leading : Option Candidate) (gap : Float)
    (generated_at : DateTime) (d : Draft × PositionSizeResult)
    → drafted p s leading gap generated_at ≡ ok (some d)
    → (c : Candidate) × (leading ≡ some c) × IsDraftOf s c d
unfolding drafted
drafted-IsDraftOf p s none gap generated_at d h = ground arith
drafted-IsDraftOf p s (some c) gap generated_at d h =
    (c, refl, plan_from-IsDraftOf p s c c.quote.ask c.risk_distance gap generated_at d h)
