-- ===== src/Signals/Sound/Buys.antt =====
-- What a BUY of the pipeline rests on.
use mathlib.Core.Option.{some-injective}
use techo_quant_options_pro.Prelude.{
  true, Option, some, List, ◌≡◌, ◌∙◌, refl, sym, ap, subst, arith, All, pos, ltb_ℤ, Option-cases,
  inl, inr, ◌⊎◌,
}
use techo_quant_options_pro.Decimal.{less}
use techo_quant_options_pro.Float.{absolute, sub}
use techo_quant_options_pro.Float.Bounds.{less-less_eq}
use techo_quant_options_pro.Time.{DateTime}
use techo_quant_options_pro.Exec.{ok}
use techo_quant_options_pro.Exec.Results.{bind_ok, next_ok, map_results-All}
use techo_quant_options_pro.Domain.Enums.{DecisionState, OptionType, same_option_type}
use techo_quant_options_pro.Domain.Models.{AtomicSnapshot, OptionQuote, PreviousOptionSnapshot}
use techo_quant_options_pro.Strategy.Config.{nought}
use techo_quant_options_pro.Strategy.Decision.{is_score}
use techo_quant_options_pro.Strategy.Decision.Gates.{IsTradable, resolve_decision_iff}
use techo_quant_options_pro.Validation.Issues.{ValidationReport, accepted}
use techo_quant_options_pro.Signals.Models.{SignalPipelineResult, TradePlan}
use techo_quant_options_pro.Signals.Candidates.{Candidate, best, score_candidate}
use techo_quant_options_pro.Signals.Plans.{is_buy}
use techo_quant_options_pro.Signals.Pipeline.{
  SignalPipeline, GreeksTable, evaluate, conclude, decision_inputs, is_affordable, finalize,
  leading_candidate, score_or_zero, replace_quote_greeks, quote_by_id,
}
use techo_quant_options_pro.Signals.Bounds.{score_candidate-is_score}
use techo_quant_options_pro.Signals.Sound.{IsConcluded, conclude-IsConcluded, drafted-IsDraftOf}
use techo_quant_options_pro.Signals.Sound.Best.{best_side, put_leads, best_score}

-- An actionable plan of at least one lot, on this side, of this snapshot, which was accepted.
pub record IsBacked (s : AtomicSnapshot) (report : ValidationReport) (r : SignalPipelineResult)
    (side : OptionType) : Type 0 where
  pub accepted : accepted report ≡ true
  pub plan : TradePlan
  pub planned : r.trade_plan ≡ some plan
  pub actionable : plan.actionable ≡ true
  pub on_side : same_option_type plan.option_type side ≡ true
  pub source : plan.snapshot_id ≡ s.snapshot_id
  pub lots : ltb_ℤ (pos 0) plan.lots ≡ true

plan_backed :
    (p : SignalPipeline) (s : AtomicSnapshot) (report : ValidationReport) (generated_at : DateTime)
    (candidates : List Candidate) (r : SignalPipelineResult) (side : OptionType)
    (k : IsConcluded p s report generated_at candidates r)
    → IsTradable
        (decision_inputs p s report candidates k.confirmed k.draft k.age k.expiry_seconds)
        p.strategy
    → is_buy r.decision ≡ true
    → leading_candidate (best candidates OptionType.call) (best candidates OptionType.put)
      ≡ best candidates side
    → IsBacked s report r side
unfolding decision_inputs
plan_backed p s report generated_at candidates r side k t buys leads = elim (Option-cases k.draft) [
  | inl e ↦ let absurd = subst (λ o. is_affordable o ≡ true) e t.affordable in ground arith
  | inr (d, e) ↦
      let (c, leading, of_draft) =
        drafted-IsDraftOf p s
          (leading_candidate (best candidates OptionType.call) (best candidates OptionType.put))
          (absolute (
            sub (score_or_zero (best candidates OptionType.call))
              (score_or_zero (best candidates OptionType.put))))
          generated_at d (k.planned ∙ ap ok e) in
      record {
        accepted = ground (arith, t.complete);
        plan = d.0 k.outcome.state;
        planned = k.plan ∙ ap (finalize k.outcome) e;
        actionable = of_draft.actionable k.outcome.state ∙ (ap is_buy (sym k.decision) ∙ buys);
        on_side =
            subst (λ o. same_option_type o side ≡ true) (sym (of_draft.side k.outcome.state))
              (best_side candidates side c (sym leads ∙ leading));
        source = of_draft.source k.outcome.state;
        lots =
            subst (λ n. ltb_ℤ (pos 0) n ≡ true) (sym (of_draft.lots k.outcome.state))
              (sym of_draft.affordable ∙ subst (λ o. is_affordable o ≡ true) e t.affordable);
      }
]

conclude_call :
    (p : SignalPipeline) (s : AtomicSnapshot) (report : ValidationReport) (generated_at : DateTime)
    (candidates : List Candidate) (r : SignalPipelineResult)
    → conclude p s report generated_at candidates ≡ ok r
    → r.decision ≡ DecisionState.buy_call
    → IsBacked s report r OptionType.call
unfolding decision_inputs
conclude_call p s report generated_at candidates r h buys =
    let k = conclude-IsConcluded p s report generated_at candidates r h in
    let inputs = decision_inputs p s report candidates k.confirmed k.draft k.age k.expiry_seconds in
    let (t, lead) =
      (resolve_decision_iff inputs p.strategy k.outcome k.decided).0.0 (sym k.decision ∙ buys) in
    plan_backed p s report generated_at candidates r OptionType.call k t (ap is_buy buys)
      (ground (arith, less-less_eq inputs.put_score inputs.call_score lead))

conclude_put :
    (p : SignalPipeline) (s : AtomicSnapshot) (report : ValidationReport) (generated_at : DateTime)
    (candidates : List Candidate) (r : SignalPipelineResult)
    → All (λ (d : Candidate). is_score d.score ≡ true) candidates
    → less nought p.strategy.conflict_gap ≡ true
    → conclude p s report generated_at candidates ≡ ok r
    → r.decision ≡ DecisionState.buy_put
    → IsBacked s report r OptionType.put
unfolding decision_inputs
conclude_put p s report generated_at candidates r scores gap h buys =
    let k = conclude-IsConcluded p s report generated_at candidates r h in
    let inputs = decision_inputs p s report candidates k.confirmed k.draft k.age k.expiry_seconds in
    let (t, lead) =
      (resolve_decision_iff inputs p.strategy k.outcome k.decided).1.0 (sym k.decision ∙ buys) in
    let no_tie =
      put_leads inputs.put_score inputs.call_score p.strategy.conflict_gap
        (best_score candidates OptionType.put scores) (best_score candidates OptionType.call scores)
        lead gap t.decided in
    plan_backed p s report generated_at candidates r OptionType.put k t (ap is_buy buys)
      (ground (arith, no_tie))

-- What `evaluate` computed on the way: candidates with scores in range, and their conclusion.
evaluated :
    (p : SignalPipeline) (s : AtomicSnapshot) (report : ValidationReport)
    (previous : Option PreviousOptionSnapshot) (modeled : Option GreeksTable)
    (generated_at : DateTime) (r : SignalPipelineResult)
    → evaluate p s report previous modeled generated_at ≡ ok r
    → (candidates : List Candidate) × All (λ (d : Candidate). is_score d.score ≡ true) candidates
      × (conclude p s report generated_at candidates ≡ ok r)
unfolding evaluate
evaluated p s report previous modeled generated_at r h =
    let (u, _, h1) = next_ok _ _ r h in
    let (u', _, h2) = next_ok _ _ r h1 in
    let (earlier, _, h3) = bind_ok _ _ r h2 in
    let (u'', _, h4) = next_ok _ _ r h3 in
    let (candidates, scored, h5) = bind_ok _ _ r h4 in
    (
      candidates,
      map_results-All
          (λ (q : OptionQuote).
            score_candidate p.environment p.strategy p.evidence s (replace_quote_greeks modeled q)
              (quote_by_id q.security_id earlier))
          (λ (d : Candidate). is_score d.score ≡ true)
          (λ q d each.
            score_candidate-is_score p.environment p.strategy p.evidence s
              (replace_quote_greeks modeled q) (quote_by_id q.security_id earlier) d each)
          s.option_chain candidates scored,
      h5,
    )

-- An evaluation that returns BUY_CALL had an accepted report, and carries an actionable plan for a
-- call of this snapshot, of one lot at least.
pub evaluate_call :
    (p : SignalPipeline) (s : AtomicSnapshot) (report : ValidationReport)
    (previous : Option PreviousOptionSnapshot) (modeled : Option GreeksTable)
    (generated_at : DateTime) (r : SignalPipelineResult)
    → evaluate p s report previous modeled generated_at ≡ ok r
    → r.decision ≡ DecisionState.buy_call
    → IsBacked s report r OptionType.call
evaluate_call p s report previous modeled generated_at r h buys =
    let (candidates, _, k) = evaluated p s report previous modeled generated_at r h in
    conclude_call p s report generated_at candidates r k buys

-- With a positive conflict gap, an evaluation that returns BUY_PUT had an accepted report, and
-- carries an actionable plan for a put of this snapshot, of one lot at least.
pub evaluate_put :
    (p : SignalPipeline) (s : AtomicSnapshot) (report : ValidationReport)
    (previous : Option PreviousOptionSnapshot) (modeled : Option GreeksTable)
    (generated_at : DateTime) (r : SignalPipelineResult)
    → less nought p.strategy.conflict_gap ≡ true
    → evaluate p s report previous modeled generated_at ≡ ok r
    → r.decision ≡ DecisionState.buy_put
    → IsBacked s report r OptionType.put
evaluate_put p s report previous modeled generated_at r gap h buys =
    let (candidates, scores, k) = evaluated p s report previous modeled generated_at r h in
    conclude_put p s report generated_at candidates r scores gap k buys

finalize-actionable :
    (p : SignalPipeline) (s : AtomicSnapshot) (report : ValidationReport) (generated_at : DateTime)
    (candidates : List Candidate) (r : SignalPipelineResult) (plan : TradePlan)
    (k : IsConcluded p s report generated_at candidates r)
    → r.trade_plan ≡ some plan
    → plan.actionable ≡ is_buy r.decision
finalize-actionable p s report generated_at candidates r plan k h = elim (Option-cases k.draft) [
  | inl e ↦ let absurd = sym h ∙ (k.plan ∙ ap (finalize k.outcome) e) in ground arith
  | inr (d, e) ↦
      let (c, leading, of_draft) =
        drafted-IsDraftOf p s
          (leading_candidate (best candidates OptionType.call) (best candidates OptionType.put))
          (absolute (
            sub (score_or_zero (best candidates OptionType.call))
              (score_or_zero (best candidates OptionType.put))))
          generated_at d (k.planned ∙ ap ok e) in
      let same = some-injective _ _ (sym h ∙ (k.plan ∙ ap (finalize k.outcome) e)) in
      ap (λ (x : TradePlan). x.actionable) same
      ∙ (of_draft.actionable k.outcome.state ∙ ap is_buy (sym k.decision))
]

buy-cases :
    (d : DecisionState)
    → is_buy d ≡ true
    → (d ≡ DecisionState.buy_call) ⊎ (d ≡ DecisionState.buy_put)
buy-cases DecisionState.buy_call h = inl refl
buy-cases DecisionState.buy_put h = inr refl
buy-cases DecisionState.wait h = ground arith
buy-cases DecisionState.no_trade h = ground arith
buy-cases DecisionState.insufficient_data h = ground arith

-- An actionable plan comes from an accepted report only.
pub evaluate_accepted :
    (p : SignalPipeline) (s : AtomicSnapshot) (report : ValidationReport)
    (previous : Option PreviousOptionSnapshot) (modeled : Option GreeksTable)
    (generated_at : DateTime) (r : SignalPipelineResult) (plan : TradePlan)
    → evaluate p s report previous modeled generated_at ≡ ok r
    → r.trade_plan ≡ some plan
    → plan.actionable ≡ true
    → accepted report ≡ true
unfolding decision_inputs
evaluate_accepted p s report previous modeled generated_at r plan h planned acts =
    let (candidates, _, c) = evaluated p s report previous modeled generated_at r h in
    let k = conclude-IsConcluded p s report generated_at candidates r c in
    let inputs = decision_inputs p s report candidates k.confirmed k.draft k.age k.expiry_seconds in
    let decided = resolve_decision_iff inputs p.strategy k.outcome k.decided in
    let buys =
      sym (finalize-actionable p s report generated_at candidates r plan k planned) ∙ acts in
    elim (buy-cases r.decision buys) [
      | inl call ↦ let t = (decided.0.0 (sym k.decision ∙ call)).0 in ground (arith, t.complete)
      | inr put ↦ let t = (decided.1.0 (sym k.decision ∙ put)).0 in ground (arith, t.complete)
    ]
