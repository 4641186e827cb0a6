-- ===== src/Automation/Once.antt =====
-- Runs of automation/service.py with the same inputs, one after the other.
use techo_quant_options_pro.Prelude.{
  String, true, Option, none, some, any, ◌≡◌, ◌∙◌, refl, sym, ap, subst, arith, pos, Bool-cases,
  inl, inr,
}
use techo_quant_options_pro.Time.{DateTime}
use techo_quant_options_pro.Execution.Errors.{ErrorKind}
use techo_quant_options_pro.Exec.{Result, ok, raised, lift}
use techo_quant_options_pro.Exec.Outcome.{bind-ok, ok_injective}
use techo_quant_options_pro.Domain.Models.{AtomicSnapshot, PreviousOptionSnapshot}
use techo_quant_options_pro.Validation.Issues.{ValidationReport}
use techo_quant_options_pro.Signals.Models.{SignalPipelineResult, TradePlan}
use techo_quant_options_pro.Execution.Models.{TradePlan as ExecutionTradePlan, ExecutionResult}
use techo_quant_options_pro.Execution.Controller.Actions.{World, submit}
use techo_quant_options_pro.Execution.Controller.Invariants.{Reach}
use techo_quant_options_pro.Execution.Controller.Duplicates.{
  Reach-Known, admit-IsRaised, resubmission_refused,
}
use techo_quant_options_pro.Execution.Controller.Refusals.{
  IsEscaping, refused-IsEscaping, submit-Known,
}
use techo_quant_options_pro.Signals.Adapters.{to_execution_plan}
use techo_quant_options_pro.Automation.History.{
  History, has_id, insert_or_ignore, evaluation_of, record_evaluation,
}
use techo_quant_options_pro.Automation.Sound.{has_id-insert}
use techo_quant_options_pro.Automation.Service.{
  Service, Automated, AutomationRunResult, process, execute_plan, execute, on_history, on_world,
  run_result,
}

-- The submission that a run made.
record Submits {G : Type 0} (v : Service G) (s : AtomicSnapshot) (now : DateTime)
    (r : SignalPipelineResult) (o : Option TradePlan) (w : World G) (run : AutomationRunResult)
    (after : World G) : Type 0 where
  plan : TradePlan
  planned : o ≡ some plan
  acts : plan.actionable ≡ true
  order : ExecutionTradePlan
  converted : to_execution_plan v.hash plan s (pos 30000000) (pos 900000000) ≡ ok order
  answer : ExecutionResult
  answered : (submit v.setup order now w).0 ≡ ok answer
  reached : after ≡ (submit v.setup order now w).1
  same : run.signal ≡ r

-- A run has an execution only where the submission returned.
run_result-executed :
    (signal : SignalPipelineResult) (x : Result ExecutionResult) (run : AutomationRunResult)
    (e : ExecutionResult)
    → run_result signal x ≡ ok run
    → run.execution ≡ some e
    → (answer : ExecutionResult) × (x ≡ ok answer) × (run.signal ≡ signal)
run_result-executed signal (ok a) run e h executed =
    (a, refl, ap (λ (y : AutomationRunResult). y.signal) (sym (ok_injective h)))
run_result-executed signal (raised ErrorKind.execution_blocked m) run e h executed =
    let none_there = ap (λ (y : AutomationRunResult). y.execution) (ok_injective h) in ground arith
run_result-executed signal (raised k m) run e h executed = ground arith

run_result-IsEscaping :
    (signal : SignalPipelineResult) (x : Result ExecutionResult)
    → IsEscaping x
    → IsEscaping (run_result signal x)
run_result-IsEscaping signal (ok a) h = absurd h
run_result-IsEscaping signal (raised ErrorKind.execution_blocked m) h = ground arith
run_result-IsEscaping signal (raised k m) h = h

module _ {G : Type 0} (v : Service G) (s : AtomicSnapshot) where
  converted-Submits :
      (now : DateTime) (r : SignalPipelineResult) (plan : TradePlan) (a : Automated G)
      (run : AutomationRunResult) (e : ExecutionResult)
      → plan.actionable ≡ true
      → (execute v s now r plan a).0 ≡ ok run
      → run.execution ≡ some e
      → Submits v s now r (some plan) a.world run (execute v s now r plan a).1.world
  unfolding on_world
  converted-Submits now r plan a run e acts h executed =
      let (order, converts, rest) =
        bind-ok (lift (to_execution_plan v.hash plan s (pos 30000000) (pos 900000000))) _ a run h in
      let (answer, answered, same) =
        run_result-executed r (submit v.setup order now a.world).0 run e
          (ap (λ (x : Result AutomationRunResult × Automated G). x.0) (sym rest) ∙ h) executed in
      record {
        plan = plan;
        planned = refl;
        acts = acts;
        order = order;
        converted = converts;
        answer = answer;
        answered = answered;
        reached = ap (λ (x : Result AutomationRunResult × Automated G). x.1.world) rest;
        same = same;
      }

  execute-Submits :
      (now : DateTime) (r : SignalPipelineResult) (o : Option TradePlan) (a : Automated G)
      (run : AutomationRunResult) (e : ExecutionResult)
      → (execute_plan v s now r o a).0 ≡ ok run
      → run.execution ≡ some e
      → Submits v s now r o a.world run (execute_plan v s now r o a).1.world
  unfolding execute_plan
  execute-Submits now r none a run e h executed =
      let none_there = ap (λ (y : AutomationRunResult). y.execution) (ok_injective h) in
      ground arith
  execute-Submits now r (some plan) a run e h executed = elim (Bool-cases plan.actionable) [
    | inl acts ↦ simp acts (converted-Submits now r plan a run e acts (simp acts at h) executed)
    | inr idle ↦
        let none_there =
          ap (λ (y : AutomationRunResult). y.execution) (ok_injective (simp idle at h)) in
        ground arith
  ]

  -- What a run that executed did: it recorded its evaluation, and submitted its plan.
  record Executes (report : ValidationReport) (previous : Option PreviousOptionSnapshot)
      (now : DateTime) (a : Automated G) (run : AutomationRunResult) : Type 0 where
    result : SignalPipelineResult
    evaluated : v.evaluate s report previous now ≡ ok result
    aware : result.generated_at.aware ≡ true
    submits :
        Submits v s now result result.trade_plan a.world run
          (process v s report previous now a).1.world

  recorded_aware :
      (r : SignalPipelineResult) (h : History) {id : String}
      → (record_evaluation v.result_hash r h).0 ≡ ok id
      → r.generated_at.aware ≡ true
  unfolding record_evaluation
  recorded_aware r h e = ground arith

  process-Executes :
      (report : ValidationReport) (previous : Option PreviousOptionSnapshot) (now : DateTime)
      (a : Automated G) (run : AutomationRunResult) (e : ExecutionResult)
      → (process v s report previous now a).0 ≡ ok run
      → run.execution ≡ some e
      → Executes report previous now a run
  unfolding process on_history
  process-Executes report previous now a run e h executed =
      let (r, evaluated, rest) = bind-ok (lift (v.evaluate s report previous now)) _ a run h in
      let h1 = ap (λ (x : Result AutomationRunResult × Automated G). x.0) (sym rest) ∙ h in
      let (id, recorded, rest') =
        bind-ok (on_history (record_evaluation v.result_hash r)) _ a run h1 in
      let h2 = ap (λ (x : Result AutomationRunResult × Automated G). x.0) (sym rest') ∙ h1 in
      let b : Automated G = record a {
        history = (record_evaluation v.result_hash r a.history).1;
      } in
      record {
        result = r;
        evaluated = evaluated;
        aware = recorded_aware r a.history recorded;
        submits =
            subst
              (λ (x : Result AutomationRunResult × Automated G).
                Submits v s now r r.trade_plan a.world run x.1.world)
              (sym (rest ∙ rest')) (execute-Submits now r r.trade_plan b run e h2 executed);
      }

  process_answer :
      (report : ValidationReport) (previous : Option PreviousOptionSnapshot) (now : DateTime)
      (b : Automated G) (r : SignalPipelineResult) {w u : World G} {run : AutomationRunResult}
      → v.evaluate s report previous now ≡ ok r
      → r.generated_at.aware ≡ true
      → (t : Submits v s now r r.trade_plan w run u)
      → process v s report previous now b ≡ (
        run_result r (submit v.setup t.order now b.world).0,
        record b {
          history = insert_or_ignore (evaluation_of v.result_hash r) b.history;
          world = (submit v.setup t.order now b.world).1;
        },
      )
  unfolding process on_history record_evaluation execute_plan on_world
  process_answer report previous now b r evaluated aware t =
      simp (evaluated, aware, t.planned, t.acts, t.converted) refl

  -- After a run executed its evaluation's plan, and any calls of the controller since, a run with
  -- the same inputs raises, and not the error that the service catches: no signal, no order and no
  -- mutation is added, and the history holds the evaluation.
  pub executed_once :
      (report : ValidationReport) (previous : Option PreviousOptionSnapshot) (now : DateTime)
      (a b : Automated G) (run : AutomationRunResult) (e : ExecutionResult)
      → (process v s report previous now a).0 ≡ ok run
      → run.execution ≡ some e
      → Reach (process v s report previous now a).1.world b.world
      → let (x, d) = process v s report previous now b in
        IsEscaping x
        × (d.world.ledger.signals ≡ b.world.ledger.signals)
        × (d.world.ledger.orders ≡ b.world.ledger.orders)
        × (d.world.sent ≡ b.world.sent)
        × (any (has_id (evaluation_of v.result_hash run.signal).evaluation_id) d.history ≡ true)
  executed_once report previous now a b run e h executed reach =
      let x = process-Executes report previous now a run e h executed in
      let t = x.submits in
      let reach' = subst (λ (w : World G). Reach w b.world) t.reached reach in
      let known = submit-Known v.setup t.order now a.world t.answer t.answered in
      let (_, signals, orders, sent) = resubmission_refused v.setup t.order now known reach' in
      let refused =
        admit-IsRaised v.setup t.order now b.world.ledger
          (Reach-Known t.order.signal_id reach' known) in
      subst
        (λ (y : Result AutomationRunResult × Automated G).
          IsEscaping y.0
          × (y.1.world.ledger.signals ≡ b.world.ledger.signals)
          × (y.1.world.ledger.orders ≡ b.world.ledger.orders)
          × (y.1.world.sent ≡ b.world.sent)
          × (any (has_id (evaluation_of v.result_hash run.signal).evaluation_id) y.1.history
              ≡ true))
        (sym (process_answer report previous now b x.result x.evaluated x.aware t))
        (
          run_result-IsEscaping x.result (submit v.setup t.order now b.world).0
              (refused-IsEscaping v.setup t.order now b.world refused),
          signals,
          orders,
          sent,
          subst
              (λ (r : SignalPipelineResult).
                any (has_id (evaluation_of v.result_hash r).evaluation_id)
                  (insert_or_ignore (evaluation_of v.result_hash x.result) b.history)
                ≡ true)
              (sym t.same) (has_id-insert (evaluation_of v.result_hash x.result) b.history),
        )
