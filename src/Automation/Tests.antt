-- ===== src/Automation/Tests.antt =====
-- The theorems on the automation at concrete services.
use techo_quant_options_pro.Prelude.{
  Bool, true, false, Option, some, none, [], ◌++◌, ◌≡◌, refl, arith, pos, ◌⊎◌, Distinct, any,
  is_some, ◌+ℤ◌, ◌-ℤ◌, ◌*ℤ◌,
}
use techo_quant_options_pro.Text.{is_blank}
use techo_quant_options_pro.Exec.{Result, ok, raised, transaction}
use techo_quant_options_pro.Exec.Results
use techo_quant_options_pro.Execution.Models.{ExecutionMode, ExecutionResult, SignalExecutionState}
use techo_quant_options_pro.Execution.Ledger.Rows.{event}
use techo_quant_options_pro.Execution.Ledger.Signals.{record_signal, insert_signal}
use techo_quant_options_pro.Execution.Ledger.Orders.{
  record_execution, order_violates, fill_violates, position_violates,
}
use techo_quant_options_pro.Execution.Ledger.Positions.{daily_realized_pnl, consecutive_losses}
use techo_quant_options_pro.Execution.Paper
use techo_quant_options_pro.Execution.Controller.Policy.{lookup}
use techo_quant_options_pro.Execution.Controller.Gates.{
  require_aware, check_kill_limits, check_daily_loss, check_loss_streak, check_plan, validate_plan,
  validate_names, validate_size, validate_aware, validate_times, validate_risk,
}
use techo_quant_options_pro.Execution.Controller.Actions
use techo_quant_options_pro.Execution.Controller.Actions.{
  Submitted, submit, on_ledger, admit, dispatch, execute_paper,
}
use techo_quant_options_pro.Execution.Controller.Invariants.{Reach}
use techo_quant_options_pro.Execution.Controller.Refusals.{IsEscaping}
use techo_quant_options_pro.Execution.Fixtures.{setup, world, acknowledgement}
use techo_quant_options_pro.Validation.Issues.{ValidationReport}
use techo_quant_options_pro.Validation.Snapshot.{validate}
use techo_quant_options_pro.Validation.Sound.Fresh.{IsCurrent}
use techo_quant_options_pro.Validation.Sound.Strikes.{IsChain}
use techo_quant_options_pro.Validation.Fixtures.{validator, snapshot, second, hash}
use techo_quant_options_pro.Signals.Pipeline.{evaluate}
use techo_quant_options_pro.Signals.Models.{SignalPipelineResult, TradePlan}
use techo_quant_options_pro.Signals.Adapters.{to_execution_plan}
use techo_quant_options_pro.Decimal.{
  integer, less, less_eq, mul, add, sub, divide, negate, quantize_4, is_finite, floor,
}
use techo_quant_options_pro.Domain.Enums.{DecisionState, DecisionReason, OptionType}
use techo_quant_options_pro.Signals.Fixtures.{pipeline, call_rose}
use techo_quant_options_pro.Automation.Service.{
  Service, Automated, AutomationRunResult, process, execute_plan, on_history, on_world,
}
use techo_quant_options_pro.Automation.History.{
  History, Evaluation, has_id, evaluation_of, record_evaluation,
}
use techo_quant_options_pro.Automation.Sound.{process_guarded, record_evaluation_twice}
use techo_quant_options_pro.Automation.Once.{executed_once}

abbrev service : Service Submitted
service = record {
  evaluate = λ s report previous now. evaluate pipeline s report previous none now;
  setup = setup ExecutionMode.paper_trading;
  hash = hash;
  result_hash = λ r. r.snapshot_id;
}

abbrev start : Automated Submitted
start = record { history = []; world = world (Submitted.acknowledged acknowledgement) }

process_guarded_example :
    ((process service snapshot
        (validate validator snapshot (second 100001))
        (some call_rose)
        (second 100001)
        start).1.world
      ≡ start.world)
    ⊎ (IsCurrent validator snapshot (second 100001) × IsChain validator snapshot)
process_guarded_example =
    process_guarded pipeline none validator service snapshot (some call_rose) (second 100001)
      (second 100001) start refl

abbrev bought : TradePlan
bought = record {
  signal_id = "signal:1";
  snapshot_id = "now";
  contract_key = "NIFTY";
  strategy_version = "teco-canonical-1.0.0";
  evidence_version = "teco-evidence-1.0.0";
  generated_at = second 100001;
  decision = DecisionState.buy_call;
  actionable = true;
  symbol = "NIFTY-CE";
  security_id = "42";
  option_type = OptionType.call;
  strike = integer (pos 98);
  expiry = second 300000;
  score = integer (pos 84);
  score_gap = integer (pos 46);
  entry = integer (pos 10);
  stop = integer (pos 9);
  targets = [];
  lot_size = pos 75;
  lots = pos 2;
  quantity = pos 150;
  maximum_risk = integer (pos 10000);
  risk_per_lot = integer (pos 75);
  premium_required = integer (pos 1500);
}

abbrev evaluation : SignalPipelineResult
evaluation = record {
  snapshot_id = "now";
  generated_at = second 100001;
  decision = DecisionState.buy_call;
  reason = DecisionReason.bullish_confirmed;
  call_score = integer (pos 84);
  put_score = integer (pos 38);
  score_gap = integer (pos 46);
  ranked_strikes = [];
  trade_plan = some bought;
  warnings = [];
}

abbrev buying : Service Submitted
buying = record service { evaluate = λ s report previous now. ok evaluation }

abbrev report_of_snapshot : ValidationReport
report_of_snapshot = validate validator snapshot (second 100001)

abbrev first_run : Result AutomationRunResult × Automated Submitted
first_run = process buying snapshot report_of_snapshot none (second 100001) start

abbrev nothing_run : AutomationRunResult
nothing_run = record { signal = evaluation; execution = none; execution_blocked_reason = none }

abbrev run_of : Result AutomationRunResult → AutomationRunResult
run_of (ok run) = run
run_of (raised kind message) = nothing_run

abbrev no_execution : ExecutionResult
no_execution = record {
  signal_id = "";
  state = SignalExecutionState.received;
  order = none;
  fills = [];
  message = none;
}

abbrev execution_of : Option ExecutionResult → ExecutionResult
execution_of (some e) = e
execution_of none = no_execution

abbrev has_executed : Result AutomationRunResult → Bool
has_executed (ok run) = is_some run.execution
has_executed (raised kind message) = false

run_of-ok : (m : Result AutomationRunResult) → has_executed m ≡ true → m ≡ ok (run_of m)
run_of-ok (ok run) h = refl
run_of-ok (raised kind message) h = ground arith

has_execution :
    (m : Result AutomationRunResult) → has_executed m ≡ true → is_some (run_of m).execution ≡ true
has_execution (ok run) h = h
has_execution (raised kind message) h = ground arith

executed_of : (o : Option ExecutionResult) → is_some o ≡ true → o ≡ some (execution_of o)
executed_of (some e) h = refl
executed_of none h = ground arith

first_executed : has_executed first_run.0 ≡ true
unfolding process on_history record_evaluation execute_plan on_world to_execution_plan Results.◌>>◌
    Actions.submit on_ledger admit require_aware check_kill_limits check_daily_loss
    check_loss_streak daily_realized_pnl consecutive_losses check_plan validate_plan lookup
    validate_names validate_size validate_aware validate_times validate_risk record_signal
    insert_signal transaction is_blank dispatch execute_paper Paper.submit record_execution event
    less_eq less mul add sub divide negate quantize_4 is_finite floor ◌+ℤ◌ ◌-ℤ◌ ◌*ℤ◌ order_violates
    fill_violates position_violates
first_executed = refl

executed_once_example :
    let (x, d) = process buying snapshot report_of_snapshot none (second 100001) first_run.1 in
    IsEscaping x
    × (d.world.ledger.signals ≡ first_run.1.world.ledger.signals)
    × (d.world.ledger.orders ≡ first_run.1.world.ledger.orders)
    × (d.world.sent ≡ first_run.1.world.sent)
    × (any
          (has_id (evaluation_of buying.result_hash (run_of first_run.0).signal).evaluation_id)
          d.history
        ≡ true)
executed_once_example =
    executed_once buying snapshot report_of_snapshot none (second 100001) start first_run.1
      (run_of first_run.0) (execution_of (run_of first_run.0).execution)
      (run_of-ok first_run.0 first_executed)
      (executed_of (run_of first_run.0).execution (has_execution first_run.0 first_executed))
      Reach.here

abbrev recorded : History
recorded = (record_evaluation (λ r. r.snapshot_id) evaluation []).1

record_evaluation_twice_example :
    (record_evaluation (λ r. r.snapshot_id) evaluation recorded
      ≡ record_evaluation (λ r. r.snapshot_id) evaluation [])
    × Distinct (λ (e : Evaluation). e.evaluation_id) recorded
    × ((rest : History) × (recorded ≡ [] ++ rest))
record_evaluation_twice_example = record_evaluation_twice (λ r. r.snapshot_id) evaluation [] refl tt
