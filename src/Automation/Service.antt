-- ===== src/Automation/Service.antt =====
-- `TecoAutomationService` of automation/service.py, over the execution controller and the history.
use techo_quant_options_pro.Prelude.{
  String, not, Option, none, some, List, map, ◌*◌, pos, if◌then◌else◌,
}
use techo_quant_options_pro.Time.{DateTime}
use techo_quant_options_pro.Execution.Errors.{ErrorKind}
use techo_quant_options_pro.Execution.Models.{ExecutionResult}
use techo_quant_options_pro.Execution.Controller.Actions.{World, Setup, submit}
use techo_quant_options_pro.Exec.{Result, ok, raised, Exec, pure, lift, ◌>>=◌}
use techo_quant_options_pro.Domain.Models.{
  AtomicSnapshot, ContractSpec, PreviousOptionSnapshot, InstrumentMasterRecord, Hashing,
}
use techo_quant_options_pro.Validation.Issues.{ValidationReport}
use techo_quant_options_pro.Signals.Models.{SignalPipelineResult, TradePlan}
use techo_quant_options_pro.Signals.Adapters.{to_execution_plan}
use techo_quant_options_pro.Automation.History.{History, record_evaluation}

pub record AutomationRunResult : Type 0 where
  pub signal : SignalPipelineResult
  pub execution : Option ExecutionResult
  pub execution_blocked_reason : Option String

-- The signal service's `evaluate` for a snapshot, its report, the previous one and the time.
abbrev pub Evaluate : Type 0
Evaluate =
    AtomicSnapshot
    → ValidationReport
    → Option PreviousOptionSnapshot
    → DateTime
    → Result SignalPipelineResult

-- The service, with the hashes that its parts use.
pub record Service (G : Type 0) : Type 0 where
  pub evaluate : Evaluate
  pub setup : Setup G
  pub hash : Hashing
  pub result_hash : SignalPipelineResult → String

-- The state of the two objects that it drives.
pub record Automated (G : Type 0) : Type 0 where
  pub history : History
  pub world : World G

-- `execution_registry_for_contract`
abbrev pub execution_registry_for_contract : ContractSpec → List (String × String)
execution_registry_for_contract k =
    map (λ (r : InstrumentMasterRecord). (r.instrument.symbol, r.instrument.security_id))
      k.option_contracts

-- `except ExecutionBlockedError`, which has no subclasses.
abbrev pub run_result : SignalPipelineResult → Result ExecutionResult → Result AutomationRunResult
run_result signal (ok execution) =
    ok (record { signal = signal; execution = some execution; execution_blocked_reason = none })
run_result signal (raised ErrorKind.execution_blocked message) =
    ok (record { signal = signal; execution = none; execution_blocked_reason = some message })
run_result signal (raised kind message) = raised kind message

module _ {G : Type 0} where
  -- A method of the history, and one of the controller.
  unfoldable pub on_history : {A : Type 0} → Exec History A → Exec (Automated G) A
  on_history m a = let (r, h) = m a.history in (r, record a { history = h })

  unfoldable pub on_world : {A : Type 0} → Exec (World G) A → Exec (Automated G) A
  on_world m a = let (r, w) = m a.world in (r, record a { world = w })

  abbrev pub caught :
      SignalPipelineResult → Exec (World G) ExecutionResult → Exec (World G) AutomationRunResult
  caught signal m w = let (r, w') = m w in (run_result signal r, w')

  abbrev not_executed : SignalPipelineResult → Exec (Automated G) AutomationRunResult
  not_executed signal =
      pure (record { signal = signal; execution = none; execution_blocked_reason = none })

  abbrev pub execute :
      Service G
      → AtomicSnapshot
      → DateTime
      → SignalPipelineResult
      → TradePlan
      → Exec (Automated G) AutomationRunResult
  execute v s now signal plan = do
    execution_plan ←
        lift (to_execution_plan v.hash plan s (pos (30 * 1000000)) (pos (900 * 1000000)))
    on_world (caught signal (submit v.setup execution_plan now))

  unfoldable pub execute_plan :
      Service G
      → AtomicSnapshot
      → DateTime
      → SignalPipelineResult
      → Option TradePlan
      → Exec (Automated G) AutomationRunResult
  unfolding on_world
  execute_plan v s now signal none = not_executed signal
  execute_plan v s now signal (some plan) =
      if not plan.actionable then not_executed signal else execute v s now signal plan

  unfoldable pub process :
      Service G
      → AtomicSnapshot
      → ValidationReport
      → Option PreviousOptionSnapshot
      → DateTime
      → Exec (Automated G) AutomationRunResult
  unfolding on_history execute_plan
  process v s report previous now = do
    signal ← lift (v.evaluate s report previous now)
    id ← on_history (record_evaluation v.result_hash signal)
    execute_plan v s now signal signal.trade_plan
