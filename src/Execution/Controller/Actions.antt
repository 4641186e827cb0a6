-- ===== src/Execution/Controller/Actions.antt =====
-- `submit`, `approve` and `set_kill_switch` of execution/controller.py, with the paper and the
-- live execution. The live gateway is not part of the repository: it is a parameter.
use techo_quant_options_pro.Prelude.{
  String, Bool, true, false, ◌||◌, not, Option, none, some, List, ◌∷◌, if◌then◌else◌,
}
use techo_quant_options_pro.Text.{is_blank}
use techo_quant_options_pro.Time.{DateTime, exceeds}
use techo_quant_options_pro.Execution.Errors.{ErrorKind}
use techo_quant_options_pro.Execution.Models.{
  ExecutionMode, SignalExecutionState, TradePlan, ExecutionResult, LiveOrderAcknowledgement,
}
use techo_quant_options_pro.Execution.Ledger.Rows.{Ledger}
use techo_quant_options_pro.Execution.Ledger.Signals
use techo_quant_options_pro.Execution.Ledger.Signals.{
  record_signal, update_signal_state, record_approval,
}
use techo_quant_options_pro.Execution.Ledger.Orders.{record_execution}
use techo_quant_options_pro.Execution.Paper
use techo_quant_options_pro.Execution.Paper.{PaperBrokerConfig}
use techo_quant_options_pro.Execution.Controller.Policy.{ExecutionPolicy, Registry}
use techo_quant_options_pro.Execution.Controller.Live.{
  executed, awaiting, record_uncertain, record_acknowledgement, block, check_awaiting,
  stripped_approval, live_disabled, is_manual,
}
use techo_quant_options_pro.Execution.Controller.Gates.{
  check_kill_limits, check_plan, require_aware,
}
use techo_quant_options_pro.Exec.{
  Result, Exec, ok, raise_if, ◌then_check◌, pure, raise, lift, gets, ◌>>=◌, ◌>>◌,
}

-- How a mutation that was sent to the gateway ends, and how a lookup by its correlation does.
pub data Submitted : Type 0 where
  acknowledged : LiveOrderAcknowledgement → Submitted
  timed_out : Submitted
  failed : String → Submitted

pub data Reconciled : Type 0 where
  found : LiveOrderAcknowledgement → Reconciled
  absent : Reconciled
  failed : String → Reconciled

-- `LiveBrokerGateway`, over a state of its own.
pub record LiveGateway (G : Type 0) : Type 0 where
  pub submit_order : TradePlan → String → G → Submitted × G
  pub lookup_by_correlation : String → G → Reconciled × G

pub record World (G : Type 0) : Type 0 where
  pub ledger : Ledger
  pub gateway : G
  -- the correlation IDs of the mutations sent, the newest first
  pub sent : List String

-- The controller's configuration: `policy`, `_instrument_registry`, `_paper` and `_live`.
pub record Setup (G : Type 0) : Type 0 where
  pub policy : ExecutionPolicy
  pub registry : Registry
  pub paper : PaperBrokerConfig
  pub live : Option (LiveGateway G)
  -- the first 20 hexadecimal digits of a text's SHA-256
  pub digest : String → String

module _ {G : Type 0} where
  -- A method of `self.ledger`.
  unfoldable pub on_ledger : {A : Type 0} → Exec Ledger A → Exec (World G) A
  on_ledger m w = let (r, l) = m w.ledger in (r, record w { ledger = l })

  -- `self._live.submit_order`: whatever comes back, the mutation was sent.
  unfoldable pub send : LiveGateway G → TradePlan → Exec (World G) Submitted
  send live plan w =
      let (answer, g) = live.submit_order plan plan.correlation_id w.gateway in
      (ok answer, record w { gateway = g; sent = plan.correlation_id ∷ w.sent })

  unfoldable pub reconcile : LiveGateway G → TradePlan → Exec (World G) Reconciled
  reconcile live plan w =
      let (answer, g) = live.lookup_by_correlation plan.correlation_id w.gateway in
      (ok answer, record w { gateway = g })

  unfoldable pub execute_paper : Setup G → TradePlan → DateTime → Exec Ledger ExecutionResult
  execute_paper c plan now = do
    placed ← lift (Paper.submit c.digest c.paper plan now)
    record_execution placed.0 placed.1 now
    pure (executed plan placed.0 placed.1)

  abbrev pub after_lookup :
      TradePlan → DateTime → Reconciled → Exec (World G) LiveOrderAcknowledgement
  after_lookup plan now (Reconciled.found a) = pure a
  after_lookup plan now Reconciled.absent = on_ledger (record_uncertain plan now)
  after_lookup plan now (Reconciled.failed e) = raise ErrorKind.gateway_error e

  abbrev pub after_send :
      LiveGateway G → TradePlan → DateTime → Submitted → Exec (World G) LiveOrderAcknowledgement
  after_send live plan now (Submitted.acknowledged a) = pure a
  after_send live plan now Submitted.timed_out = reconcile live plan >>= after_lookup plan now
  after_send live plan now (Submitted.failed e) = raise ErrorKind.gateway_error e

  abbrev pub execute_with :
      Option (LiveGateway G) → TradePlan → DateTime → Exec (World G) ExecutionResult
  execute_with none plan now =
      on_ledger
        (block plan now ErrorKind.live_execution_disabled "no live broker gateway is configured")
  execute_with (some live) plan now = do
    answer ← send live plan
    a ← after_send live plan now answer
    on_ledger (record_acknowledgement plan now a)

  unfoldable pub execute_live : Setup G → TradePlan → DateTime → Exec (World G) ExecutionResult
  execute_live c plan now =
      if c.policy.live_enabled
      then execute_with c.live plan now
      else on_ledger (live_disabled plan now)

  unfoldable pub dispatch :
      ExecutionMode → Setup G → TradePlan → DateTime → Exec (World G) ExecutionResult
  dispatch ExecutionMode.off c plan now =
      on_ledger
        (block plan now ErrorKind.execution_blocked "execution mode OFF does not submit orders")
  dispatch ExecutionMode.data_only c plan now =
      on_ledger (
        block plan now ErrorKind.execution_blocked
          "execution mode DATA_ONLY does not submit orders")
  dispatch ExecutionMode.manual_approval c plan now = on_ledger (do
    update_signal_state plan.signal_id SignalExecutionState.awaiting_approval now
    pure (awaiting plan))
  dispatch ExecutionMode.paper_trading c plan now = on_ledger (execute_paper c plan now)
  dispatch ExecutionMode.live_automatic c plan now = execute_live c plan now

  -- The gates, and the record of the signal.
  unfoldable pub admit : Setup G → TradePlan → DateTime → Exec Ledger (Unit {0})
  admit c plan now = do
    lift (require_aware now "execution time must be timezone-aware")
    check_kill_limits c.policy now
    check_plan c.policy c.registry plan now true
    record_signal plan SignalExecutionState.received now

  unfoldable pub submit : Setup G → TradePlan → DateTime → Exec (World G) ExecutionResult
  submit c plan now = do on_ledger (admit c plan now); dispatch c.policy.mode c plan now

  -- `approve` once the plan was read from the ledger.
  unfoldable pub approve_plan :
      Setup G
      → String
      → String
      → String
      → DateTime
      → DateTime
      → Option TradePlan
      → Exec Ledger ExecutionResult
  approve_plan c id actor reason approval_time now none =
      raise ErrorKind.approval_error "signal does not exist"
  approve_plan c id actor reason approval_time now (some plan) = do
    check_awaiting id plan approval_time
    check_kill_limits c.policy now
    check_plan c.policy c.registry plan now false
    record_approval (stripped_approval id actor reason approval_time)
    execute_paper c plan now

  -- The checks of `approve` that need no ledger.
  abbrev pub approval_checks : Setup G → String → String → DateTime → DateTime → Result (Unit {0})
  approval_checks c actor reason approval_time now =
      raise_if (not (is_manual c.policy.mode)) ErrorKind.approval_error
        "manual approval is only valid in MANUAL_APPROVAL mode"
      then_check require_aware now "execution time must be timezone-aware"
      then_check require_aware approval_time "approval time must be timezone-aware"
      then_check raise_if (is_blank actor || is_blank reason) ErrorKind.approval_error
          "manual approval requires actor and reason"
      then_check raise_if (exceeds approval_time now c.policy.future_clock_skew)
          ErrorKind.approval_error "approval timestamp is in the future"

  unfoldable pub approve :
      Setup G → String → String → String → DateTime → DateTime → Exec (World G) ExecutionResult
  approve c id actor reason approval_time now = on_ledger (do
    lift (approval_checks c actor reason approval_time now)
    plan ← gets (Signals.plan id)
    approve_plan c id actor reason approval_time now plan)

  unfoldable pub set_kill_switch : Bool → String → String → DateTime → Exec (World G) (Unit {0})
  set_kill_switch active actor reason changed_at =
      on_ledger (Signals.set_kill_switch active reason actor changed_at)
