-- ===== src/Execution/Controller/Invariants.antt =====
-- Predicates that every call of the controller keeps, behind one interface: what the ledger's
-- operations and a mutation that is sent must do for a predicate, and what follows for `submit`,
-- `approve`, the kill switch, `close_position`, and any sequence of them.
use techo_quant_options_pro.Prelude.{String, Bool, true, false, Option, none, some, List, ◌∷◌}
use techo_quant_options_pro.Decimal.{Decimal}
use techo_quant_options_pro.Time.{DateTime}
use techo_quant_options_pro.Execution.Errors.{ErrorKind}
use techo_quant_options_pro.Execution.Models.{
  ExecutionMode, Approval, BrokerOrder, BrokerFill, TradePlan, SignalExecutionState,
  LiveOrderAcknowledgement,
}
use techo_quant_options_pro.Execution.Ledger.Rows.{Ledger}
use techo_quant_options_pro.Execution.Ledger.Signals
use techo_quant_options_pro.Execution.Ledger.Signals.{
  record_signal, update_signal_state, record_approval,
}
use techo_quant_options_pro.Execution.Ledger.Orders.{record_execution}
use techo_quant_options_pro.Execution.Ledger.Positions.{close_position}
use techo_quant_options_pro.Execution.Controller.Policy.{ExecutionPolicy, Registry}
use techo_quant_options_pro.Execution.Controller.Gates.{check_kill_limits, trip, check_plan}
use techo_quant_options_pro.Execution.Controller.Live.{
  record_uncertain, record_acknowledgement, block, live_disabled, check_awaiting, stripped_approval,
}
use techo_quant_options_pro.Execution.Controller.Actions.{
  LiveGateway, World, Setup, Submitted, Reconciled, on_ledger, send, reconcile, execute_paper,
  after_lookup, after_send, execute_with, execute_live, dispatch, admit, submit, approve_plan,
  approve, set_kill_switch,
}
use techo_quant_options_pro.Exec.{Exec, ok, raised, Result}
use techo_quant_options_pro.Execution.Controller.OnLedger.{on_ledger-Triple}
use techo_quant_options_pro.Exec.Triple.{
  Ends, ends_same, Triple, Maintains, Maintains-lift, Maintains-gets, Triple-bind, Triple-if,
  Triple-weaken, maintains_rules,
}

module _ {G : Type 0} where
  -- One call on the controller or its ledger, with any configuration at each call.
  pub data Step (w : World G) : World G → Type 0 where
    submitting : (c : Setup G) (plan : TradePlan) (now : DateTime) → Step w (submit c plan now w).1
    approving :
        (c : Setup G) (id actor reason : String) (approval_time now : DateTime)
        → Step w (approve c id actor reason approval_time now w).1
    switching :
        (active : Bool) (actor reason : String) (now : DateTime)
        → Step w (set_kill_switch active actor reason now w).1
    closing :
        (id : String) (exit_price : Decimal) (now : DateTime)
        → Step w (on_ledger (close_position id exit_price now) w).1

  pub data Reach (w : World G) : World G → Type 0 where
    here : Reach w w
    next : {u v : World G} → Reach w u → Step u v → Reach w v

-- `Ready id` holds just after the signal of this correlation ID was recorded.
pub record IsKept (P : List String → Ledger → Type 0)
    (Ready : String → List String → Ledger → Type 0) : Type 0 where
  pub weaken : (id : String) (sent : List String) (l : Ledger) → Ready id sent l → P sent l
  pub sending : (id : String) (sent : List String) (l : Ledger) → Ready id sent l → P (id ∷ sent) l
  pub recording :
      (sent : List String) (plan : TradePlan) (state : SignalExecutionState) (now : DateTime)
      → Triple (P sent) (record_signal plan state now) (Ready plan.correlation_id sent) (P sent)
  pub updating :
      (sent : List String) (id : String) (state : SignalExecutionState) (now : DateTime)
      → Maintains (P sent) (update_signal_state id state now)
  pub approving : (sent : List String) (a : Approval) → Maintains (P sent) (record_approval a)
  pub switching :
      (sent : List String) (active : Bool) (reason actor : String) (now : DateTime)
      → Maintains (P sent) (Signals.set_kill_switch active reason actor now)
  pub executing :
      (sent : List String) (o : BrokerOrder) (fs : List BrokerFill) (now : DateTime)
      → Maintains (P sent) (record_execution o fs now)
  pub closing :
      (sent : List String) (id : String) (exit_price : Decimal) (now : DateTime)
      → Maintains (P sent) (close_position id exit_price now)

module _ {P : List String → Ledger → Type 0} {Ready : String → List String → Ledger → Type 0}
    (keep : IsKept P Ready) where
  module _ (sent : List String) where
    trip-keeps : (reason : String) (now : DateTime) → Maintains (P sent) (trip reason now)
    trip-keeps reason now = search (maintains_rules, keep.switching sent)

    check_kill_limits-keeps :
        (policy : ExecutionPolicy) (now : DateTime)
        → Maintains (P sent) (check_kill_limits policy now)
    unfolding check_kill_limits
    check_kill_limits-keeps policy now = search (maintains_rules, trip-keeps) depth 12

    -- A check that only reads.
    reads-keeps : (r : Ledger → Result (Unit {0})) → Maintains (P sent) (λ l. (r l, l))
    reads-keeps r = record { at = λ l h. stays (r l) l h }
      where
        stays : (r : Result (Unit {0})) (l : Ledger) → P sent l → Ends (P sent) (P sent) (r, l)
        stays (ok a) l h = h
        stays (raised k m) l h = h

    check_plan-keeps :
        (policy : ExecutionPolicy) (registry : Registry) (plan : TradePlan) (now : DateTime)
        (check_signal : Bool)
        → Maintains (P sent) (check_plan policy registry plan now check_signal)
    unfolding check_plan
    check_plan-keeps policy registry plan now check_signal = reads-keeps _

    check_awaiting-keeps :
        (id : String) (plan : TradePlan) (approval_time : DateTime)
        → Maintains (P sent) (check_awaiting id plan approval_time)
    unfolding check_awaiting
    check_awaiting-keeps id plan approval_time = reads-keeps _

    admit-Ready :
        {G : Type 0} (c : Setup G) (plan : TradePlan) (now : DateTime)
        → Triple (P sent) (admit c plan now) (Ready plan.correlation_id sent) (P sent)
    unfolding admit
    admit-Ready c plan now = Triple-bind _ _ (Maintains-lift _) λ _.
        Triple-bind _ _ (check_kill_limits-keeps c.policy now) λ _.
          Triple-bind _ _ (check_plan-keeps c.policy c.registry plan now true)
            λ _. keep.recording sent plan SignalExecutionState.received now

    execute_paper-keeps :
        {G : Type 0} (c : Setup G) (plan : TradePlan) (now : DateTime)
        → Maintains (P sent) (execute_paper c plan now)
    unfolding execute_paper
    execute_paper-keeps c plan now = search (maintains_rules, keep.executing sent) depth 9

    record_uncertain-keeps :
        (plan : TradePlan) (now : DateTime) → Maintains (P sent) (record_uncertain plan now)
    unfolding record_uncertain
    record_uncertain-keeps plan now =
        search (maintains_rules, keep.executing sent, keep.updating sent) depth 9

    record_acknowledgement-keeps :
        (plan : TradePlan) (now : DateTime) (a : LiveOrderAcknowledgement)
        → Maintains (P sent) (record_acknowledgement plan now a)
    unfolding record_acknowledgement
    record_acknowledgement-keeps plan now a = search (maintains_rules, keep.executing sent) depth 11

    block-keeps :
        (plan : TradePlan) (now : DateTime) (kind : ErrorKind) (message : String)
        → Maintains (P sent) (block plan now kind message)
    unfolding block
    block-keeps plan now kind message = search (maintains_rules, keep.updating sent)

    approve_plan-keeps :
        {G : Type 0} (c : Setup G) (id actor reason : String) (approval_time now : DateTime)
        (plan : Option TradePlan)
        → Maintains (P sent) (approve_plan c id actor reason approval_time now plan)
    unfolding approve_plan
    approve_plan-keeps c id actor reason approval_time now none = search maintains_rules
    approve_plan-keeps c id actor reason approval_time now (some plan) =
        Triple-bind _ _ (check_awaiting-keeps id plan approval_time) λ _.
          Triple-bind _ _ (check_kill_limits-keeps c.policy now) λ _.
            Triple-bind _ _ (check_plan-keeps c.policy c.registry plan now false) λ _.
              Triple-bind _ _
                (keep.approving sent (stripped_approval id actor reason approval_time))
                λ _. execute_paper-keeps c plan now

  module _ {G : Type 0} where
    abbrev pub Kept : World G → Type 0
    Kept w = P w.sent w.ledger

    abbrev Fresh : String → World G → Type 0
    Fresh id w = Ready id w.sent w.ledger

    on_ledger-keeps :
        {A : Type 0} (m : Exec Ledger A)
        → ((sent : List String) → Maintains (P sent) m)
        → Maintains Kept (on_ledger m)
    on_ledger-keeps m t = on_ledger-Triple m t

    -- A mutation goes out only just after its signal was recorded.
    send-keeps :
        (live : LiveGateway G) (plan : TradePlan)
        → Triple (Fresh plan.correlation_id) (send live plan) Kept Kept
    unfolding send
    send-keeps live plan = record { at = λ w h. keep.sending plan.correlation_id w.sent w.ledger h }

    reconcile-keeps :
        (live : LiveGateway G) (plan : TradePlan) → Maintains Kept (reconcile live plan)
    unfolding reconcile
    reconcile-keeps live plan = record { at = λ w h. h }

    after_lookup-keeps :
        (plan : TradePlan) (now : DateTime) (r : Reconciled)
        → Maintains {S = World G} Kept (after_lookup plan now r)
    after_lookup-keeps plan now (Reconciled.found a) = search maintains_rules
    after_lookup-keeps plan now Reconciled.absent =
        on_ledger-keeps _ (λ sent. record_uncertain-keeps sent plan now)
    after_lookup-keeps plan now (Reconciled.failed e) = search maintains_rules

    after_send-keeps :
        (live : LiveGateway G) (plan : TradePlan) (now : DateTime) (r : Submitted)
        → Maintains Kept (after_send live plan now r)
    after_send-keeps live plan now (Submitted.acknowledged a) = search maintains_rules
    after_send-keeps live plan now Submitted.timed_out =
        Triple-bind _ _ (reconcile-keeps live plan) (after_lookup-keeps plan now)
    after_send-keeps live plan now (Submitted.failed e) = search maintains_rules

    -- Where nothing is sent, that the signal is new is not used.
    ledger_only :
        {A : Type 0} (id : String) (m : Exec Ledger A)
        → ((sent : List String) → Maintains (P sent) m)
        → Triple (Fresh id) (on_ledger {G = G} m) Kept Kept
    ledger_only id m t =
        Triple-weaken _ (λ w h. keep.weaken id w.sent w.ledger h) (λ w h. h) (λ w h. h)
          (on_ledger-keeps m t)

    execute_with-keeps :
        (live : Option (LiveGateway G)) (plan : TradePlan) (now : DateTime)
        → Triple (Fresh plan.correlation_id) (execute_with live plan now) Kept Kept
    execute_with-keeps none plan now =
        ledger_only plan.correlation_id _ (λ sent. block-keeps sent plan now _ _)
    execute_with-keeps (some live) plan now = Triple-bind _ _ (send-keeps live plan) λ answer.
        Triple-bind _ _ (after_send-keeps live plan now answer)
          λ a. on_ledger-keeps _ (λ sent. record_acknowledgement-keeps sent plan now a)

    execute_live-keeps :
        (c : Setup G) (plan : TradePlan) (now : DateTime)
        → Triple (Fresh plan.correlation_id) (execute_live c plan now) Kept Kept
    unfolding execute_live
    execute_live-keeps c plan now =
        Triple-if c.policy.live_enabled (execute_with c.live plan now)
          (on_ledger (live_disabled plan now)) (λ _. execute_with-keeps c.live plan now)
          (λ _. ledger_only plan.correlation_id _ (λ sent. block-keeps sent plan now _ _))

    pub dispatch-keeps :
        (mode : ExecutionMode) (c : Setup G) (plan : TradePlan) (now : DateTime)
        → Triple (Fresh plan.correlation_id) (dispatch mode c plan now) Kept Kept
    unfolding dispatch
    dispatch-keeps ExecutionMode.off c plan now =
        ledger_only plan.correlation_id _ (λ sent. block-keeps sent plan now _ _)
    dispatch-keeps ExecutionMode.data_only c plan now =
        ledger_only plan.correlation_id _ (λ sent. block-keeps sent plan now _ _)
    dispatch-keeps ExecutionMode.manual_approval c plan now =
        ledger_only plan.correlation_id _ (λ sent. search (maintains_rules, keep.updating sent))
    dispatch-keeps ExecutionMode.paper_trading c plan now =
        ledger_only plan.correlation_id _ (λ sent. execute_paper-keeps sent c plan now)
    dispatch-keeps ExecutionMode.live_automatic c plan now = execute_live-keeps c plan now

    -- `submit` keeps the predicate, on every path.
    pub submit-keeps :
        (c : Setup G) (plan : TradePlan) (now : DateTime) → Maintains Kept (submit c plan now)
    unfolding submit
    submit-keeps c plan now =
        Triple-bind _ _ (on_ledger-Triple _ (λ sent. admit-Ready sent c plan now))
          (λ _. dispatch-keeps c.policy.mode c plan now)

    pub approve-keeps :
        (c : Setup G) (id actor reason : String) (approval_time now : DateTime)
        → Maintains Kept (approve c id actor reason approval_time now)
    unfolding approve
    approve-keeps c id actor reason approval_time now = on_ledger-keeps _ λ sent.
        Triple-bind _ _ (Maintains-lift _) λ _.
          Triple-bind _ _ (Maintains-gets (Signals.plan id))
            λ plan. approve_plan-keeps sent c id actor reason approval_time now plan

    pub set_kill_switch-keeps :
        (active : Bool) (actor reason : String) (now : DateTime)
        → Maintains {S = World G} Kept (set_kill_switch active actor reason now)
    unfolding set_kill_switch
    set_kill_switch-keeps active actor reason now =
        on_ledger-keeps _ λ sent. keep.switching sent active reason actor now

    pub close-keeps :
        (id : String) (exit_price : Decimal) (now : DateTime)
        → Maintains {S = World G} Kept (on_ledger (close_position id exit_price now))
    close-keeps id exit_price now = on_ledger-keeps _ λ sent. keep.closing sent id exit_price now

    after :
        {A : Type 0} (m : Exec (World G) A) (w : World G) → Maintains Kept m → Kept w → Kept (m w).1
    after m w t h = ends_same Kept (m w) (t.at w h)

    Step-keeps : {u v : World G} → Step u v → Kept u → Kept v
    Step-keeps {u} (submitting c plan now) h = after _ u (submit-keeps c plan now) h
    Step-keeps {u} (approving c id actor reason approval_time now) h =
        after _ u (approve-keeps c id actor reason approval_time now) h
    Step-keeps {u} (switching active actor reason now) h =
        after {A = Unit {0}} _ u (set_kill_switch-keeps active actor reason now) h
    Step-keeps {u} (closing id exit_price now) h = after _ u (close-keeps id exit_price now) h

    pub Reach-keeps : {u v : World G} → Reach u v → Kept u → Kept v
    Reach-keeps here h = h
    Reach-keeps (next r s) h = Step-keeps s (Reach-keeps r h)
