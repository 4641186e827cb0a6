-- ===== src/Execution/Tests.antt =====
-- The theorems at concrete inputs.
use techo_quant_options_pro.Prelude.{
  any, none, some, [], ◌∷◌, ◌≡◌, refl, true, false, inl, ◌⊎◌, ◌↔◌, Distinct, pos, negsuc, ◌+ℤ◌,
  ◌-ℤ◌, ◌*ℤ◌, arith, Option, List,
}
use techo_quant_options_pro.Text.{is_blank, is_empty, strip}
use techo_quant_options_pro.Time.{utc_day}
use techo_quant_options_pro.Decimal.{
  Decimal, integer, finite, less, less_eq, mul, add, sub, divide, negate, quantize_4, is_finite,
  floor,
}
use techo_quant_options_pro.Exec.{ok, raised, transaction}
use techo_quant_options_pro.Exec.Outcome.{IsRaised}
use techo_quant_options_pro.Execution.Errors.{ErrorKind}
use techo_quant_options_pro.Execution.Fixtures.{
  at, plan, policy, setup, world, gateway, acknowledgement,
}
use techo_quant_options_pro.Execution.Models.{
  LiveOrderAcknowledgement, SignalExecutionState, ExecutionMode, BrokerOrder, BrokerFill, Position,
}
use techo_quant_options_pro.Execution.Ledger.Rows.{Ledger, event}
use techo_quant_options_pro.Execution.Ledger.Signals
use techo_quant_options_pro.Execution.Ledger.Signals.{
  approves, update_signal_state, record_approval, insert_approval, signal_state, record_signal,
  insert_signal, signal_exists,
}
use techo_quant_options_pro.Execution.Ledger.Orders.{
  record_execution, order_violates, fill_violates, position_violates,
}
use techo_quant_options_pro.Execution.Ledger.Positions.{
  close_position, daily_realized_pnl, consecutive_losses,
}
use techo_quant_options_pro.Execution.Ledger.Consistency.{IsConsistent, Known}
use techo_quant_options_pro.Execution.Ledger.Effects.{
  executed_ledger, opened_position, as_position, record_execution-ok,
}
use techo_quant_options_pro.Execution.Paper
use techo_quant_options_pro.Execution.Paper.{paper_order, paper_fills}
use techo_quant_options_pro.Execution.Paper.Fills.{Agrees, submit-Agrees}
use techo_quant_options_pro.Execution.Controller.Policy.{lookup}
use techo_quant_options_pro.Execution.Controller.Gates.{
  require_aware, check_kill_limits, check_daily_loss, check_loss_streak, check_plan, validate_plan,
  validate_names, validate_size, validate_aware, validate_times, validate_risk,
}
use techo_quant_options_pro.Execution.Controller.Live.{
  check_awaiting, executed, live_order, unknown_acknowledgement,
}
use techo_quant_options_pro.Execution.Controller.Actions
use techo_quant_options_pro.Execution.Controller.Actions.{
  approve, approve_plan, World, Setup, Submitted, submit, on_ledger, admit, dispatch, execute_paper,
  set_kill_switch,
}
use techo_quant_options_pro.Execution.Controller.Invariants.{Reach, Step}
use techo_quant_options_pro.Execution.Controller.Safety.{sent_at_most_once}
use techo_quant_options_pro.Execution.Controller.Duplicates.{resubmission_refused}
use techo_quant_options_pro.Execution.Controller.Halted.{Frozen, Trade, Trades, killed_stays_killed}
use techo_quant_options_pro.Execution.Controller.KillSwitch.{
  tripped, submit_daily_limit, submit_streak_limit,
}
use techo_quant_options_pro.Execution.Controller.Admission.{IsAdmissible, validate_plan_iff}
use techo_quant_options_pro.Execution.Controller.PaperResults.{Reports, submit_paper-Reports}
use techo_quant_options_pro.Execution.Controller.Approvals.{approved_once}
use techo_quant_options_pro.Execution.Controller.Uncertain.{
  foreign_acknowledgement, timed_out_unresolved,
}
use techo_quant_options_pro.Execution.Controller.Modes.{book, submit_without_trading}

abbrev live_run : World Submitted
live_run =
    (submit (setup ExecutionMode.live_automatic) (plan "s-1") (at 100000)
      (world Submitted.timed_out)).1

sent_at_most_once_example : IsConsistent live_run.ledger × Distinct (λ id. id) live_run.sent
sent_at_most_once_example = sent_at_most_once (at 0) Submitted.timed_out live_run (
    Reach.next Reach.here
      (Step.submitting (setup ExecutionMode.live_automatic) (plan "s-1") (at 100000)))

abbrev paper_setup : Setup Submitted
paper_setup = setup ExecutionMode.paper_trading

abbrev start : World Submitted
start = world Submitted.timed_out

abbrev paper_run : World Submitted
paper_run = (submit paper_setup (plan "s-1") (at 100000) start).1

-- Half of the 75 contracts, bought five basis points above the limit.
abbrev half_order : BrokerOrder
half_order = paper_order (λ s. s) (plan "s-1") 37 (finite (pos 1005502) 4) (at 100000)

abbrev half_fills : List BrokerFill
half_fills = paper_fills (λ s. s) (plan "s-1") 37 (finite (pos 1005502) 4) (at 100000)

abbrev lost_run : World Submitted
lost_run =
    (on_ledger (close_position "position-paper-order-s-1" (integer (pos 50)) (at 100010))
      paper_run).1

abbrev loss : Decimal
loss = finite (negsuc 18703573) 4

-- What the run shows: its result, that its signal is known, and the loss once it was closed.
record RunFacts : Type 0 where
  returned :
      (submit paper_setup (plan "s-1") (at 100000) start).0
      ≡ ok (executed (plan "s-1") half_order half_fills)
  known : Known paper_run.ledger.signals "s-1"
  idle : lost_run.ledger.kill_switch.active ≡ false
  pnl : daily_realized_pnl (utc_day (at 100020)) lost_run.ledger ≡ ok loss
  losses : consecutive_losses lost_run.ledger ≡ ok 1

run_facts : RunFacts
unfolding Actions.submit on_ledger admit require_aware check_kill_limits check_daily_loss
    check_loss_streak daily_realized_pnl consecutive_losses check_plan validate_plan lookup
    validate_names validate_size validate_aware validate_times validate_risk record_signal
    insert_signal transaction is_blank dispatch execute_paper Paper.submit record_execution event
    less_eq less mul add sub divide negate quantize_4 is_finite floor ◌+ℤ◌ ◌-ℤ◌ ◌*ℤ◌ order_violates
    fill_violates position_violates close_position
run_facts = record { returned = refl; known = refl; idle = refl; pnl = refl; losses = refl }

resubmission_refused_example :
    let (r, v) = submit paper_setup (plan "s-1") (at 100005) paper_run in
    IsRaised r
    × (v.ledger.signals ≡ paper_run.ledger.signals)
    × (v.ledger.orders ≡ paper_run.ledger.orders)
    × (v.sent ≡ paper_run.sent)
resubmission_refused_example =
    resubmission_refused {u = paper_run} {w = paper_run} paper_setup (plan "s-1") (at 100005)
      run_facts.known Reach.here

abbrev killed : World Submitted
killed = (set_kill_switch true "ops" "halt" (at 1) start).1

killed_active : killed.ledger.kill_switch.active ≡ true
unfolding Actions.set_kill_switch on_ledger Signals.set_kill_switch transaction is_blank event
killed_active = refl

killed_stays_killed_example : Frozen killed (submit paper_setup (plan "s-1") (at 100000) killed).1
killed_stays_killed_example =
    killed_stays_killed killed_active
      (Trades.next Trades.here (Trade.submitting paper_setup (plan "s-1") (at 100000)))

-- The daily limit below the loss of the run, and a limit of one losing position.
abbrev strict_setup : Setup Submitted
strict_setup = record paper_setup {
  policy = record (policy ExecutionMode.paper_trading) { max_daily_loss = integer (pos 1000) };
}

abbrev streak_setup : Setup Submitted
streak_setup = record paper_setup {
  policy = record (policy ExecutionMode.paper_trading) { max_consecutive_losses = 1 };
}

loss_reached : less_eq loss (negate (integer (pos 1000))) ≡ true
unfolding less_eq negate
loss_reached = refl

loss_within : less_eq loss (negate (integer (pos 100000))) ≡ false
unfolding less_eq negate
loss_within = refl

submit_daily_limit_example : submit strict_setup (plan "s-2") (at 100020) lost_run ≡ (
  raised ErrorKind.kill_switch_error "daily loss limit reached",
  record lost_run { ledger = tripped "daily loss limit reached" (at 100020) lost_run.ledger },
)
submit_daily_limit_example =
    submit_daily_limit strict_setup (plan "s-2") (at 100020) lost_run refl run_facts.idle
      run_facts.pnl loss_reached

submit_streak_limit_example : submit streak_setup (plan "s-2") (at 100020) lost_run ≡ (
  raised ErrorKind.kill_switch_error "consecutive loss limit reached",
  record lost_run { ledger = tripped "consecutive loss limit reached" (at 100020) lost_run.ledger },
)
submit_streak_limit_example =
    submit_streak_limit streak_setup (plan "s-2") (at 100020) lost_run refl run_facts.idle
      run_facts.pnl loss_within run_facts.losses (omega arith)

validate_plan_iff_example :
    (validate_plan
        (policy ExecutionMode.paper_trading)
        paper_setup.registry
        (plan "s-2")
        (at 100000)
        true
        start.ledger
      ≡ ok tt)
    ↔ ((signal_exists "s-2" start.ledger ≡ false)
        × IsAdmissible
            (policy ExecutionMode.paper_trading)
            paper_setup.registry
            (plan "s-2")
            (at 100000)
            start.ledger)
validate_plan_iff_example =
    validate_plan_iff (policy ExecutionMode.paper_trading) paper_setup.registry (plan "s-2")
      (at 100000) start.ledger

submit_paper-Reports_example :
    Reports paper_setup
      (plan "s-1")
      (at 100000)
      (executed (plan "s-1") half_order half_fills)
      paper_run.ledger
    × (paper_run.sent ≡ start.sent)
submit_paper-Reports_example =
    submit_paper-Reports paper_setup (plan "s-1") (at 100000) start
      (executed (plan "s-1") half_order half_fills) refl run_facts.returned

submit_without_trading_example :
    let (r, v) = submit (setup ExecutionMode.off) (plan "s-1") (at 100000) start in
    IsRaised r × (book v.ledger ≡ book start.ledger) × (v.sent ≡ start.sent)
submit_without_trading_example =
    submit_without_trading (setup ExecutionMode.off) (plan "s-1") (at 100000) start (inl refl)

half_placed :
    Paper.submit (λ s. s) paper_setup.paper (plan "s-1") (at 100000) ≡ ok (half_order, half_fills)
unfolding Paper.submit less mul add sub divide negate quantize_4 floor ◌+ℤ◌ ◌-ℤ◌ ◌*ℤ◌
half_placed = refl

submit-Agrees_example : Agrees (plan "s-1") half_order half_fills
submit-Agrees_example =
    submit-Agrees (λ s. s) paper_setup.paper (plan "s-1") (at 100000) (half_order, half_fills)
      half_placed

-- The ledger with the signal of the plan.
abbrev received : Ledger
received = (admit paper_setup (plan "s-1") (at 100000) start.ledger).1

abbrev half_opened : Option Position
half_opened = as_position (opened_position half_order half_order.average_fill_price (at 100000))

half_recorded : (record_execution half_order half_fills (at 100000) received).0 ≡ ok half_opened
unfolding admit require_aware check_kill_limits check_daily_loss check_loss_streak
    daily_realized_pnl consecutive_losses check_plan validate_plan lookup validate_names
    validate_size validate_aware validate_times validate_risk record_signal insert_signal
    transaction is_blank record_execution event less_eq less mul add sub divide negate quantize_4
    is_finite floor ◌+ℤ◌ ◌-ℤ◌ ◌*ℤ◌ order_violates fill_violates position_violates
half_recorded = refl

record_execution-ok_example :
    record_execution half_order half_fills (at 100000) received
    ≡ (ok half_opened, executed_ledger half_order half_fills (at 100000) received)
record_execution-ok_example =
    record_execution-ok half_order half_fills (at 100000) received half_opened half_recorded

abbrev live_setup : Setup Submitted
live_setup = setup ExecutionMode.live_automatic

abbrev live_received : Ledger
live_received = (admit live_setup (plan "s-1") (at 100000) start.ledger).1

abbrev unknown_order : BrokerOrder
unknown_order = live_order (plan "s-1") (unknown_acknowledgement (plan "s-1")) (at 100000)

abbrev unknown_recorded : Ledger
unknown_recorded = (record_execution unknown_order [] (at 100000) live_received).1

-- The live plan is admitted, and the order of unknown outcome can be recorded.
record LiveFacts : Type 0 where
  admitted : admit live_setup (plan "s-1") (at 100000) start.ledger ≡ (ok tt, live_received)
  recorded :
      record_execution unknown_order [] (at 100000) live_received ≡ (ok none, unknown_recorded)

live_facts : LiveFacts
unfolding admit require_aware check_kill_limits check_daily_loss check_loss_streak
    daily_realized_pnl consecutive_losses check_plan validate_plan lookup validate_names
    validate_size validate_aware validate_times validate_risk record_signal insert_signal
    transaction is_blank record_execution event less_eq less mul add sub divide negate quantize_4
    is_finite floor ◌+ℤ◌ ◌-ℤ◌ ◌*ℤ◌ order_violates fill_violates position_violates
live_facts = record { admitted = refl; recorded = refl }

abbrev foreign : LiveOrderAcknowledgement
foreign = record acknowledgement { correlation_id = "other" }

foreign_acknowledgement_example :
    let (r, v) =
      submit live_setup (plan "s-1") (at 100000) (world (Submitted.acknowledged foreign)) in
    IsRaised r
    × (book v.ledger ≡ book start.ledger)
    × ((IsRaised (admit live_setup (plan "s-1") (at 100000) start.ledger).0 × (v.sent ≡ []))
        ⊎ ((v.sent ≡ "s-1" ∷ [])
            × (signal_state "s-1" v.ledger ≡ some SignalExecutionState.received)))
foreign_acknowledgement_example =
    foreign_acknowledgement live_setup (plan "s-1") (at 100000)
      (world (Submitted.acknowledged foreign)) gateway refl refl refl refl refl

timed_out_unresolved_example :
    let (r, v) = submit live_setup (plan "s-1") (at 100000) start in
    IsRaised r
    × (signal_state "s-1" v.ledger ≡ some SignalExecutionState.uncertain)
    × (v.sent ≡ "s-1" ∷ [])
timed_out_unresolved_example =
    timed_out_unresolved live_setup (plan "s-1") (at 100000) start gateway refl refl refl refl
      live_facts.admitted refl refl live_facts.recorded

abbrev manual_setup : Setup Submitted
manual_setup = setup ExecutionMode.manual_approval

-- The plan waits for its approval, and is approved.
abbrev approved_run : World Submitted
approved_run =
    (approve manual_setup "s-1" "ops" "checked" (at 100001) (at 100002)
      (submit manual_setup (plan "s-1") (at 100000) start).1).1

approval_recorded : any (approves "s-1") approved_run.ledger.approvals ≡ true
unfolding Actions.submit on_ledger admit require_aware check_kill_limits check_daily_loss
    check_loss_streak daily_realized_pnl consecutive_losses check_plan validate_plan lookup
    validate_names validate_size validate_aware validate_times validate_risk record_signal
    insert_signal transaction is_blank dispatch execute_paper Paper.submit record_execution event
    less_eq less mul add sub divide negate quantize_4 is_finite floor ◌+ℤ◌ ◌-ℤ◌ ◌*ℤ◌ order_violates
    fill_violates position_violates update_signal_state approve approve_plan check_awaiting
    record_approval insert_approval is_empty strip
approval_recorded = refl

approved_once_example :
    let (r, v) = approve manual_setup "s-1" "ops" "again" (at 100003) (at 100004) approved_run in
    IsRaised r × (book v.ledger ≡ book approved_run.ledger) × (v.sent ≡ approved_run.sent)
approved_once_example =
    approved_once manual_setup "s-1" "ops" "again" (at 100003) (at 100004) approved_run
      approval_recorded
