-- ===== src/Execution/Controller/PaperResults.antt =====
-- What `submit` and `approve` report of a paper execution is what the ledger holds.
use techo_quant_options_pro.Prelude.{
  String, true, ◌≡◌, ◌∙◌, refl, sym, ap, subst, Option, some, List, [], ◌∷◌, any, find,
  update_where, str_eq, arith,
}
use techo_quant_options_pro.Time.{DateTime}
use techo_quant_options_pro.Execution.Models.{
  ExecutionMode, SignalExecutionState, TradePlan, BrokerOrder, BrokerFill, ExecutionResult,
  Position,
}
use techo_quant_options_pro.Execution.Ledger.Rows.{Ledger, SignalRow, Payload, timestamp}
use techo_quant_options_pro.Execution.Ledger.Signals.{
  has_signal_id, with_state, stored_state, signal_state, record_signal, insert_signal, signal_row,
}
use techo_quant_options_pro.Execution.Ledger.Orders.{execution_state, record_execution}
use techo_quant_options_pro.Execution.Ledger.Effects.{executed_ledger, record_execution-ok}
use techo_quant_options_pro.Execution.Ledger.Consistency.{Known}
use techo_quant_options_pro.Execution.Paper
use techo_quant_options_pro.Execution.Paper.{order_state}
use techo_quant_options_pro.Execution.Paper.Fills.{Agrees, submit-Agrees, StateSays-order_state}
use techo_quant_options_pro.Execution.Controller.Live.{result_state, executed}
use techo_quant_options_pro.Execution.Controller.Actions.{
  World, Setup, on_ledger, execute_paper, dispatch, admit, submit,
}
use techo_quant_options_pro.Exec.{Result, ok, raised, Exec, lift}
use techo_quant_options_pro.Exec.Outcome.{bind-ok, ok_injective}
use techo_quant_options_pro.Exec.Triple.{
  Ends, ends_ok, Triple, Maintains-lift, Triple-bind, Triple-guarded, Triple-transaction,
  Triple-weaken,
}
use techo_quant_options_pro.Text.{eq→str_eq}
use techo_quant_options_pro.Execution.Ledger.Retention.{event-retained}
use techo_quant_options_pro.Execution.Controller.Duplicates.{Known-IsRetained}
use techo_quant_options_pro.Execution.Controller.Gates.{check_kill_limits, check_plan}

-- The two ways in which the code names the outcome of an order.
states_agree :
    (o : BrokerOrder)
    → o.state ≡ order_state o.filled_quantity o.quantity
    → execution_state o ≡ result_state o
states_agree o h = ground arith

-- The row of a signal after its state was set.
pub find-with_state :
    (id : String) (state : SignalExecutionState) (when : DateTime) (rows : List SignalRow)
    → Known rows id
    → stored_state
        (find (has_signal_id id) (update_where (has_signal_id id) (with_state state when) rows))
      ≡ some state
find-with_state id state when [] h = cc
find-with_state id state when (row ∷ rows) h = ground (arith, find-with_state id state when rows)

module _ {G : Type 0} (c : Setup G) (plan : TradePlan) (now : DateTime) where
  -- What is known of a result and of the ledger behind it.
  pub record Reports (r : ExecutionResult) (l : Ledger) : Type 0 where
    pub order : BrokerOrder
    pub fills : List BrokerFill
    pub placed : r ≡ executed plan order fills
    pub agrees : Agrees plan order fills
    pub stored : any (λ o. str_eq o.order_id order.order_id) l.orders ≡ true
    pub state : signal_state plan.signal_id l ≡ some r.state

  execute_paper-ok :
      (l : Ledger) (r : ExecutionResult)
      → (execute_paper c plan now l).0 ≡ ok r
      → (p : BrokerOrder × List BrokerFill) × (Paper.submit c.digest c.paper plan now ≡ ok p)
        × (execute_paper c plan now l ≡ (ok (executed plan p.0 p.1), executed_ledger p.0 p.1 now l))
  unfolding execute_paper
  execute_paper-ok l r h =
      let (p, submitted, rest) = bind-ok (lift (Paper.submit c.digest c.paper plan now)) _ l r h in
      let h1 = ap (λ (x : Result ExecutionResult × Ledger). x.0) (sym rest) ∙ h in
      let (a, recorded, rest') = bind-ok (record_execution p.0 p.1 now) _ l r h1 in
      (
        p,
        submitted,
        rest
            ∙ rest'
            ∙ ap (λ (x : Result (Option Position) × Ledger). (ok (executed plan p.0 p.1), x.1))
                (record_execution-ok p.0 p.1 now l a recorded),
      )

  reports_lem :
      (o : BrokerOrder) (fs : List BrokerFill) (l : Ledger)
      → Known l.signals plan.signal_id
      → Agrees plan o fs
      → Reports (executed plan o fs) (executed_ledger o fs now l)
  reports_lem o fs l known agrees = record {
    order = o;
    fills = fs;
    placed = refl;
    agrees = agrees;
    stored = rw (eq→str_eq o.order_id o.order_id refl);
    state =
        subst
          (λ id.
            stored_state (
              find (has_signal_id plan.signal_id)
                (update_where (has_signal_id id) (with_state (execution_state o) now) l.signals))
            ≡ some (result_state o))
          (sym agrees.identity.0)
          (find-with_state plan.signal_id (execution_state o) now l.signals known
            ∙ ap (λ s. some s)
                (states_agree o
                  (StateSays-order_state o.state o.filled_quantity o.quantity agrees.state)));
  }

  pub execute_paper-Reports :
      (l : Ledger) (r : ExecutionResult)
      → Known l.signals plan.signal_id
      → (execute_paper c plan now l).0 ≡ ok r
      → Reports r (execute_paper c plan now l).1
  execute_paper-Reports l r known h =
      let (p, submitted, written) = execute_paper-ok l r h in
      let same =
        ok_injective (ap (λ (x : Result ExecutionResult × Ledger). x.0) (sym written) ∙ h) in
      subst (λ (x : Result ExecutionResult × Ledger). Reports r x.1) (sym written)
        (subst (λ q. Reports q (executed_ledger p.0 p.1 now l)) same
          (reports_lem p.0 p.1 l known (submit-Agrees c.digest c.paper plan now p submitted)))

abbrev pub Anything : Ledger → Type 0
Anything l = Unit

-- Whatever ran, nothing is claimed of it.
pub any-Triple : {A : Type 0} (m : Exec Ledger A) → Triple Anything m Anything Anything
any-Triple {A} m = record { at = λ l h. go (m l) }
  where
    go : (r : Result A × Ledger) → Ends Anything Anything r
    go (ok a, l) = tt
    go (raised k e, l) = tt

recorded_signal :
    (plan : TradePlan) (state : SignalExecutionState) (when : DateTime)
    → Triple Anything
        (insert_signal (signal_row plan state when))
        (λ l. Known l.signals plan.signal_id)
        Anything
unfolding insert_signal
recorded_signal plan state when =
    Triple-guarded _ _ _ _ λ l h fresh. rw (eq→str_eq plan.signal_id plan.signal_id refl)

record_signal-Known :
    (plan : TradePlan) (state : SignalExecutionState) (now : DateTime)
    → Triple Anything (record_signal plan state now) (λ l. Known l.signals plan.signal_id) Anything
unfolding record_signal
record_signal-Known plan state now = Triple-bind (lift (timestamp now)) _ (Maintains-lift _) λ when.
    Triple-transaction _ (
      Triple-bind _ _ (recorded_signal plan state when) λ _.
        Triple-weaken _ (λ s h. h) (λ s h. h) (λ s h. tt)
          (event-retained (Known-IsRetained plan.signal_id) "SIGNAL_RECORDED" plan.signal_id now
            (Payload.signal_state state)))

-- An admitted plan has its signal in the ledger.
pub admit-Known :
    {G : Type 0} (c : Setup G) (plan : TradePlan) (now : DateTime)
    → Triple Anything (admit c plan now) (λ l. Known l.signals plan.signal_id) Anything
unfolding admit
admit-Known c plan now = Triple-bind _ _ (Maintains-lift _) λ _.
    Triple-bind _ _ (any-Triple (check_kill_limits c.policy now)) λ _.
      Triple-bind _ _ (any-Triple (check_plan c.policy c.registry plan now true))
        λ _. record_signal-Known plan SignalExecutionState.received now

module _ {G : Type 0} (c : Setup G) (plan : TradePlan) (now : DateTime) (w : World G) where
  -- In paper mode, a `submit` that returns reports an order that agrees with the plan and is in
  -- the ledger, the signal's stored state is the reported one, and nothing was sent.
  pub submit_paper-Reports :
      (r : ExecutionResult)
      → c.policy.mode ≡ ExecutionMode.paper_trading
      → (submit c plan now w).0 ≡ ok r
      → Reports c plan now r (submit c plan now w).1.ledger
        × ((submit c plan now w).1.sent ≡ w.sent)
  unfolding submit dispatch on_ledger
  submit_paper-Reports r mode h =
      let (a, admitted, rest) = bind-ok (on_ledger (admit c plan now)) _ w r h in
      let l1 : Ledger = (admit c plan now w.ledger).1 in
      let w1 : World G = record w { ledger = l1 } in
      let run : Result ExecutionResult × Ledger = execute_paper c plan now l1 in
      let full : submit c plan now w ≡ (run.0, record w { ledger = run.1 }) =
        rest ∙ ap (λ m. dispatch m c plan now w1) mode in
      let known =
        ends_ok _ _ (admit c plan now w.ledger) ((admit-Known c plan now).at w.ledger tt)
          admitted in
      let returned = ap (λ (x : Result ExecutionResult × World G). x.0) (sym full) ∙ h in
      subst
        (λ (x : Result ExecutionResult × World G).
          Reports c plan now r x.1.ledger × (x.1.sent ≡ w.sent))
        (sym full) (execute_paper-Reports c plan now l1 r known returned, refl)
