-- ===== src/Execution/Controller/Uncertain.antt =====
-- Live submissions whose outcome stays open.
use techo_quant_options_pro.Prelude.{
  String, true, false, ◌≡◌, refl, subst, Option, some, [], ◌∷◌, str_eq, ◌⊎◌, inl, inr,
}
use techo_quant_options_pro.Time.{DateTime}
use techo_quant_options_pro.Execution.Models.{
  ExecutionMode, TradePlan, SignalExecutionState, LiveOrderAcknowledgement, Position,
}
use techo_quant_options_pro.Execution.Ledger.Rows.{Ledger, Payload, event, timestamp}
use techo_quant_options_pro.Execution.Ledger.Signals.{
  set_signal_state, update_signal_state, signal_state, insert_signal, record_signal, signal_row,
}
use techo_quant_options_pro.Execution.Ledger.Orders.{record_execution}
use techo_quant_options_pro.Execution.Ledger.Consistency.{Known}
use techo_quant_options_pro.Execution.Ledger.Retention.{record_execution-retained}
use techo_quant_options_pro.Execution.Controller.Duplicates.{Known-IsRetained}
use techo_quant_options_pro.Execution.Controller.PaperResults.{
  admit-Known, find-with_state, Anything, any-Triple,
}
use techo_quant_options_pro.Execution.Controller.Modes.{book, admit-IsBook}
use techo_quant_options_pro.Execution.Controller.Gates.{check_kill_limits, check_plan}
use techo_quant_options_pro.Execution.Ledger.Frames.{event-frame}
use techo_quant_options_pro.Text.{eq→str_eq}
use techo_quant_options_pro.Exec.Outcome.{IsRaised}
use techo_quant_options_pro.Exec.Triple.{
  Ends, Triple, Triple-bind, Triple-guarded, Triple-transaction, Triple-weaken, Maintains-lift,
}
use techo_quant_options_pro.Execution.Controller.Live.{
  record_acknowledgement, record_uncertain, live_order, unknown_acknowledgement,
}
use techo_quant_options_pro.Execution.Controller.Actions.{
  World, Setup, LiveGateway, Submitted, Reconciled, reconcile, on_ledger, admit, dispatch,
  execute_live, send, submit,
}
use techo_quant_options_pro.Exec.{continue, Result, ok, raised, transaction, lift}

inserted_state :
    (plan : TradePlan) (state : SignalExecutionState) (when : DateTime)
    → Triple Anything
        (insert_signal (signal_row plan state when))
        (λ l. signal_state plan.signal_id l ≡ some state)
        Anything
unfolding insert_signal
inserted_state plan state when =
    Triple-guarded _ _ _ _ λ l h fresh. rw (eq→str_eq plan.signal_id plan.signal_id refl) refl

record_signal-state :
    (plan : TradePlan) (state : SignalExecutionState) (now : DateTime)
    → Triple Anything
        (record_signal plan state now)
        (λ l. signal_state plan.signal_id l ≡ some state)
        Anything
unfolding record_signal
record_signal-state plan state now = Triple-bind (lift (timestamp now)) _ (Maintains-lift _) λ when.
    Triple-transaction _ (
      Triple-bind _ _ (inserted_state plan state when) λ _.
        Triple-weaken _ (λ s h. h) (λ s h. h) (λ s h. tt)
          (event-frame (signal_state plan.signal_id) (some state) (λ l x. refl) "SIGNAL_RECORDED"
            plan.signal_id now (Payload.signal_state state)))

-- An admitted plan has its signal in the ledger as RECEIVED.
admit-state :
    {G : Type 0} (c : Setup G) (plan : TradePlan) (now : DateTime)
    → Triple Anything
        (admit c plan now)
        (λ l. signal_state plan.signal_id l ≡ some SignalExecutionState.received)
        Anything
unfolding admit
admit-state c plan now = Triple-bind _ _ (Maintains-lift _) λ _.
    Triple-bind _ _ (any-Triple (check_kill_limits c.policy now)) λ _.
      Triple-bind _ _ (any-Triple (check_plan c.policy c.registry plan now true))
        λ _. record_signal-state plan SignalExecutionState.received now

module _ {G : Type 0} (c : Setup G) (plan : TradePlan) (now : DateTime) (w : World G)
    (live : LiveGateway G) (mode : c.policy.mode ≡ ExecutionMode.live_automatic)
    (enabled : c.policy.live_enabled ≡ true) (configured : c.live ≡ some live) where
  -- When the gateway answers a live plan with another correlation ID, `submit` raises, and the
  -- approvals, orders, fills and positions are those from before the call. Either the plan was not
  -- admitted and nothing was sent, or the mutation was sent once, and the signal is RECEIVED, and
  -- not UNCERTAIN.
  pub foreign_acknowledgement :
      {a : LiveOrderAcknowledgement} {g : G}
      → live.submit_order plan plan.correlation_id w.gateway ≡ (Submitted.acknowledged a, g)
      → str_eq a.correlation_id plan.correlation_id ≡ false
      → let (r, v) = submit c plan now w in
        IsRaised r
        × (book v.ledger ≡ book w.ledger)
        × ((IsRaised (admit c plan now w.ledger).0 × (v.sent ≡ w.sent))
            ⊎ ((v.sent ≡ plan.correlation_id ∷ w.sent)
                × (signal_state plan.signal_id v.ledger ≡ some SignalExecutionState.received)))
  unfolding submit on_ledger dispatch execute_live send record_acknowledgement
  foreign_acknowledgement answered foreign =
      go (admit c plan now w.ledger) ((admit-IsBook (book w.ledger) c plan now).at w.ledger refl)
        ((admit-state c plan now).at w.ledger tt)
    where
      go :
          (x : Result (Unit {0}) × Ledger)
          → Ends (λ s. book s ≡ book w.ledger) (λ s. book s ≡ book w.ledger) x
          → Ends
              (λ s. signal_state plan.signal_id s ≡ some SignalExecutionState.received)
              (λ _. Unit)
              x
          → let (r, v) =
              continue {S = World G} x.0
                (λ _. dispatch c.policy.mode c plan now)
                (record w { ledger = x.1 }) in
            IsRaised r
            × (book v.ledger ≡ book w.ledger)
            × ((IsRaised x.0 × (v.sent ≡ w.sent))
                ⊎ ((v.sent ≡ plan.correlation_id ∷ w.sent)
                    × (signal_state plan.signal_id v.ledger ≡ some SignalExecutionState.received)))
      go (ok u, l) same state =
          rw (mode, enabled, configured, answered, foreign) (tt, same, inr (refl, state))
      go (raised k m, l) same state = (tt, same, inl (tt, refl))

abbrev marked : String → SignalExecutionState → DateTime → Ledger → Ledger
marked id state now l = record (set_signal_state id state now l) {
  events =
      record {
        event_type = "SIGNAL_STATE_CHANGED";
        aggregate_id = id;
        occurred_at = now;
        payload = Payload.signal_state state;
      }
      ∷ l.events;
}

-- A known signal takes the new state.
update_signal_state-Known :
    (id : String) (state : SignalExecutionState) (now : DateTime) (l : Ledger)
    → now.aware ≡ true
    → Known l.signals id
    → update_signal_state id state now l ≡ (ok tt, marked id state now l)
unfolding update_signal_state transaction event
update_signal_state-Known id state now l aware known = rw (aware, known)

module _ {G : Type 0} (c : Setup G) (plan : TradePlan) (now : DateTime) (w : World G)
    (live : LiveGateway G) (mode : c.policy.mode ≡ ExecutionMode.live_automatic)
    (enabled : c.policy.live_enabled ≡ true) (configured : c.live ≡ some live)
    (aware : now.aware ≡ true) where
  -- When the mutation of an admitted live plan times out, the lookup finds no order and the unknown
  -- order could be recorded, `submit` raises, the signal is UNCERTAIN, and the mutation was sent
  -- once.
  pub timed_out_unresolved :
      {l m : Ledger} {g h : G} {p : Option Position}
      → admit c plan now w.ledger ≡ (ok tt, l)
      → live.submit_order plan plan.correlation_id w.gateway ≡ (Submitted.timed_out, g)
      → live.lookup_by_correlation plan.correlation_id g ≡ (Reconciled.absent, h)
      → record_execution (live_order plan (unknown_acknowledgement plan) now) [] now l ≡ (ok p, m)
      → let (r, v) = submit c plan now w in
        IsRaised r
        × (signal_state plan.signal_id v.ledger ≡ some SignalExecutionState.uncertain)
        × (v.sent ≡ plan.correlation_id ∷ w.sent)
  unfolding submit on_ledger dispatch execute_live send reconcile record_uncertain
  timed_out_unresolved {l} {m} admitted answered absent recorded =
      rw
        (
          admitted,
          mode,
          enabled,
          configured,
          answered,
          absent,
          recorded,
          update_signal_state-Known plan.signal_id SignalExecutionState.uncertain now m aware known,
        )
        (
          tt,
          find-with_state plan.signal_id SignalExecutionState.uncertain now m.signals known,
          refl,
        )
    where
      known_before : Known l.signals plan.signal_id
      known_before =
          subst
            (λ (x : Result (Unit {0}) × Ledger).
              Ends (λ s. Known s.signals plan.signal_id) (λ _. Unit) x)
            admitted ((admit-Known c plan now).at w.ledger tt)

      known : Known m.signals plan.signal_id
      known =
          subst
            (λ (x : Result (Option Position) × Ledger).
              Ends (λ s. Known s.signals plan.signal_id) (λ s. Known s.signals plan.signal_id) x)
            recorded
            ((record_execution-retained (Known-IsRetained plan.signal_id)
                (live_order plan (unknown_acknowledgement plan) now) [] now).at
              l known_before)
