-- ===== src/Execution/Controller/Duplicates.antt =====
-- A signal is processed once: after it was recorded, whatever happens in between, submitting its
-- ID again is refused, and adds no signal, no order and no mutation.
use techo_quant_options_pro.Prelude.{
  String, Bool, true, ◌≡◌, ◌∙◌, refl, ap, List, any, any-cons, any-update_where,
}
use techo_quant_options_pro.Time.{DateTime}
use techo_quant_options_pro.Execution.Models.{TradePlan, ExecutionResult, BrokerOrder}
use techo_quant_options_pro.Execution.Ledger.Rows.{Ledger, SignalRow}
use techo_quant_options_pro.Execution.Ledger.Signals
use techo_quant_options_pro.Execution.Ledger.Signals.{has_signal_id, signal_exists, with_state}
use techo_quant_options_pro.Execution.Ledger.Consistency.{Known}
use techo_quant_options_pro.Execution.Ledger.Retention.{
  IsRetained, record_signal-retained, update_signal_state-retained, record_approval-retained,
  set_kill_switch-retained, record_execution-retained, close_position-retained,
}
use techo_quant_options_pro.Execution.Ledger.Frames.{set_kill_switch-frame}
use techo_quant_options_pro.Execution.Controller.Policy.{ExecutionPolicy, Registry}
use techo_quant_options_pro.Execution.Controller.Gates.{
  trip, check_kill_limits, check_plan, validate_plan,
}
use techo_quant_options_pro.Execution.Controller.Actions.{World, Setup, on_ledger, admit, submit}
use techo_quant_options_pro.Execution.Controller.Invariants.{IsKept, Reach, Reach-keeps}
use techo_quant_options_pro.Exec.{Result, ok, raised, Exec}
use techo_quant_options_pro.Exec.Outcome.{IsRaised}
use techo_quant_options_pro.Exec.Triple.{
  Ends, Triple, Maintains, Maintains-lift, Triple-bind, maintains_rules,
}

pub Known-IsRetained : (id : String) → IsRetained (λ rows. Known rows id)
Known-IsRetained id = record {
  on_insert = λ row rows h. any-cons (has_signal_id id) row rows h;
  on_update = λ j state when rows h.
      any-update_where (has_signal_id j) (with_state state when) (has_signal_id id) (λ r. refl) rows
      ∙ h;
}

-- What the signals table retains, the controller keeps.
pub retained-IsKept :
    {R : List SignalRow → Type 0}
    → IsRetained R
    → IsKept (λ sent l. R l.signals) (λ id sent l. R l.signals)
retained-IsKept keep = record {
  weaken = λ id sent l h. h;
  sending = λ id sent l h. h;
  recording = λ sent plan state now. record_signal-retained keep plan state now;
  updating = λ sent id state now. update_signal_state-retained keep id state now;
  approving = λ sent a. record_approval-retained keep a;
  switching = λ sent active reason actor now. set_kill_switch-retained keep active reason actor now;
  executing = λ sent o fs now. record_execution-retained keep o fs now;
  closing = λ sent id exit_price now. close_position-retained keep id exit_price now;
}

-- A recorded signal is known after any calls of the controller.
pub Reach-Known :
    {G : Type 0} {u v : World G} (id : String)
    → Reach u v
    → Known u.ledger.signals id
    → Known v.ledger.signals id
Reach-Known id r h = Reach-keeps (retained-IsKept (Known-IsRetained id)) r h

module _ (signals : List SignalRow) (orders : List BrokerOrder) where
  record IsSame (l : Ledger) : Type 0 where
    same_signals : l.signals ≡ signals
    same_orders : l.orders ≡ orders

  set_kill_switch-IsSame :
      (active : Bool) (reason actor : String) (now : DateTime)
      → Maintains IsSame (Signals.set_kill_switch active reason actor now)
  set_kill_switch-IsSame active reason actor now = record {
    at = λ l h.
        both (Signals.set_kill_switch active reason actor now l)
          ((set_kill_switch-frame (λ l. l.signals) signals (λ l x. refl) (λ l x. refl) active reason
              actor now).at
            l h.same_signals)
          ((set_kill_switch-frame (λ l. l.orders) orders (λ l x. refl) (λ l x. refl) active reason
              actor now).at
            l h.same_orders);
  }
    where
      both :
          {A : Type 0} (r : Result A × Ledger)
          → Ends (λ l. l.signals ≡ signals) (λ l. l.signals ≡ signals) r
          → Ends (λ l. l.orders ≡ orders) (λ l. l.orders ≡ orders) r
          → Ends IsSame IsSame r
      both (ok a, l) p q = record { same_signals = p; same_orders = q }
      both (raised k m, l) p q = record { same_signals = p; same_orders = q }

  trip-IsSame : (reason : String) (now : DateTime) → Maintains IsSame (trip reason now)
  trip-IsSame reason now = search (maintains_rules, set_kill_switch-IsSame)

  check_kill_limits-IsSame :
      (policy : ExecutionPolicy) (now : DateTime) → Maintains IsSame (check_kill_limits policy now)
  unfolding check_kill_limits
  check_kill_limits-IsSame policy now = search (maintains_rules, trip-IsSame) depth 12

  abbrev Never : {S : Type 0} → S → Type 0
  Never s = ⊥

  -- The ledger's part is the same, and so is the rest of the world.
  record IsHere {G : Type 0} (sent : List String) (g : G) (w : World G) : Type 0 where
    ledger : IsSame w.ledger
    same_sent : w.sent ≡ sent
    same_gateway : w.gateway ≡ g

  on_ledger-IsHere :
      {G A : Type 0} (sent : List String) (g : G) (m : Exec Ledger A)
      → Triple IsSame m Never IsSame
      → Triple (IsHere sent g) (on_ledger m) Never (IsHere sent g)
  unfolding on_ledger
  on_ledger-IsHere {G} {A} sent g m t = record {
    at = λ w h. go w (m w.ledger) h (t.at w.ledger h.ledger);
  }
    where
      go :
          (w : World G) (r : Result A × Ledger)
          → IsHere sent g w
          → Ends Never IsSame r
          → Ends {S = World G} Never (IsHere sent g) (r.0, record w { ledger = r.1 })
      go w (ok a, l) h e = e
      go w (raised k m, l) h e = record {
        ledger = e;
        same_sent = h.same_sent;
        same_gateway = h.same_gateway;
      }

  module _ (plan : TradePlan) (known : Known signals plan.signal_id) where
    -- The gates do not let the plan through.
    check_plan-Never :
        (policy : ExecutionPolicy) (registry : Registry) (now : DateTime)
        → Triple IsSame (check_plan policy registry plan now true) Never IsSame
    unfolding check_plan validate_plan
    check_plan-Never policy registry now = record { at = λ l h. go l h (found l h) }
      where
        found : (l : Ledger) → IsSame l → signal_exists plan.signal_id l ≡ true
        found l h = ap (λ rows. any (has_signal_id plan.signal_id) rows) h.same_signals ∙ known

        go :
            (l : Ledger)
            → IsSame l
            → signal_exists plan.signal_id l ≡ true
            → Ends Never IsSame (validate_plan policy registry plan now true l, l)
        go l h e = rw e h

    admit-Never :
        {G : Type 0} (c : Setup G) (now : DateTime) → Triple IsSame (admit c plan now) Never IsSame
    unfolding admit
    admit-Never c now = Triple-bind _ _ (Maintains-lift _) λ _.
        Triple-bind _ _ (check_kill_limits-IsSame c.policy now) λ _.
          Triple-bind _ _ (check_plan-Never c.policy c.registry now)
            λ _. record { at = λ l h. absurd h }

    submit-Never :
        {G : Type 0} (c : Setup G) (now : DateTime) (sent : List String) (g : G)
        → Triple (IsHere sent g) (submit c plan now) Never (IsHere sent g)
    unfolding submit
    submit-Never {G} c now sent g =
        Triple-bind _ _ (on_ledger-IsHere sent g (admit c plan now) (admit-Never c now))
          (λ _. record { at = λ w h. absurd h })

-- A plan whose signal is known is not admitted.
pub admit-IsRaised :
    {G : Type 0} (c : Setup G) (plan : TradePlan) (now : DateTime) (l : Ledger)
    → Known l.signals plan.signal_id
    → IsRaised (admit c plan now l).0
admit-IsRaised c plan now l known = go (admit c plan now l) (
    (admit-Never l.signals l.orders plan known c now).at l
      (record { same_signals = refl; same_orders = refl }))
  where
    go :
        (r : Result (Unit {0}) × Ledger)
        → Ends (λ _. ⊥) (IsSame l.signals l.orders) r
        → IsRaised r.0
    go (ok a, s) h = absurd h
    go (raised k m, s) h = tt

-- After its signal was recorded, and any calls since, a plan with the same signal ID is refused:
-- `submit` raises, and the signals, the orders and the mutations sent are as they were.
pub resubmission_refused :
    {G : Type 0} {u w : World G} (c : Setup G) (plan : TradePlan) (now : DateTime)
    → Known u.ledger.signals plan.signal_id
    → Reach u w
    → let (r, v) = submit c plan now w in
      IsRaised r
      × (v.ledger.signals ≡ w.ledger.signals)
      × (v.ledger.orders ≡ w.ledger.orders)
      × (v.sent ≡ w.sent)
resubmission_refused {G} {w = w} c plan now known reach = go (submit c plan now w) (
    (submit-Never w.ledger.signals w.ledger.orders plan (Reach-Known plan.signal_id reach known) c
        now w.sent w.gateway).at
      w
      (record {
        ledger = record { same_signals = refl; same_orders = refl };
        same_sent = refl;
        same_gateway = refl;
      }))
  where
    go :
        (r : Result ExecutionResult × World G)
        → Ends (λ _. ⊥) (IsHere w.ledger.signals w.ledger.orders w.sent w.gateway) r
        → IsRaised r.0
          × (r.1.ledger.signals ≡ w.ledger.signals)
          × (r.1.ledger.orders ≡ w.ledger.orders)
          × (r.1.sent ≡ w.sent)
    go (ok a, v) h = absurd h
    go (raised k m, v) h = (tt, h.ledger.same_signals, h.ledger.same_orders, h.same_sent)
