-- ===== src/Execution/Controller/Halted.antt =====
-- Trading with the kill switch on: no sequence of calls that leaves the switch itself alone
-- records a signal, writes an order, sends a mutation or clears the switch.
use techo_quant_options_pro.Prelude.{
  String, true, ◌≡◌, ◌∙◌, refl, ap, Option, none, some, List, arith,
}
use techo_quant_options_pro.Decimal.{Decimal}
use techo_quant_options_pro.Time.{DateTime}
use techo_quant_options_pro.Execution.Models.{TradePlan}
use techo_quant_options_pro.Execution.Ledger.Rows.{
  Ledger, KillSwitchRow, EventRow, PositionRow, JournalRow,
}
use techo_quant_options_pro.Execution.Ledger.Signals
use techo_quant_options_pro.Execution.Ledger.Positions.{close_position}
use techo_quant_options_pro.Execution.Ledger.Frames.{close_position-frame}
use techo_quant_options_pro.Execution.Controller.Gates.{require_aware}
use techo_quant_options_pro.Execution.Controller.Live.{check_awaiting}
use techo_quant_options_pro.Execution.Controller.Actions.{
  World, Setup, on_ledger, submit, admit, approve_plan, approve,
}
use techo_quant_options_pro.Execution.Controller.KillSwitch.{check_kill_limits_active}
use techo_quant_options_pro.Exec.{Result, ok, raised}
use techo_quant_options_pro.Exec.Triple.{Maintains, ends_same}

-- The call raised and left the state as it was.
abbrev pub Refuses : {S A : Type 0} → S → Result A × S → Type 0
Refuses s (ok a, s') = ⊥
Refuses s (raised k m, s') = s' ≡ s

module _ {G : Type 0} where
  submit-Refuses :
      (c : Setup G) (plan : TradePlan) (now : DateTime) (w : World G)
      → w.ledger.kill_switch.active ≡ true
      → Refuses w (submit c plan now w)
  unfolding submit admit on_ledger require_aware
  submit-Refuses c plan now w active =
      ground (arith, check_kill_limits_active c.policy now w.ledger active)

  approve_plan-Refuses :
      (c : Setup G) (id actor reason : String) (approval_time now : DateTime)
      (plan : Option TradePlan) (l : Ledger)
      → l.kill_switch.active ≡ true
      → Refuses l (approve_plan c id actor reason approval_time now plan l)
  unfolding approve_plan check_awaiting
  approve_plan-Refuses c id actor reason approval_time now none l active = refl
  approve_plan-Refuses c id actor reason approval_time now (some plan) l active =
      ground (arith, check_kill_limits_active c.policy now l active)

  approve-Refuses :
      (c : Setup G) (id actor reason : String) (approval_time now : DateTime) (w : World G)
      → w.ledger.kill_switch.active ≡ true
      → Refuses w (approve c id actor reason approval_time now w)
  unfolding approve on_ledger
  approve-Refuses c id actor reason approval_time now w active = ground (
    arith,
    approve_plan-Refuses c id actor reason approval_time now (Signals.plan id w.ledger) w.ledger
        active,
  )

  -- Everything but the positions, the journal and the events is the same.
  pub record Frozen (u v : World G) : Type 0 where
    pub switch : v.ledger.kill_switch ≡ u.ledger.kill_switch
    pub signals : v.ledger.signals ≡ u.ledger.signals
    pub orders : v.ledger.orders ≡ u.ledger.orders
    pub sent : v.sent ≡ u.sent
    pub gateway : v.gateway ≡ u.gateway

  -- The calls other than that of the switch.
  pub data Trade (w : World G) : World G → Type 0 where
    submitting : (c : Setup G) (plan : TradePlan) (now : DateTime) → Trade w (submit c plan now w).1
    approving :
        (c : Setup G) (id actor reason : String) (approval_time now : DateTime)
        → Trade w (approve c id actor reason approval_time now w).1
    closing :
        (id : String) (exit_price : Decimal) (now : DateTime)
        → Trade w (on_ledger (close_position id exit_price now) w).1

  pub data Trades (w : World G) : World G → Type 0 where
    here : Trades w w
    next : {u v : World G} → Trades w u → Trade u v → Trades w v

  Frozen-refl : (w : World G) → Frozen w w
  Frozen-refl w = record {
    switch = refl;
    signals = refl;
    orders = refl;
    sent = refl;
    gateway = refl;
  }

  Frozen-of_refusal :
      {A : Type 0} (w : World G) (r : Result A × World G) → Refuses w r → Frozen w r.1
  Frozen-of_refusal w (ok a, v) h = absurd h
  Frozen-of_refusal w (raised k m, v) h = record {
    switch = ap (λ (x : World G). x.ledger.kill_switch) h;
    signals = ap (λ (x : World G). x.ledger.signals) h;
    orders = ap (λ (x : World G). x.ledger.orders) h;
    sent = ap (λ (x : World G). x.sent) h;
    gateway = ap (λ (x : World G). x.gateway) h;
  }

  close-Frozen :
      (id : String) (exit_price : Decimal) (now : DateTime) (w : World G)
      → Frozen w (on_ledger (close_position id exit_price now) w).1
  unfolding on_ledger
  close-Frozen id exit_price now w = record {
    switch =
        ends_same (λ l. l.kill_switch ≡ w.ledger.kill_switch) r
          ((kept (λ l. l.kill_switch) (λ l x. refl) (λ l x. refl) (λ l x. refl)).at w.ledger refl);
    signals =
        ends_same (λ l. l.signals ≡ w.ledger.signals) r
          ((kept (λ l. l.signals) (λ l x. refl) (λ l x. refl) (λ l x. refl)).at w.ledger refl);
    orders =
        ends_same (λ l. l.orders ≡ w.ledger.orders) r
          ((kept (λ l. l.orders) (λ l x. refl) (λ l x. refl) (λ l x. refl)).at w.ledger refl);
    sent = refl;
    gateway = refl;
  }
    where
      r : Result Decimal × Ledger
      r = close_position id exit_price now w.ledger

      kept :
          {B : Type 0} (F : Ledger → B)
          → ((l : Ledger) (x : List EventRow) → F (record l { events = x }) ≡ F l)
          → ((l : Ledger) (x : List PositionRow) → F (record l { positions = x }) ≡ F l)
          → ((l : Ledger) (x : List JournalRow) → F (record l { journal = x }) ≡ F l)
          → Maintains (λ l. F l ≡ F w.ledger) (close_position id exit_price now)
      kept F a b c = close_position-frame F (F w.ledger) a b c id exit_price now

  Trade-Frozen : {u v : World G} → u.ledger.kill_switch.active ≡ true → Trade u v → Frozen u v
  Trade-Frozen {u} active (submitting c plan now) =
      Frozen-of_refusal u _ (submit-Refuses c plan now u active)
  Trade-Frozen {u} active (approving c id actor reason approval_time now) =
      Frozen-of_refusal u _ (approve-Refuses c id actor reason approval_time now u active)
  Trade-Frozen {u} active (closing id exit_price now) = close-Frozen id exit_price now u

  Frozen-trans : {u v w : World G} → Frozen u v → Frozen v w → Frozen u w
  Frozen-trans a b = record {
    switch = b.switch ∙ a.switch;
    signals = b.signals ∙ a.signals;
    orders = b.orders ∙ a.orders;
    sent = b.sent ∙ a.sent;
    gateway = b.gateway ∙ a.gateway;
  }

  -- From a state with the switch on, after any calls of `submit`, `approve` and `close_position`
  -- with any configuration, the switch, the signals, the orders, the gateway and what was sent to
  -- it are as they were.
  pub killed_stays_killed :
      {u v : World G} → u.ledger.kill_switch.active ≡ true → Trades u v → Frozen u v
  killed_stays_killed {u} active here = Frozen-refl u
  killed_stays_killed {u} active (next r t) =
      let before = killed_stays_killed active r in
      Frozen-trans before
        (Trade-Frozen (ap (λ (x : KillSwitchRow). x.active) before.switch ∙ active) t)
