-- ===== src/Execution/Controller/Refusals.antt =====
-- The errors that the gates of execution/controller.py raise, and `ExecutionBlockedError`, the one
-- that automation/service.py catches.
pub mod Rules
use techo_quant_options_pro.Prelude.{
  sym, subst, ℕ, String, Bool, false, ◌≡◌, refl, arith, List, [], ◌∷◌, Option-cases, inl, inr, pos,
  select,
}
use techo_quant_options_pro.Decimal
use techo_quant_options_pro.Decimal.{Decimal, integer}
use techo_quant_options_pro.Time.{DateTime, utc_day}
use techo_quant_options_pro.Execution.Models.{TradePlan, ExecutionResult, SignalExecutionState}
use techo_quant_options_pro.Execution.Ledger.Rows.{Ledger, PositionRow, SignalRow, Payload, event}
use techo_quant_options_pro.Execution.Ledger.Signals.{set_kill_switch, insert_signal, record_signal}
use techo_quant_options_pro.Execution.Ledger.Positions.{
  closed_on, add_one, sum_realized, daily_realized_pnl, count_losses, consecutive_losses,
}
use techo_quant_options_pro.Execution.Controller.Policy.{ExecutionPolicy, Registry}
use techo_quant_options_pro.Execution.Controller.Gates.{
  require_aware, trip, check_daily_loss, check_loss_streak, check_kill_limits, validate_names,
  validate_size, validate_aware, validate_times, validate_risk, validate_plan, check_plan,
}
use techo_quant_options_pro.Execution.Controller.Actions.{
  World, Setup, on_ledger, admit, dispatch, submit,
}
use techo_quant_options_pro.Exec.Outcome.{IsRaised, bind-ok}
use techo_quant_options_pro.Exec.Triple.{ends_ok, ends_same}
use techo_quant_options_pro.Execution.Ledger.Consistency.{Known}
use techo_quant_options_pro.Execution.Controller.Invariants.{dispatch-keeps}
use techo_quant_options_pro.Execution.Controller.Duplicates.{Known-IsRetained, retained-IsKept}
use techo_quant_options_pro.Execution.Controller.PaperResults.{admit-Known}
use techo_quant_options_pro.Exec.{Result, ok, raised, continue, raise, lift}
use techo_quant_options_pro.Execution.Controller.Refusals.Rules.{
  is_blocked, Unblocked, NeverBlocks, block_rules, NeverBlocks-bind, NeverBlocks-lift,
}

event-NeverBlocks :
    (kind id : String) (at : DateTime) (payload : Payload) → NeverBlocks (event kind id at payload)
unfolding event
event-NeverBlocks kind id at payload = search block_rules

set_kill_switch-NeverBlocks :
    (active : Bool) (reason actor : String) (now : DateTime)
    → NeverBlocks (set_kill_switch active reason actor now)
unfolding set_kill_switch
set_kill_switch-NeverBlocks active reason actor now =
    search (block_rules, event-NeverBlocks) depth 12

trip-NeverBlocks : (reason : String) (now : DateTime) → NeverBlocks (trip reason now)
trip-NeverBlocks reason now = search (block_rules, set_kill_switch-NeverBlocks)

validate_names-Unblocked : (plan : TradePlan) → Unblocked (validate_names plan)
unfolding validate_names
validate_names-Unblocked plan = search block_rules depth 12

validate_size-Unblocked :
    (policy : ExecutionPolicy) (registry : Registry) (plan : TradePlan)
    → Unblocked (validate_size policy registry plan)
unfolding validate_size
validate_size-Unblocked policy registry plan = search block_rules depth 12

validate_aware-Unblocked : (plan : TradePlan) → Unblocked (validate_aware plan)
unfolding validate_aware require_aware
validate_aware-Unblocked plan = search block_rules depth 12

validate_times-Unblocked :
    (policy : ExecutionPolicy) (plan : TradePlan) (now : DateTime)
    → Unblocked (validate_times policy plan now)
unfolding validate_times
validate_times-Unblocked policy plan now = search block_rules depth 12

validate_risk-Unblocked :
    (policy : ExecutionPolicy) (plan : TradePlan) (now : DateTime) (l : Ledger)
    → Unblocked (validate_risk policy plan now l)
unfolding validate_risk
validate_risk-Unblocked policy plan now l = search block_rules depth 12

check_plan-NeverBlocks :
    (policy : ExecutionPolicy) (registry : Registry) (plan : TradePlan) (now : DateTime)
    (check_signal : Bool)
    → NeverBlocks (check_plan policy registry plan now check_signal)
unfolding check_plan validate_plan
check_plan-NeverBlocks policy registry plan now check_signal = record {
  at = λ l.
      search
        (
          block_rules, validate_names-Unblocked, validate_size-Unblocked, validate_aware-Unblocked,
          validate_times-Unblocked, validate_risk-Unblocked,
        )
        depth 12;
}

sum_realized-Unblocked :
    (total : Decimal) (rows : List PositionRow) → Unblocked (sum_realized total rows)
unfolding sum_realized
sum_realized-Unblocked total [] = tt
sum_realized-Unblocked total (row ∷ rows) = elim (Option-cases row.realized_pnl) [
  | inl e ↦ rw e refl
  | inr (pnl, e) ↦ rw e (sum_realized-Unblocked (Decimal.add total pnl) rows)
]

add_one-Unblocked : (r : Result ℕ) → Unblocked r → Unblocked (add_one r)
add_one-Unblocked (ok n) h = tt
add_one-Unblocked (raised k m) h = h

count_losses-Unblocked : (rows : List PositionRow) → Unblocked (count_losses rows)
unfolding count_losses
count_losses-Unblocked [] = tt
count_losses-Unblocked (row ∷ rows) =
    ground (arith, add_one-Unblocked (count_losses rows) (count_losses-Unblocked rows))

daily_realized_pnl-Unblocked : (day : ℕ) (l : Ledger) → Unblocked (daily_realized_pnl day l)
unfolding daily_realized_pnl
daily_realized_pnl-Unblocked day l =
    sum_realized-Unblocked (integer (pos 0)) (select (closed_on day) l.positions)

check_daily_loss-NeverBlocks :
    (policy : ExecutionPolicy) (now : DateTime) → NeverBlocks (check_daily_loss policy now)
unfolding check_daily_loss
check_daily_loss-NeverBlocks policy now = record {
  at = λ l.
      (NeverBlocks-bind (lift (daily_realized_pnl (utc_day now) l)) _
          (NeverBlocks-lift _ (daily_realized_pnl-Unblocked (utc_day now) l))
          (λ pnl. search (block_rules, trip-NeverBlocks))).at
        l;
}

check_loss_streak-NeverBlocks :
    (policy : ExecutionPolicy) (now : DateTime) → NeverBlocks (check_loss_streak policy now)
unfolding check_loss_streak consecutive_losses
check_loss_streak-NeverBlocks policy now = record {
  at = λ l.
      (NeverBlocks-bind (lift (consecutive_losses l)) _
          (NeverBlocks-lift _ (count_losses-Unblocked _))
          (λ losses. search (block_rules, trip-NeverBlocks))).at
        l;
}

insert_signal-NeverBlocks : (row : SignalRow) → NeverBlocks (insert_signal row)
unfolding insert_signal
insert_signal-NeverBlocks row = record { at = λ l. ground arith }

record_signal-NeverBlocks :
    (plan : TradePlan) (state : SignalExecutionState) (now : DateTime)
    → NeverBlocks (record_signal plan state now)
unfolding record_signal
record_signal-NeverBlocks plan state now =
    search (block_rules, insert_signal-NeverBlocks, event-NeverBlocks)

check_kill_limits-NeverBlocks :
    (policy : ExecutionPolicy) (now : DateTime) → NeverBlocks (check_kill_limits policy now)
unfolding check_kill_limits
check_kill_limits-NeverBlocks policy now =
    search (block_rules, check_daily_loss-NeverBlocks, check_loss_streak-NeverBlocks) depth 12

admit-NeverBlocks :
    {G : Type 0} (c : Setup G) (plan : TradePlan) (now : DateTime) → NeverBlocks (admit c plan now)
unfolding admit require_aware
admit-NeverBlocks c plan now =
    search
      (
        block_rules, check_kill_limits-NeverBlocks, check_plan-NeverBlocks,
        record_signal-NeverBlocks,
      )
      depth 12

-- The call raised an error, and not one that the automation catches.
abbrev pub IsEscaping : {A : Type 0} → Result A → Type 0
IsEscaping (ok a) = ⊥
IsEscaping (raised k m) = is_blocked k ≡ false

-- A submission that its gates refuse raises what they raised.
pub refused-IsEscaping :
    {G : Type 0} (c : Setup G) (plan : TradePlan) (now : DateTime) (w : World G)
    → IsRaised (admit c plan now w.ledger).0
    → IsEscaping (submit c plan now w).0
unfolding submit on_ledger
refused-IsEscaping c plan now w h =
    go (admit c plan now w.ledger) h ((admit-NeverBlocks c plan now).at w.ledger)
  where
    go :
        (r : Result (Unit {0}) × Ledger)
        → IsRaised r.0
        → Unblocked r.0
        → IsEscaping
            (continue r.0 (λ _. dispatch c.policy.mode c plan now) (record w { ledger = r.1 })).0
    go (ok a, l) h u = absurd h
    go (raised k m, l) h u = u

-- A submission that returns has its signal in the ledger.
pub submit-Known :
    {G : Type 0} (c : Setup G) (plan : TradePlan) (now : DateTime) (w : World G)
    (r : ExecutionResult)
    → (submit c plan now w).0 ≡ ok r
    → Known (submit c plan now w).1.ledger.signals plan.signal_id
unfolding submit on_ledger
submit-Known {G = G} c plan now w r h =
    let (a, admitted, rest) = bind-ok (on_ledger (admit c plan now)) _ w r h in
    let after : World G = record w { ledger = (admit c plan now w.ledger).1 } in
    let known =
      ends_ok _ _ (admit c plan now w.ledger) ((admit-Known c plan now).at w.ledger tt) admitted in
    subst (λ (x : Result ExecutionResult × World G). Known x.1.ledger.signals plan.signal_id)
      (sym rest)
      (ends_same (λ (x : World G). Known x.ledger.signals plan.signal_id)
        (dispatch c.policy.mode c plan now after)
        ((dispatch-keeps (retained-IsKept (Known-IsRetained plan.signal_id)) c.policy.mode c plan
            now).at
          after known))
