-- ===== src/Execution/Controller/Sound.antt =====
-- What the controller never breaks: the ledger is consistent, and the mutations that were sent
-- have distinct correlation IDs, each of a recorded signal.
use techo_quant_options_pro.Prelude.{
  String, Bool, true, false, ◌≡◌, ◌∙◌, refl, sym, ap, List, [], ◌∷◌, any, any-cons,
  any-update_where, All, All-map, Distinct, Bool-cases, inl, inr, or_false, str_eq, update_where,
}
use techo_quant_options_pro.Text.{str_eq→eq, eq→str_eq}
use techo_quant_options_pro.Time.{DateTime}
use techo_quant_options_pro.Execution.Models.{
  TradePlan, SignalExecutionState, Approval, BrokerOrder, BrokerFill,
}
use techo_quant_options_pro.Execution.Ledger.Rows.{Ledger, SignalRow, Payload, timestamp, event}
use techo_quant_options_pro.Execution.Ledger.Signals.{
  has_signal_id, has_correlation, with_state, signal_row, insert_signal, record_signal,
  update_signal_state, record_approval, set_kill_switch,
}
use techo_quant_options_pro.Execution.Ledger.Orders.{record_execution}
use techo_quant_options_pro.Execution.Ledger.Consistency.{IsConsistent, MatchesPlan}
use techo_quant_options_pro.Execution.Ledger.Positions.{close_position}
use techo_quant_options_pro.Decimal.{Decimal}
use mathlib.Core.Bool.{false≢true}
use techo_quant_options_pro.Execution.Ledger.Consistency.Signals.{
  event-IsConsistent, insert_row-IsConsistent, update_signal_state-IsConsistent,
  record_approval-IsConsistent, set_kill_switch-IsConsistent,
}
use techo_quant_options_pro.Execution.Ledger.Consistency.Positions.{close_position-IsConsistent}
use techo_quant_options_pro.Execution.Ledger.Consistency.Orders.{record_execution-IsConsistent}
use techo_quant_options_pro.Execution.Ledger.Retention.{
  IsRetained, event-retained, update_signal_state-retained, record_approval-retained,
  set_kill_switch-retained, record_execution-retained, close_position-retained,
}
use techo_quant_options_pro.Exec
use techo_quant_options_pro.Exec.{Exec, transaction, lift}
use techo_quant_options_pro.Exec.Triple.{
  Ends, Triple, Maintains, Maintains-lift, Triple-bind, Triple-transaction, Triple-guarded,
  Triple-weaken,
}

abbrev pub Correlated : List SignalRow → String → Type 0
Correlated signals id = any (has_correlation id) signals ≡ true

-- The state of the controller between two calls.
pub record IsSound (sent : List String) (l : Ledger) : Type 0 where
  pub ledger : IsConsistent l
  pub recorded : All (Correlated l.signals) sent
  pub distinct : Distinct (λ id. id) sent

-- Just after the signal was recorded: its mutation has not been sent.
pub record IsReady (id : String) (sent : List String) (l : Ledger) : Type 0 where
  pub sound : IsSound sent l
  pub recorded : Correlated l.signals id
  pub unsent : any (λ c. str_eq c id) sent ≡ false

Correlated-insert :
    (id : String) (row : SignalRow) (rows : List SignalRow)
    → Correlated rows id
    → Correlated (row ∷ rows) id
Correlated-insert id row rows = any-cons (has_correlation id) row rows

Correlated-update :
    (j : String) (id : String) (state : SignalExecutionState) (when : DateTime)
    (rows : List SignalRow)
    → Correlated rows j
    → Correlated (update_where (has_signal_id id) (with_state state when) rows) j
Correlated-update j id state when rows h =
    any-update_where (has_signal_id id) (with_state state when) (has_correlation j) (λ r. refl) rows
    ∙ h

pub Correlated-retained : (id : String) → IsRetained (λ rows. Correlated rows id)
Correlated-retained id = record {
  on_insert = λ row rows h. Correlated-insert id row rows h;
  on_update = λ j state when rows h. Correlated-update id j state when rows h;
}

pub sent-retained : (sent : List String) → IsRetained (λ rows. All (Correlated rows) sent)
sent-retained sent = record {
  on_insert = λ row rows h. All-map (λ id. Correlated-insert id row rows) sent h;
  on_update = λ j state when rows h. All-map (λ id. Correlated-update id j state when rows) sent h;
}

-- Two predicates that an action maintains, together.
ends_both {ℓ} :
    {S A : Type ℓ} {P Q : S → Type ℓ} {R : S → Type ℓ} (r : Exec.Result A × S)
    → ((s : S) → P s → Q s → R s)
    → Ends P P r
    → Ends Q Q r
    → Ends R R r
ends_both (Exec.ok a, s) f p q = f s p q
ends_both (Exec.raised k m, s) f p q = f s p q

module _ {A : Type 0} (m : Exec Ledger A) (sent : List String)
    (kept : Maintains IsConsistent m) where
  -- An operation that keeps the ledger consistent and its signals keeps soundness.
  pub Maintains-IsSound :
      Maintains (λ l. All (Correlated l.signals) sent) m → Maintains (IsSound sent) m
  Maintains-IsSound recorded = record {
    at = λ l h.
        ends_both (m l) (λ s p q. record { ledger = p; recorded = q; distinct = h.distinct })
          (kept.at l h.ledger) (recorded.at l h.recorded);
  }

  pub Maintains-IsReady :
      (id : String)
      → Maintains (λ l. All (Correlated l.signals) sent) m
      → Maintains (λ l. Correlated l.signals id) m
      → Maintains (IsReady id sent) m
  Maintains-IsReady id recorded correlated = record {
    at = λ l h.
        ends_both (m l) (λ s p q. record { sound = p; recorded = q; unsent = h.unsent })
          ((Maintains-IsSound recorded).at l h.sound) (correlated.at l h.recorded);
  }

module _ (sent : List String) where
  pub event-IsSound :
      (name id : String) (now : DateTime) (payload : Payload)
      → Maintains (IsSound sent) (event name id now payload)
  event-IsSound name id now payload =
      Maintains-IsSound _ sent (event-IsConsistent name id now payload)
        (event-retained (sent-retained sent) name id now payload)

  pub update_signal_state-IsSound :
      (id : String) (state : SignalExecutionState) (now : DateTime)
      → Maintains (IsSound sent) (update_signal_state id state now)
  update_signal_state-IsSound id state now =
      Maintains-IsSound _ sent (update_signal_state-IsConsistent id state now)
        (update_signal_state-retained (sent-retained sent) id state now)

  pub record_approval-IsSound : (a : Approval) → Maintains (IsSound sent) (record_approval a)
  record_approval-IsSound a =
      Maintains-IsSound _ sent (record_approval-IsConsistent a)
        (record_approval-retained (sent-retained sent) a)

  pub set_kill_switch-IsSound :
      (active : Bool) (reason actor : String) (now : DateTime)
      → Maintains (IsSound sent) (set_kill_switch active reason actor now)
  set_kill_switch-IsSound active reason actor now =
      Maintains-IsSound _ sent (set_kill_switch-IsConsistent active reason actor now)
        (set_kill_switch-retained (sent-retained sent) active reason actor now)

  pub record_execution-IsSound :
      (o : BrokerOrder) (fs : List BrokerFill) (now : DateTime)
      → Maintains (IsSound sent) (record_execution o fs now)
  record_execution-IsSound o fs now =
      Maintains-IsSound _ sent (record_execution-IsConsistent o fs now)
        (record_execution-retained (sent-retained sent) o fs now)

  pub close_position-IsSound :
      (id : String) (exit_price : Decimal) (now : DateTime)
      → Maintains (IsSound sent) (close_position id exit_price now)
  close_position-IsSound id exit_price now =
      Maintains-IsSound _ sent (close_position-IsConsistent id exit_price now)
        (close_position-retained (sent-retained sent) id exit_price now)

-- A correlation that no signal has was never sent.
unsent_lem :
    (id : String) (signals : List SignalRow) (sent : List String)
    → All (Correlated signals) sent
    → any (has_correlation id) signals ≡ false
    → any (λ c. str_eq c id) sent ≡ false
unsent_lem id signals [] h fresh = refl
unsent_lem id signals (c ∷ sent) h fresh = elim (Bool-cases (str_eq c id)) [
  | inl same ↦ absurd (
      false≢true
        (sym fresh ∙ ap (λ k. any (has_correlation k) signals) (sym (str_eq→eq c id same)) ∙ h.0))
  | inr other ↦ rw other (unsent_lem id signals sent h.1 fresh)
]

insert_signal-IsReady :
    (sent : List String) (row : SignalRow)
    → MatchesPlan row
    → Triple (IsSound sent) (insert_signal row) (IsReady row.correlation_id sent) (IsSound sent)
unfolding insert_signal
insert_signal-IsReady sent row matches = Triple-guarded _ _ _ _ λ l h fresh.
    let split = or_false _ _ fresh in
    record {
      sound = record {
        ledger = insert_row-IsConsistent row matches l fresh h.ledger;
        recorded = (sent-retained sent).on_insert row l.signals h.recorded;
        distinct = h.distinct;
      };
      recorded = rw (eq→str_eq row.correlation_id row.correlation_id refl);
      unsent = unsent_lem row.correlation_id l.signals sent h.recorded split.1;
    }

-- A recorded signal is new, and so is its correlation to the gateway.
pub record_signal-IsReady :
    (sent : List String) (plan : TradePlan) (state : SignalExecutionState) (now : DateTime)
    → Triple
        (IsSound sent)
        (record_signal plan state now)
        (IsReady plan.correlation_id sent)
        (IsSound sent)
unfolding record_signal
record_signal-IsReady sent plan state now =
    Triple-bind (lift (timestamp now)) _ (Maintains-lift _) λ when. Triple-transaction _ (
      Triple-bind _ _ (insert_signal-IsReady sent (signal_row plan state when) (refl, refl, refl))
        (λ _.
          Triple-weaken _ (λ s h. h) (λ s h. h) (λ s h. h.sound)
            (event-IsReady "SIGNAL_RECORDED" plan.signal_id now (Payload.signal_state state))))
  where
    event-IsReady :
        (name id : String) (now : DateTime) (payload : Payload)
        → Maintains (IsReady plan.correlation_id sent) (event name id now payload)
    event-IsReady name id now payload =
        Maintains-IsReady _ sent (event-IsConsistent name id now payload) plan.correlation_id
          (event-retained (sent-retained sent) name id now payload)
          (event-retained (Correlated-retained plan.correlation_id) name id now payload)
