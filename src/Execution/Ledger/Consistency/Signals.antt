-- ===== src/Execution/Ledger/Consistency/Signals.antt =====
-- The operations on signals, approvals and the kill switch keep the ledger consistent.
use techo_quant_options_pro.Prelude.{
  String, Bool, false, ◌||◌, ◌≡◌, ◌∙◌, refl, ◌∷◌, any, any-cons, any-update_where,
  Distinct-update_where, All-update_where, or_false, true_of_not, update_where,
}
use techo_quant_options_pro.Time.{DateTime}
use techo_quant_options_pro.Execution.Models.{TradePlan, Approval, SignalExecutionState}
use techo_quant_options_pro.Execution.Ledger.Rows.{
  Ledger, SignalRow, ApprovalRow, KillSwitchRow, Payload, event,
}
use techo_quant_options_pro.Execution.Ledger.Signals.{
  has_signal_id, has_correlation, with_state, set_signal_state, insert_signal, signal_row,
  record_signal, update_signal_state, insert_approval, record_approval, set_kill_switch,
}
use techo_quant_options_pro.Execution.Ledger.Consistency.{MatchesPlan, IsConsistent, signals_step}
use techo_quant_options_pro.Exec.Triple.{Maintains, Triple-guarded, Triple-modify, maintains_rules}
use techo_quant_options_pro.Exec.{modify}

pub event-IsConsistent :
    (name id : String) (now : DateTime) (payload : Payload)
    → Maintains IsConsistent (event name id now payload)
unfolding event
event-IsConsistent name id now payload = search (maintains_rules, add_event)
  where
    add_event :
        (when : DateTime)
        → Maintains IsConsistent (
            modify {S = Ledger} (λ l. record l {
              events =
                  record {
                    event_type = name;
                    aggregate_id = id;
                    occurred_at = when;
                    payload = payload;
                  }
                  ∷ l.events;
            }))
    add_event when = Triple-modify _ λ l h. record {
      signals = h.signals;
      approvals = h.approvals;
      orders = h.orders;
      fills = h.fills;
      positions = h.positions;
    }

-- A new row with a new identity.
pub insert_row-IsConsistent :
    (row : SignalRow)
    → MatchesPlan row
    → (l : Ledger)
    → (any (has_signal_id row.signal_id) l.signals
        || any (has_correlation row.correlation_id) l.signals)
      ≡ false
    → IsConsistent l
    → IsConsistent (record l { signals = row ∷ l.signals })
insert_row-IsConsistent row matches l fresh h =
    let split = or_false _ _ fresh in
    signals_step l (row ∷ l.signals) (λ id. any-cons (has_signal_id id) row l.signals)
      (record {
        ids = (split.0, h.signals.ids);
        correlations = (split.1, h.signals.correlations);
        plans = (matches, h.signals.plans);
      })
      h

pub insert_signal-IsConsistent :
    (row : SignalRow) → MatchesPlan row → Maintains IsConsistent (insert_signal row)
unfolding insert_signal
insert_signal-IsConsistent row matches =
    Triple-guarded _ _ _ _ λ l h fresh. insert_row-IsConsistent row matches l fresh h

-- A change of a signal's state keeps the table.
pub set_signal_state-IsConsistent :
    (id : String) (state : SignalExecutionState) (when : DateTime) (l : Ledger)
    → IsConsistent l
    → IsConsistent (set_signal_state id state when l)
set_signal_state-IsConsistent id state when l h =
    signals_step l (update_where (has_signal_id id) (with_state state when) l.signals)
      (λ j known.
        any-update_where (has_signal_id id) (with_state state when) (has_signal_id j) (λ r. refl)
          l.signals
        ∙ known)
      (record {
        ids =
            Distinct-update_where (has_signal_id id) (with_state state when) (λ r. r.signal_id)
              (λ r. refl) l.signals h.signals.ids;
        correlations =
            Distinct-update_where (has_signal_id id) (with_state state when) (λ r. r.correlation_id)
              (λ r. refl) l.signals h.signals.correlations;
        plans =
            All-update_where (has_signal_id id) (with_state state when) MatchesPlan (λ r m. m)
              l.signals h.signals.plans;
      })
      h

pub write_state-IsConsistent :
    (id : String) (state : SignalExecutionState) (when : DateTime)
    → Maintains IsConsistent (modify (set_signal_state id state when))
write_state-IsConsistent id state when =
    Triple-modify _ (set_signal_state-IsConsistent id state when)

pub record_signal-IsConsistent :
    (plan : TradePlan) (state : SignalExecutionState) (now : DateTime)
    → Maintains IsConsistent (record_signal plan state now)
unfolding record_signal
record_signal-IsConsistent plan state now =
    search (maintains_rules, inserted, event-IsConsistent) depth 8
  where
    inserted :
        (when : DateTime) → Maintains IsConsistent (insert_signal (signal_row plan state when))
    inserted when = insert_signal-IsConsistent (signal_row plan state when) (refl, refl, refl)

pub update_signal_state-IsConsistent :
    (id : String) (state : SignalExecutionState) (now : DateTime)
    → Maintains IsConsistent (update_signal_state id state now)
unfolding update_signal_state
update_signal_state-IsConsistent id state now =
    search (maintains_rules, write_state-IsConsistent, event-IsConsistent) depth 10

pub insert_approval-IsConsistent :
    (row : ApprovalRow) → Maintains IsConsistent (insert_approval row)
unfolding insert_approval
insert_approval-IsConsistent row = Triple-guarded _ _ _ _ λ l h fresh.
    let split = or_false _ _ fresh in
    record {
      signals = h.signals;
      approvals = record {
        ids = (split.0, h.approvals.ids);
        known = (true_of_not _ split.1, h.approvals.known);
      };
      orders = h.orders;
      fills = h.fills;
      positions = h.positions;
    }

pub record_approval-IsConsistent : (a : Approval) → Maintains IsConsistent (record_approval a)
unfolding record_approval
record_approval-IsConsistent a =
    search (maintains_rules, insert_approval-IsConsistent, event-IsConsistent) depth 9

pub set_kill_switch-IsConsistent :
    (active : Bool) (reason actor : String) (now : DateTime)
    → Maintains IsConsistent (set_kill_switch active reason actor now)
unfolding set_kill_switch
set_kill_switch-IsConsistent active reason actor now =
    search (maintains_rules, switch, event-IsConsistent) depth 9
  where
    switch :
        (row : KillSwitchRow)
        → Maintains IsConsistent (modify {S = Ledger} (λ l. record l { kill_switch = row }))
    switch row = Triple-modify _ λ l h. record {
      signals = h.signals;
      approvals = h.approvals;
      orders = h.orders;
      fills = h.fills;
      positions = h.positions;
    }
