-- ===== src/Execution/Controller/Safety.antt =====
-- The controller over any sequence of its calls: the ledger stays consistent, and no mutation is
-- sent to the gateway twice.
use techo_quant_options_pro.Prelude.{[], Distinct}
use techo_quant_options_pro.Time.{DateTime}
use techo_quant_options_pro.Execution.Ledger.Rows.{create_schema}
use techo_quant_options_pro.Execution.Ledger.Consistency.{IsConsistent, create_schema-IsConsistent}
use techo_quant_options_pro.Execution.Controller.Actions.{World}
use techo_quant_options_pro.Execution.Controller.Sound.{
  IsSound, IsReady, record_signal-IsReady, update_signal_state-IsSound, record_approval-IsSound,
  set_kill_switch-IsSound, record_execution-IsSound, close_position-IsSound,
}
use techo_quant_options_pro.Execution.Controller.Invariants.{IsKept, Reach, Reach-keeps}

IsSound-IsKept : IsKept IsSound IsReady
IsSound-IsKept = record {
  weaken = λ id sent l h. h.sound;
  sending = λ id sent l h. record {
    ledger = h.sound.ledger;
    recorded = (h.recorded, h.sound.recorded);
    distinct = (h.unsent, h.sound.distinct);
  };
  recording = record_signal-IsReady;
  updating = update_signal_state-IsSound;
  approving = record_approval-IsSound;
  switching = set_kill_switch-IsSound;
  executing = record_execution-IsSound;
  closing = close_position-IsSound;
}

module _ {G : Type 0} where
  -- From a new ledger, however calls and gateway answers follow one another, the ledger is
  -- consistent and no correlation ID is sent to the live gateway twice.
  pub sent_at_most_once :
      (now : DateTime) (g : G) (w : World G)
      → Reach (record { ledger = create_schema now; gateway = g; sent = [] }) w
      → IsConsistent w.ledger × Distinct (λ id. id) w.sent
  sent_at_most_once now g w r =
      let safe =
        Reach-keeps IsSound-IsKept r
          (record { ledger = create_schema-IsConsistent now; recorded = tt; distinct = tt }) in
      (safe.ledger, safe.distinct)
