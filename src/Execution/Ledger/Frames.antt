-- ===== src/Execution/Ledger/Frames.antt =====
-- What an operation of the ledger leaves alone: a reading of the ledger that does not depend on
-- the tables that the operation writes is the same before and after.
use techo_quant_options_pro.Prelude.{String, Bool, ◌≡◌, ◌∙◌, Option, none, some, List}
use techo_quant_options_pro.Decimal.{Decimal}
use techo_quant_options_pro.Time.{DateTime}
use techo_quant_options_pro.Execution.Models.{TradePlan, SignalExecutionState}
use techo_quant_options_pro.Execution.Ledger.Rows.{
  Ledger, SignalRow, PositionRow, JournalRow, EventRow, KillSwitchRow, Payload, timestamp, event,
}
use techo_quant_options_pro.Execution.Ledger.Signals.{
  set_signal_state, insert_signal, record_signal, update_signal_state, set_kill_switch,
}
use techo_quant_options_pro.Execution.Ledger.Positions.{
  write_close, journal_close, close_row, close_position,
}
use techo_quant_options_pro.Exec.{lift, modify}
use techo_quant_options_pro.Exec.Triple.{
  Maintains, Maintains-bind, Maintains-lift, Triple-guarded, Triple-modify, maintains_rules,
}

module _ {B : Type 0} (F : Ledger → B) (b : B)
    (no_events : (l : Ledger) (x : List EventRow) → F (record l { events = x }) ≡ F l) where
  abbrev pub Reads : Ledger → Type 0
  Reads l = F l ≡ b

  pub event-frame :
      (name id : String) (now : DateTime) (payload : Payload)
      → Maintains Reads (event name id now payload)
  unfolding event
  event-frame name id now payload =
      Maintains-bind (lift (timestamp now)) _ (Maintains-lift _)
        (λ when. Triple-modify _ λ l h. no_events l _ ∙ h)

  module _
      (no_signals : (l : Ledger) (x : List SignalRow) → F (record l { signals = x }) ≡ F l) where
    insert_signal-frame : (row : SignalRow) → Maintains Reads (insert_signal row)
    unfolding insert_signal
    insert_signal-frame row = Triple-guarded _ _ _ _ λ l h _. no_signals l _ ∙ h

    pub record_signal-frame :
        (plan : TradePlan) (state : SignalExecutionState) (now : DateTime)
        → Maintains Reads (record_signal plan state now)
    unfolding record_signal
    record_signal-frame plan state now =
        search (maintains_rules, insert_signal-frame, event-frame) depth 8

    state-frame :
        (id : String) (state : SignalExecutionState) (when : DateTime)
        → Maintains Reads (modify (set_signal_state id state when))
    state-frame id state when = Triple-modify _ λ l h. no_signals l _ ∙ h

    pub update_signal_state-frame :
        (id : String) (state : SignalExecutionState) (now : DateTime)
        → Maintains Reads (update_signal_state id state now)
    unfolding update_signal_state
    update_signal_state-frame id state now =
        search (maintains_rules, state-frame, event-frame) depth 10

  module _
      (no_switch : (l : Ledger) (x : KillSwitchRow) → F (record l { kill_switch = x }) ≡ F l) where
    switch-frame :
        (row : KillSwitchRow)
        → Maintains Reads (modify {S = Ledger} (λ l. record l { kill_switch = row }))
    switch-frame row = Triple-modify _ λ l h. no_switch l row ∙ h

    pub set_kill_switch-frame :
        (active : Bool) (reason actor : String) (now : DateTime)
        → Maintains Reads (set_kill_switch active reason actor now)
    unfolding set_kill_switch
    set_kill_switch-frame active reason actor now =
        search (maintains_rules, switch-frame, event-frame) depth 9

  module _
      (no_positions : (l : Ledger) (x : List PositionRow) → F (record l { positions = x }) ≡ F l)
      (no_journal : (l : Ledger) (x : List JournalRow) → F (record l { journal = x }) ≡ F l) where
    write_close-frame :
        (id : String) (instant now : DateTime) (pnl : Decimal)
        → Maintains Reads (modify (write_close id instant now pnl))
    write_close-frame id instant now pnl = Triple-modify _ λ l h. no_positions l _ ∙ h

    journal_close-frame :
        (signal_id id : String) (instant : DateTime) (pnl exit_price : Decimal)
        → Maintains Reads (modify (journal_close signal_id id instant pnl exit_price))
    journal_close-frame signal_id id instant pnl exit_price =
        Triple-modify _ λ l h. no_journal l _ ∙ h

    close_row-frame :
        (id : String) (exit_price : Decimal) (now : DateTime) (row : Option PositionRow)
        → Maintains Reads (close_row id exit_price now row)
    unfolding close_row
    close_row-frame id exit_price now none = search maintains_rules
    close_row-frame id exit_price now (some row) =
        search (maintains_rules, write_close-frame, journal_close-frame, event-frame) depth 12

    pub close_position-frame :
        (id : String) (exit_price : Decimal) (now : DateTime)
        → Maintains Reads (close_position id exit_price now)
    unfolding close_position
    close_position-frame id exit_price now = search (maintains_rules, close_row-frame) depth 9
