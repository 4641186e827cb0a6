-- ===== src/Execution/Ledger/Retention.antt =====
-- Signals are never deleted, and only their state changes: every operation of the ledger keeps
-- every property of the signals table that survives a new row and a change of state.
use techo_quant_options_pro.Prelude.{
  String, Bool, ◌≡◌, refl, Option, none, some, List, [], ◌∷◌, update_where,
}
use techo_quant_options_pro.Decimal.{Decimal}
use techo_quant_options_pro.Time.{DateTime}
use techo_quant_options_pro.Execution.Models.{
  TradePlan, Approval, SignalExecutionState, BrokerOrder, BrokerFill,
}
use techo_quant_options_pro.Execution.Ledger.Rows.{
  Ledger, SignalRow, ApprovalRow, PositionRow, JournalRow, KillSwitchRow, Payload, timestamp, event,
}
use techo_quant_options_pro.Execution.Ledger.Signals.{
  has_signal_id, with_state, set_signal_state, insert_signal, record_signal, update_signal_state,
  insert_approval, record_approval, set_kill_switch,
}
use techo_quant_options_pro.Execution.Ledger.Orders.{
  insert_order, insert_fill, insert_position, write_order, write_fill, write_fills, opening_row,
  write_position, open_position, write_outcome, record_execution,
}
use techo_quant_options_pro.Execution.Ledger.Positions.{
  write_close, journal_close, close_row, close_position,
}
use techo_quant_options_pro.Exec.{lift, modify}
use techo_quant_options_pro.Exec.Triple.{
  Maintains, Maintains-if, Maintains-bind, Maintains-pure, Maintains-lift, Triple-guarded,
  Triple-modify, maintains_rules,
}

-- A property of the table that a new row and a change of state leave true.
pub record IsRetained (R : List SignalRow → Type 0) : Type 0 where
  pub on_insert : (row : SignalRow) (rows : List SignalRow) → R rows → R (row ∷ rows)
  pub on_update :
      (id : String) (state : SignalExecutionState) (when : DateTime) (rows : List SignalRow)
      → R rows
      → R (update_where (has_signal_id id) (with_state state when) rows)

module _ {R : List SignalRow → Type 0} (keep : IsRetained R) where
  abbrev pub Holds : Ledger → Type 0
  Holds l = R l.signals

  -- A write to any other table.
  other :
      (f : Ledger → Ledger)
      → ((l : Ledger) → (f l).signals ≡ l.signals)
      → Maintains Holds (modify f)
  other f same = Triple-modify f λ l h. rw (same l) h

  pub event-retained :
      (name id : String) (now : DateTime) (payload : Payload)
      → Maintains Holds (event name id now payload)
  unfolding event
  event-retained name id now payload =
      Maintains-bind (lift (timestamp now)) _ (Maintains-lift _) (λ when. other _ (λ l. refl))

  state-retained :
      (id : String) (state : SignalExecutionState) (when : DateTime)
      → Maintains Holds (modify (set_signal_state id state when))
  state-retained id state when = Triple-modify _ λ l h. keep.on_update id state when l.signals h

  insert_signal-retained : (row : SignalRow) → Maintains Holds (insert_signal row)
  unfolding insert_signal
  insert_signal-retained row = Triple-guarded _ _ _ _ λ l h _. keep.on_insert row l.signals h

  pub record_signal-retained :
      (plan : TradePlan) (state : SignalExecutionState) (now : DateTime)
      → Maintains Holds (record_signal plan state now)
  unfolding record_signal
  record_signal-retained plan state now =
      search (maintains_rules, insert_signal-retained, event-retained) depth 8

  pub update_signal_state-retained :
      (id : String) (state : SignalExecutionState) (now : DateTime)
      → Maintains Holds (update_signal_state id state now)
  unfolding update_signal_state
  update_signal_state-retained id state now =
      search (maintains_rules, state-retained, event-retained) depth 10

  insert_approval-retained : (row : ApprovalRow) → Maintains Holds (insert_approval row)
  unfolding insert_approval
  insert_approval-retained row = Triple-guarded _ _ _ _ λ l h _. h

  pub record_approval-retained : (a : Approval) → Maintains Holds (record_approval a)
  unfolding record_approval
  record_approval-retained a =
      search (maintains_rules, insert_approval-retained, event-retained) depth 9

  pub set_kill_switch-retained :
      (active : Bool) (reason actor : String) (now : DateTime)
      → Maintains Holds (set_kill_switch active reason actor now)
  unfolding set_kill_switch
  set_kill_switch-retained active reason actor now =
      search (maintains_rules, switch, event-retained) depth 9
    where
      switch :
          (row : KillSwitchRow)
          → Maintains Holds (modify {S = Ledger} (λ l. record l { kill_switch = row }))
      switch row = other _ (λ l. refl)

  insert_order-retained : (o : BrokerOrder) → Maintains Holds (insert_order o)
  unfolding insert_order
  insert_order-retained o = Triple-guarded _ _ _ _ λ l h _. h

  insert_fill-retained : (f : BrokerFill) → Maintains Holds (insert_fill f)
  unfolding insert_fill
  insert_fill-retained f = Triple-guarded _ _ _ _ λ l h _. h

  insert_position-retained : (p : PositionRow) → Maintains Holds (insert_position p)
  unfolding insert_position
  insert_position-retained p = Triple-guarded _ _ _ _ λ l h _. h

  write_order-retained : (o : BrokerOrder) → Maintains Holds (write_order o)
  unfolding write_order
  write_order-retained o = search (maintains_rules, insert_order-retained) depth 9

  write_fill-retained : (f : BrokerFill) → Maintains Holds (write_fill f)
  unfolding write_fill
  write_fill-retained f = search (maintains_rules, insert_fill-retained) depth 9

  write_fills-retained : (fs : List BrokerFill) → Maintains Holds (write_fills fs)
  unfolding write_fills
  write_fills-retained [] = search maintains_rules
  write_fills-retained (f ∷ fs) =
      search (maintains_rules, write_fill-retained f, write_fills-retained fs)

  write_position-retained : (p : PositionRow) → Maintains Holds (write_position p)
  unfolding write_position
  write_position-retained p = search (maintains_rules, insert_position-retained) depth 9

  open_position-retained :
      (o : BrokerOrder) (price : Option Decimal) (now : DateTime)
      → Maintains Holds (open_position o price now)
  unfolding open_position
  open_position-retained o none now = search maintains_rules
  open_position-retained o (some price) now =
      Maintains-if _ _ _
        (Maintains-bind _ _ (write_position-retained (opening_row o price now))
          (λ _. Maintains-pure _))
        (Maintains-pure _)

  write_outcome-retained :
      (o : BrokerOrder) (now : DateTime) → Maintains Holds (write_outcome o now)
  unfolding write_outcome
  write_outcome-retained o now =
      search (maintains_rules, state-retained, journaled, event-retained) depth 9
    where
      journaled :
          (row : JournalRow)
          → Maintains Holds (modify {S = Ledger} (λ l. record l { journal = row ∷ l.journal }))
      journaled row = other _ (λ l. refl)

  pub record_execution-retained :
      (o : BrokerOrder) (fs : List BrokerFill) (now : DateTime)
      → Maintains Holds (record_execution o fs now)
  unfolding record_execution
  record_execution-retained o fs now =
      search
        (
          maintains_rules, write_order-retained, write_fills-retained, open_position-retained,
          write_outcome-retained,
        )
        depth 10

  close_row-retained :
      (id : String) (exit_price : Decimal) (now : DateTime) (row : Option PositionRow)
      → Maintains Holds (close_row id exit_price now row)
  unfolding close_row
  close_row-retained id exit_price now none = search maintains_rules
  close_row-retained id exit_price now (some row) =
      search (maintains_rules, written, journaled, event-retained) depth 12
    where
      written :
          (instant : DateTime) (pnl : Decimal)
          → Maintains Holds (modify (write_close id instant now pnl))
      written instant pnl = other _ (λ l. refl)

      journaled :
          (instant : DateTime) (pnl : Decimal)
          → Maintains Holds (modify (journal_close row.signal_id id instant pnl exit_price))
      journaled instant pnl = other _ (λ l. refl)

  pub close_position-retained :
      (id : String) (exit_price : Decimal) (now : DateTime)
      → Maintains Holds (close_position id exit_price now)
  unfolding close_position
  close_position-retained id exit_price now = search (maintains_rules, close_row-retained) depth 9
