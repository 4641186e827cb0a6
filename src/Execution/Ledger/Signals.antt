-- ===== src/Execution/Ledger/Signals.antt =====
-- The signals, approvals and kill switch of execution/ledger.py.
use techo_quant_options_pro.Prelude.{
  String, Bool, ◌||◌, not, Option, none, some, List, [], ◌∷◌, any, find, update_where, str_eq,
  if◌then◌else◌,
}
use techo_quant_options_pro.Text.{strip, is_blank, is_empty}
use techo_quant_options_pro.Time.{DateTime, before}
use techo_quant_options_pro.Execution.Errors.{ErrorKind}
use techo_quant_options_pro.Execution.Models.{TradePlan, Approval, SignalExecutionState}
use techo_quant_options_pro.Execution.Ledger.Rows.{
  Ledger, SignalRow, ApprovalRow, KillSwitchRow, Payload, timestamp, event,
}
use techo_quant_options_pro.Exec.{
  Exec, raise_if, ok, raised, lift, modify, gets, transaction, ◌>>=◌, ◌>>◌,
}

abbrev pub has_signal_id : String → SignalRow → Bool
has_signal_id id row = str_eq row.signal_id id

abbrev pub has_correlation : String → SignalRow → Bool
has_correlation id row = str_eq row.correlation_id id

abbrev pub approves : String → ApprovalRow → Bool
approves id row = str_eq row.signal_id id

-- `INSERT INTO signals`: the primary key and the unique correlation.
unfoldable pub insert_signal : SignalRow → Exec Ledger (Unit {0})
insert_signal row l =
    if any (has_signal_id row.signal_id) l.signals
      || any (has_correlation row.correlation_id) l.signals
    then (
      raised ErrorKind.duplicate_signal "signal_id or correlation_id has already been recorded",
      l,
    )
    else (ok tt, record l { signals = row ∷ l.signals })

abbrev pub signal_row : TradePlan → SignalExecutionState → DateTime → SignalRow
signal_row plan state when = record {
  signal_id = plan.signal_id;
  correlation_id = plan.correlation_id;
  symbol = plan.symbol;
  security_id = plan.security_id;
  plan = plan;
  state = state;
  received_at = when;
  updated_at = when;
}

unfoldable pub record_signal : TradePlan → SignalExecutionState → DateTime → Exec Ledger (Unit {0})
record_signal plan state recorded_at = do
  when ← lift (timestamp recorded_at)
  transaction (do
    insert_signal (signal_row plan state when)
    event "SIGNAL_RECORDED" plan.signal_id recorded_at (Payload.signal_state state))

abbrev pub signal_exists : String → Ledger → Bool
signal_exists signal_id l = any (has_signal_id signal_id) l.signals

abbrev pub with_state : SignalExecutionState → DateTime → SignalRow → SignalRow
with_state state when row = record row { state = state; updated_at = when }

-- `UPDATE signals SET state = ?, updated_at = ? WHERE signal_id = ?`
abbrev pub set_signal_state : String → SignalExecutionState → DateTime → Ledger → Ledger
set_signal_state signal_id state when l = record l {
  signals = update_where (has_signal_id signal_id) (with_state state when) l.signals;
}

-- The row count is 1 where the row is there, since `signal_id` is the primary key.
unfoldable pub update_signal_state :
    String → SignalExecutionState → DateTime → Exec Ledger (Unit {0})
update_signal_state signal_id state now = transaction (do
  when ← lift (timestamp now)
  present ← gets (signal_exists signal_id)
  modify (set_signal_state signal_id state when)
  lift (raise_if (not present) ErrorKind.execution_error "signal does not exist")
  event "SIGNAL_STATE_CHANGED" signal_id now (Payload.signal_state state))

abbrev pub stored_plan : Option SignalRow → Option TradePlan
stored_plan none = none
stored_plan (some row) = some row.plan

abbrev pub stored_state : Option SignalRow → Option SignalExecutionState
stored_state none = none
stored_state (some row) = some row.state

abbrev pub plan : String → Ledger → Option TradePlan
plan signal_id l = stored_plan (find (has_signal_id signal_id) l.signals)

abbrev pub signal_state : String → Ledger → Option SignalExecutionState
signal_state signal_id l = stored_state (find (has_signal_id signal_id) l.signals)

-- `ORDER BY received_at DESC, rowid DESC LIMIT 1`
latest_of : SignalRow → List SignalRow → SignalRow
latest_of best [] = best
latest_of best (row ∷ rows) =
    latest_of (if before best.received_at row.received_at then row else best) rows

unfoldable pub latest_signal : Ledger → Option SignalRow
unfolding latest_of
latest_signal l = elim l.signals [ [] ↦ none | row ∷ rows ↦ some (latest_of row rows) ]

-- `INSERT INTO approvals`: the primary key and the foreign key.
unfoldable pub insert_approval : ApprovalRow → Exec Ledger (Unit {0})
insert_approval row l =
    if any (approves row.signal_id) l.approvals || not (any (has_signal_id row.signal_id) l.signals)
    then (raised ErrorKind.approval_error "signal is missing or already approved", l)
    else (ok tt, record l { approvals = row ∷ l.approvals })

abbrev pub approval_row : String → String → String → DateTime → ApprovalRow
approval_row signal_id actor reason when = record {
  signal_id = signal_id;
  actor = actor;
  reason = reason;
  approved_at = when;
}

unfoldable pub record_approval : Approval → Exec Ledger (Unit {0})
record_approval a =
    let actor = strip a.actor in
    let reason = strip a.reason in
    do
      lift (
          raise_if (is_empty actor || is_empty reason) ErrorKind.approval_error
            "approval requires actor and reason")
      when ← lift (timestamp a.approved_at)
      transaction (do
        insert_approval (approval_row a.signal_id actor reason when)
        event "MANUAL_APPROVAL_RECORDED" a.signal_id a.approved_at (Payload.approval actor reason))

abbrev pub approval : String → Ledger → Option ApprovalRow
approval signal_id l = find (approves signal_id) l.approvals

abbrev pub switched : Bool → String → String → DateTime → KillSwitchRow
switched active reason actor when = record {
  active = active;
  reason = some reason;
  actor = some actor;
  changed_at = when;
}

unfoldable pub set_kill_switch : Bool → String → String → DateTime → Exec Ledger (Unit {0})
set_kill_switch active reason actor changed_at = do
  lift (
      raise_if (is_blank actor || is_blank reason) ErrorKind.execution_error
        "kill-switch change requires actor and reason")
  transaction (do
    when ← lift (timestamp changed_at)
    modify (λ l. record l { kill_switch = switched active (strip reason) (strip actor) when })
    event "KILL_SWITCH_CHANGED" "global" changed_at
        (Payload.kill_switch active (strip reason) (strip actor)))
