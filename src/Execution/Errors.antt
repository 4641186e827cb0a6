-- ===== src/Execution/Errors.antt =====
-- backend/src/teco_quant/execution/errors.py: the exception classes with their stable API codes,
-- and the exceptions of Python and SQLite that the backend lets out.
use techo_quant_options_pro.Prelude.{String}

pub data ErrorKind : Type 0 where
  execution_error : ErrorKind
  execution_blocked : ErrorKind
  plan_validation : ErrorKind
  duplicate_signal : ErrorKind
  duplicate_position : ErrorKind
  approval_error : ErrorKind
  kill_switch_error : ErrorKind
  live_execution_disabled : ErrorKind
  execution_uncertain : ErrorKind
  -- sqlite3.IntegrityError, decimal.InvalidOperation, TypeError, ValueError,
  -- AssertionError, any other exception of a broker gateway, ArithmeticError (a division by
  -- zero), and StopIteration or KeyError
  integrity_error : ErrorKind
  invalid_operation : ErrorKind
  type_error : ErrorKind
  value_error : ErrorKind
  assertion_error : ErrorKind
  gateway_error : ErrorKind
  arithmetic_error : ErrorKind
  lookup_error : ErrorKind

-- The `code` attribute; the foreign exceptions have none.
pub code : ErrorKind → String
code ErrorKind.execution_error = "EXECUTION_ERROR"
code ErrorKind.execution_blocked = "EXECUTION_BLOCKED"
code ErrorKind.plan_validation = "INVALID_PLAN"
code ErrorKind.duplicate_signal = "DUPLICATE_SIGNAL"
code ErrorKind.duplicate_position = "DUPLICATE_POSITION"
code ErrorKind.approval_error = "INVALID_APPROVAL"
code ErrorKind.kill_switch_error = "KILL_SWITCH_ACTIVE"
code ErrorKind.live_execution_disabled = "LIVE_EXECUTION_DISABLED"
code ErrorKind.execution_uncertain = "EXECUTION_UNCERTAIN"
code _ = ""
