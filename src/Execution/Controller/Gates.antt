-- ===== src/Execution/Controller/Gates.antt =====
-- The gates of execution/controller.py: `_check_kill_limits` and `_validate_plan`.
use techo_quant_options_pro.Prelude.{
  String, Bool, true, false, ◌&&◌, ◌||◌, not, Option, none, some, ltb, leb, pos, str_eq, is_some,
  if◌then◌else◌,
}
use techo_quant_options_pro.Decimal
use techo_quant_options_pro.Decimal.{Decimal, integer, is_finite, less, less_eq}
use techo_quant_options_pro.Text.{is_blank, is_empty}
use techo_quant_options_pro.Time.{DateTime, utc_day, exceeds, before, not_after}
use techo_quant_options_pro.Execution.Errors.{ErrorKind}
use techo_quant_options_pro.Execution.Models.{TradePlan}
use techo_quant_options_pro.Execution.Ledger.Rows.{Ledger}
use techo_quant_options_pro.Execution.Ledger.Signals.{signal_exists, set_kill_switch}
use techo_quant_options_pro.Execution.Ledger.Positions.{
  open_position_for_security, daily_realized_pnl, consecutive_losses,
}
use techo_quant_options_pro.Execution.Controller.Policy.{ExecutionPolicy, Registry, lookup}
use techo_quant_options_pro.Exec.{
  Result, Exec, raise_if, ◌then_check◌, pure, raise, lift, gets, ◌>>=◌, ◌>>◌,
}

unfoldable pub require_aware : DateTime → String → Result (Unit {0})
require_aware value message = raise_if (not value.aware) ErrorKind.plan_validation message

-- `str(current.get("reason") or "kill switch is active")`
abbrev pub switch_reason : Option String → String
switch_reason none = "kill switch is active"
switch_reason (some reason) = if is_empty reason then "kill switch is active" else reason

-- A limit that was reached: the switch goes on in the name of the system, then the error.
abbrev pub trip : String → DateTime → Exec Ledger (Unit {0})
trip reason now = do
  set_kill_switch true reason "system" now
  raise ErrorKind.kill_switch_error reason

unfoldable pub check_daily_loss : ExecutionPolicy → DateTime → Exec Ledger (Unit {0})
check_daily_loss policy now = do
  read ← gets (daily_realized_pnl (utc_day now))
  daily_pnl ← lift read
  if less_eq daily_pnl (Decimal.negate policy.max_daily_loss)
      then trip "daily loss limit reached" now
      else pure tt

unfoldable pub check_loss_streak : ExecutionPolicy → DateTime → Exec Ledger (Unit {0})
check_loss_streak policy now = do
  read ← gets consecutive_losses
  losses ← lift read
  if leb policy.max_consecutive_losses losses
      then trip "consecutive loss limit reached" now
      else pure tt

unfoldable pub check_kill_limits : ExecutionPolicy → DateTime → Exec Ledger (Unit {0})
unfolding check_daily_loss check_loss_streak
check_kill_limits policy now = do
  current ← gets (λ l. l.kill_switch)
  lift (raise_if current.active ErrorKind.kill_switch_error (switch_reason current.reason))
  check_daily_loss policy now
  check_loss_streak policy now

abbrev invalid : Bool → String → Result (Unit {0})
invalid test message = raise_if test ErrorKind.plan_validation message

-- The five texts that must not be blank.
unfoldable pub validate_names : TradePlan → Result (Unit {0})
validate_names plan =
    invalid (is_blank plan.signal_id) "signal_id is required"
    then_check invalid (is_blank plan.correlation_id) "correlation_id is required"
    then_check invalid (is_blank plan.symbol) "symbol is required"
    then_check invalid (is_blank plan.security_id) "security_id is required"
    then_check invalid (is_blank plan.strategy_version) "strategy_version is required"

abbrev pub is_registered : Option String → String → Bool
is_registered none id = false
is_registered (some expected) id = str_eq expected id

-- The registry, and the limits on quantity, price, loss and notional.
unfoldable pub validate_size : ExecutionPolicy → Registry → TradePlan → Result (Unit {0})
validate_size policy registry plan =
    invalid (not (is_registered (lookup plan.symbol registry) plan.security_id))
      "symbol/security ID does not match the execution registry"
    then_check invalid (not (ltb 0 plan.quantity && leb plan.quantity policy.max_order_quantity))
        "quantity exceeds the configured limit"
    then_check invalid
        (not (is_finite plan.limit_price) || less_eq plan.limit_price (integer (pos 0)))
        "limit price must be finite and positive"
    then_check invalid
        (not (is_finite plan.maximum_loss)
          || not (
              less (integer (pos 0)) plan.maximum_loss
              && less_eq plan.maximum_loss policy.max_plan_loss))
        "maximum plan loss exceeds the configured limit"
    then_check invalid
        (less policy.max_order_notional
          (Decimal.mul plan.limit_price (integer (pos plan.quantity))))
        "order notional exceeds the configured limit"

unfoldable pub validate_aware : TradePlan → Result (Unit {0})
unfolding require_aware
validate_aware plan =
    require_aware plan.signal_time "signal_time must be timezone-aware"
    then_check require_aware plan.data_time "data_time must be timezone-aware"
    then_check require_aware plan.valid_until "valid_until must be timezone-aware"
    then_check require_aware plan.contract_expiry "contract_expiry must be timezone-aware"

-- The age of the data, the clock skew, and the validity of the plan.
unfoldable pub validate_times : ExecutionPolicy → TradePlan → DateTime → Result (Unit {0})
validate_times policy plan now =
    invalid (exceeds now plan.data_time policy.max_data_age) "market data is stale"
    then_check invalid (exceeds plan.data_time now policy.future_clock_skew)
        "market data is future-dated"
    then_check invalid
        (before now plan.signal_time && exceeds plan.signal_time now policy.future_clock_skew)
        "signal timestamp is future-dated"
    then_check invalid (not_after plan.valid_until now) "execution plan has expired"

abbrev pub is_clear : Option Bool → Bool
is_clear (some false) = true
is_clear _ = false

unfoldable pub validate_risk : ExecutionPolicy → TradePlan → DateTime → Ledger → Result (Unit {0})
validate_risk policy plan now l =
    invalid (not (is_clear plan.event_risk_active)) "event risk must be explicitly clear"
    then_check invalid (not plan.expiry_risk_clear) "expiry-risk gate is not clear"
    then_check invalid (not (exceeds plan.contract_expiry now policy.min_expiry_buffer))
        "contract is inside the expiry-risk buffer"
    then_check raise_if (is_some (open_position_for_security plan.security_id l))
        ErrorKind.duplicate_position "an open position already exists for this security"

-- `_validate_plan`, with its checks in the order of the source.
unfoldable pub validate_plan :
    ExecutionPolicy → Registry → TradePlan → DateTime → Bool → Ledger → Result (Unit {0})
unfolding validate_names validate_size validate_aware validate_times validate_risk
validate_plan policy registry plan now check_signal l =
    raise_if (check_signal && signal_exists plan.signal_id l) ErrorKind.duplicate_signal
      "signal has already been processed"
    then_check validate_names plan
    then_check validate_size policy registry plan
    then_check validate_aware plan
    then_check validate_times policy plan now
    then_check validate_risk policy plan now l

-- `self._validate_plan(...)`: it reads the ledger and changes nothing.
unfoldable pub check_plan :
    ExecutionPolicy → Registry → TradePlan → DateTime → Bool → Exec Ledger (Unit {0})
check_plan policy registry plan now check_signal l =
    (validate_plan policy registry plan now check_signal l, l)
