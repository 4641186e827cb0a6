-- ===== src/Signals/Adapters.antt =====
-- `to_execution_plan` of signals/adapters.py. A negative quantity becomes 0, which the gates refuse
-- alike.
use techo_quant_options_pro.Prelude.{
  ◌+◌, not, ◌||◌, ℤ, pos, pos_part, leb_ℤ, ltb_ℤ, str_eq, if◌then◌else◌,
}
use techo_quant_options_pro.Decimal
use techo_quant_options_pro.Decimal.{integer}
use techo_quant_options_pro.Time.{DateTime, before, exceeds}
use techo_quant_options_pro.Execution.Errors.{ErrorKind}
use techo_quant_options_pro.Execution.Models.{OrderSide, TradePlan as ExecutionTradePlan}
use techo_quant_options_pro.Exec.{Result, ok, raise_if}
use techo_quant_options_pro.Exec.Results.{◌>>◌}
use techo_quant_options_pro.Domain.Models.{AtomicSnapshot, Hashing, same_bool}
use techo_quant_options_pro.Strategy.Config.{refuse}
use techo_quant_options_pro.Signals.Models.{TradePlan}

unfoldable pub require_same_snapshot : Hashing → TradePlan → AtomicSnapshot → Result (Unit {0})
require_same_snapshot hash plan s =
    refuse
      (not (str_eq plan.snapshot_id s.snapshot_id)
        || not (str_eq plan.contract_key (hash.contract_key s.contract))
        || not (str_eq plan.strategy_version s.strategy_version))
      "trade plan is not bound to the supplied snapshot"

abbrev after : DateTime → ℤ → DateTime
after t microseconds = record t { instant = t.instant + pos_part microseconds }

abbrev earlier_of : DateTime → DateTime → DateTime
earlier_of a b = if before b a then b else a

unfoldable pub execution_plan : TradePlan → AtomicSnapshot → ℤ → ℤ → ExecutionTradePlan
execution_plan plan s validity buffer = record {
  signal_id = plan.signal_id;
  correlation_id = plan.signal_id;
  symbol = plan.symbol;
  security_id = plan.security_id;
  side = OrderSide.buy;
  quantity = pos_part plan.quantity;
  limit_price = plan.entry;
  maximum_loss = Decimal.mul plan.risk_per_lot (integer plan.lots);
  signal_time = plan.generated_at;
  data_time = s.source_timestamp;
  valid_until = earlier_of plan.expiry (after plan.generated_at validity);
  contract_expiry = plan.expiry;
  event_risk_active = s.context.event_risk_active;
  expiry_risk_clear = exceeds plan.expiry plan.generated_at (pos_part buffer);
  strategy_version = plan.strategy_version;
}

-- The validity and the buffer are in microseconds.
unfoldable pub to_execution_plan :
    Hashing → TradePlan → AtomicSnapshot → ℤ → ℤ → Result ExecutionTradePlan
unfolding require_same_snapshot execution_plan
to_execution_plan hash plan s validity buffer = do
  require_same_snapshot hash plan s
  raise_if (not plan.actionable) ErrorKind.value_error
      "only an actionable BUY plan can enter execution control"
  raise_if (leb_ℤ validity (pos 0) || ltb_ℤ buffer (pos 0)) ErrorKind.value_error
      "execution validity and expiry buffer are invalid"
  raise_if (not (same_bool plan.expiry.aware plan.generated_at.aware)) ErrorKind.type_error
      "can't compare offset-naive and offset-aware datetimes"
  ok (execution_plan plan s validity buffer)
