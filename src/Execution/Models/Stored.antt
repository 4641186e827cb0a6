-- ===== src/Execution/Models/Stored.antt =====
-- `plan_to_dict` and `plan_from_dict` of execution/models.py: the plan that the ledger keeps as JSON.
use techo_quant_options_pro.Prelude.{
  ℕ, String, Bool, Option, none, some, List, [], ◌∷◌, find, str_eq, ◌≡◌, refl, if◌then◌else◌,
}
use techo_quant_options_pro.Decimal.{Decimal}
use techo_quant_options_pro.Time.{DateTime}
use techo_quant_options_pro.Execution.Errors.{ErrorKind}
use techo_quant_options_pro.Execution.Models.{OrderSide, TradePlan}
use techo_quant_options_pro.Exec.{Result, ok, raised}
use techo_quant_options_pro.Exec.Results.{◌>>=◌}

-- The JSON values of a plan's dict.
pub data JsonValue : Type 0 where
  text : String → JsonValue
  number : ℕ → JsonValue
  flag : Bool → JsonValue
  null : JsonValue

abbrev pub JsonDict : Type 0
JsonDict = List (String × JsonValue)

-- Python's conversions: `str` and `Decimal` of a decimal, `isoformat` and `fromisoformat`, `str`,
-- `int` and `bool` of a JSON value.
pub record Conversions : Type 0 where
  pub decimal_text : Decimal → String
  pub decimal_of : String → Result Decimal
  pub time_text : DateTime → String
  pub time_of : String → Result DateTime
  pub text_of : JsonValue → String
  pub int_of : JsonValue → Result ℕ
  pub bool_of : JsonValue → Bool

abbrev side_value : OrderSide → String
side_value OrderSide.buy = "BUY"
side_value OrderSide.sell = "SELL"

abbrev side_of : String → Result OrderSide
side_of s =
    if str_eq s "BUY"
    then ok OrderSide.buy
    else if str_eq s "SELL"
    then ok OrderSide.sell
    else raised ErrorKind.value_error "is not a valid OrderSide"

abbrev event_value : Option Bool → JsonValue
event_value none = JsonValue.null
event_value (some b) = JsonValue.flag b

unfoldable pub plan_to_dict : Conversions → TradePlan → JsonDict
plan_to_dict c plan =
    ("signal_id", JsonValue.text plan.signal_id)
    ∷ ("correlation_id", JsonValue.text plan.correlation_id)
    ∷ ("symbol", JsonValue.text plan.symbol)
    ∷ ("security_id", JsonValue.text plan.security_id)
    ∷ ("side", JsonValue.text (side_value plan.side))
    ∷ ("quantity", JsonValue.number plan.quantity)
    ∷ ("limit_price", JsonValue.text (c.decimal_text plan.limit_price))
    ∷ ("maximum_loss", JsonValue.text (c.decimal_text plan.maximum_loss))
    ∷ ("signal_time", JsonValue.text (c.time_text plan.signal_time))
    ∷ ("data_time", JsonValue.text (c.time_text plan.data_time))
    ∷ ("valid_until", JsonValue.text (c.time_text plan.valid_until))
    ∷ ("contract_expiry", JsonValue.text (c.time_text plan.contract_expiry))
    ∷ ("event_risk_active", event_value plan.event_risk_active)
    ∷ ("expiry_risk_clear", JsonValue.flag plan.expiry_risk_clear)
    ∷ ("strategy_version", JsonValue.text plan.strategy_version)
    ∷ []

abbrev item_of : Option (String × JsonValue) → Result JsonValue
item_of none = raised ErrorKind.lookup_error ""
item_of (some e) = ok e.1

-- `value[key]`
abbrev item : JsonDict → String → Result JsonValue
item d key = item_of (find (λ (e : String × JsonValue). str_eq e.0 key) d)

-- `value.get(key)`, as a flag or none.
abbrev flag_of : Result JsonValue → Option Bool
flag_of (ok (JsonValue.flag b)) = some b
flag_of _ = none

abbrev text_at : Conversions → JsonDict → String → Result String
text_at c d key = item d key >>= λ v. ok (c.text_of v)

unfoldable pub plan_from_dict : Conversions → JsonDict → Result TradePlan
plan_from_dict c d = do
  signal_id ← text_at c d "signal_id"
  correlation_id ← text_at c d "correlation_id"
  symbol ← text_at c d "symbol"
  security_id ← text_at c d "security_id"
  side ← text_at c d "side" >>= side_of
  quantity ← item d "quantity" >>= c.int_of
  limit_price ← text_at c d "limit_price" >>= c.decimal_of
  maximum_loss ← text_at c d "maximum_loss" >>= c.decimal_of
  signal_time ← text_at c d "signal_time" >>= c.time_of
  data_time ← text_at c d "data_time" >>= c.time_of
  valid_until ← text_at c d "valid_until" >>= c.time_of
  contract_expiry ← text_at c d "contract_expiry" >>= c.time_of
  clear ← item d "expiry_risk_clear"
  strategy_version ← text_at c d "strategy_version"
  ok (record {
    signal_id = signal_id;
    correlation_id = correlation_id;
    symbol = symbol;
    security_id = security_id;
    side = side;
    quantity = quantity;
    limit_price = limit_price;
    maximum_loss = maximum_loss;
    signal_time = signal_time;
    data_time = data_time;
    valid_until = valid_until;
    contract_expiry = contract_expiry;
    event_risk_active = flag_of (item d "event_risk_active");
    expiry_risk_clear = c.bool_of clear;
    strategy_version = strategy_version;
  })

-- What the conversions promise: each reads back what the other wrote, here for one plan's values.
pub record IsReadBack (c : Conversions) (plan : TradePlan) : Type 0 where
  pub strings : (s : String) → c.text_of (JsonValue.text s) ≡ s
  pub numbers : c.int_of (JsonValue.number plan.quantity) ≡ ok plan.quantity
  pub flags : (b : Bool) → c.bool_of (JsonValue.flag b) ≡ b
  pub price : c.decimal_of (c.decimal_text plan.limit_price) ≡ ok plan.limit_price
  pub loss : c.decimal_of (c.decimal_text plan.maximum_loss) ≡ ok plan.maximum_loss
  pub signal_time : c.time_of (c.time_text plan.signal_time) ≡ ok plan.signal_time
  pub data_time : c.time_of (c.time_text plan.data_time) ≡ ok plan.data_time
  pub valid_until : c.time_of (c.time_text plan.valid_until) ≡ ok plan.valid_until
  pub contract_expiry : c.time_of (c.time_text plan.contract_expiry) ≡ ok plan.contract_expiry

side_of-side_value : (s : OrderSide) → side_of (side_value s) ≡ ok s
side_of-side_value OrderSide.buy = refl
side_of-side_value OrderSide.sell = refl

flag_of-event_value : (o : Option Bool) → flag_of (ok (event_value o)) ≡ o
flag_of-event_value none = refl
flag_of-event_value (some b) = refl

-- Where the conversions of Python read back a plan's values, the plan that was stored is the plan
-- that is loaded, whatever its side and its event risk.
pub stored_plan :
    (c : Conversions) (plan : TradePlan)
    → IsReadBack c plan
    → plan_from_dict c (plan_to_dict c plan) ≡ ok plan
unfolding plan_from_dict plan_to_dict ◌>>=◌
stored_plan c plan h =
    simp
      (
        h.strings, h.numbers, h.flags, h.price, h.loss, h.signal_time, h.data_time, h.valid_until,
        h.contract_expiry, side_of-side_value, flag_of-event_value,
      )
      refl
