-- ===== src/Execution/Paper.antt =====
-- backend/src/teco_quant/execution/paper.py: deterministic fills.
pub mod Fills
use Prim.Native.String.{◌++◌ as text_append}
use techo_quant_options_pro.Prelude.{
  ℕ, String, ◌&&◌, ◌||◌, not, Option, none, some, List, [], ◌∷◌, min, ltb, ◌==◌, if◌then◌else◌, pos,
  pos_part,
}
use techo_quant_options_pro.Decimal
use techo_quant_options_pro.Decimal.{Decimal, integer, is_finite, less, less_eq}
use techo_quant_options_pro.Time.{DateTime}
use techo_quant_options_pro.Execution.Errors.{ErrorKind}
use techo_quant_options_pro.Execution.Models.{
  OrderSide, OrderState, FillState, TradePlan, BrokerOrder, BrokerFill,
}
use techo_quant_options_pro.Exec.{Result, ok, raised, raise_if, ◌then_check◌}

pub record PaperBrokerConfig : Type 0 where
  pub slippage_bps : Decimal
  pub partial_fill_ratio : Decimal

-- `__post_init__`
unfoldable pub validate_paper_config : PaperBrokerConfig → Result (Unit {0})
validate_paper_config c =
    raise_if
      (not (is_finite c.slippage_bps)
        || less c.slippage_bps (integer (pos 0))
        || less_eq (integer (pos 10000)) c.slippage_bps)
      ErrorKind.value_error "slippage_bps must be finite and within 0..9999"
    then_check raise_if
        (not (is_finite c.partial_fill_ratio)
          || not (
              less_eq (integer (pos 0)) c.partial_fill_ratio
              && less_eq c.partial_fill_ratio (integer (pos 1))))
        ErrorKind.value_error "partial_fill_ratio must be within 0..1"

-- `int((Decimal(quantity) * ratio).to_integral_value(rounding=ROUND_FLOOR))`
abbrev pub scaled_quantity : ℕ → Decimal → ℕ
scaled_quantity quantity ratio =
    pos_part (Decimal.floor (Decimal.mul (integer (pos quantity)) ratio))

unfoldable pub filled_quantity : PaperBrokerConfig → ℕ → ℕ
filled_quantity c quantity =
    let scaled = scaled_quantity quantity c.partial_fill_ratio in
    let at_least_one =
      if less (integer (pos 0)) c.partial_fill_ratio && scaled == 0 then 1 else scaled in
    min quantity at_least_one

abbrev pub signed_slippage : OrderSide → Decimal → Decimal
signed_slippage OrderSide.buy slippage = slippage
signed_slippage OrderSide.sell slippage = Decimal.negate slippage

unfoldable pub fill_price : PaperBrokerConfig → TradePlan → Option Decimal
fill_price c plan =
    let slippage =
      signed_slippage plan.side (Decimal.divide c.slippage_bps (integer (pos 10000))) in
    Decimal.quantize_4 (Decimal.mul plan.limit_price (Decimal.add (integer (pos 1)) slippage))

abbrev pub order_state : ℕ → ℕ → OrderState
order_state filled quantity =
    if filled == quantity
    then OrderState.filled
    else if ltb 0 filled
    then OrderState.partially_filled
    else OrderState.acknowledged

abbrev pub fill_state : ℕ → ℕ → FillState
fill_state filled quantity = if filled == quantity then FillState.complete else FillState.partial

-- The first 20 hexadecimal digits of the SHA-256 of a text, from Python's hashlib.
module _ (digest : String → String) where
  abbrev pub paper_order_id : TradePlan → String
  paper_order_id plan = text_append "paper-order-" (digest plan.correlation_id)

  abbrev pub paper_fill_id : TradePlan → String
  paper_fill_id plan = text_append (text_append "paper-fill-" (digest plan.correlation_id)) "-1"

  abbrev pub paper_fills : TradePlan → ℕ → Decimal → DateTime → List BrokerFill
  paper_fills plan filled price now =
      if ltb 0 filled
      then record {
        fill_id = paper_fill_id plan;
        order_id = paper_order_id plan;
        quantity = filled;
        price = price;
        state = fill_state filled plan.quantity;
        filled_at = now;
      }
        ∷ []
      else []

  abbrev pub paper_order : TradePlan → ℕ → Decimal → DateTime → BrokerOrder
  paper_order plan filled price now = record {
    order_id = paper_order_id plan;
    correlation_id = plan.correlation_id;
    signal_id = plan.signal_id;
    symbol = plan.symbol;
    security_id = plan.security_id;
    side = plan.side;
    quantity = plan.quantity;
    filled_quantity = filled;
    limit_price = plan.limit_price;
    average_fill_price = if ltb 0 filled then some price else none;
    state = order_state filled plan.quantity;
    submitted_at = now;
  }

  -- The order and its fills, once the quantity and the price are known.
  abbrev pub placed :
      TradePlan → DateTime → ℕ → Option Decimal → Result (BrokerOrder × List BrokerFill)
  placed plan now filled none = raised ErrorKind.invalid_operation "quantize"
  placed plan now filled (some price) =
      ok (paper_order plan filled price now, paper_fills plan filled price now)

  unfoldable pub submit :
      PaperBrokerConfig → TradePlan → DateTime → Result (BrokerOrder × List BrokerFill)
  unfolding filled_quantity fill_price
  submit c plan now = placed plan now (filled_quantity c plan.quantity) (fill_price c plan)
