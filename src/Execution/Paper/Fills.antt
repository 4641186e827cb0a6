-- ===== src/Execution/Paper/Fills.antt =====
-- What an order of execution/paper.py says of its fills.
use techo_quant_options_pro.Prelude.{
  ℕ, ◌+◌, ◌≤◌, ◌<◌, true, ◌≡◌, refl, subst, Option, none, some, List, [], ◌∷◌, arith, pos, String,
  All, Bool-cases, inl, inr, ltb,
}
use techo_quant_options_pro.Decimal.{Decimal, integer, less}
use techo_quant_options_pro.Time.{DateTime}
use techo_quant_options_pro.Execution.Models.{
  TradePlan, BrokerOrder, BrokerFill, OrderState, FillState,
}
use techo_quant_options_pro.Execution.Paper.{
  PaperBrokerConfig, filled_quantity, fill_price, order_state, paper_fills, paper_order, placed,
  submit, fill_state,
}
use techo_quant_options_pro.Exec.{ok}
use techo_quant_options_pro.Exec.Outcome.{ok_injective}

-- The contracts of a list of fills.
abbrev pub total_quantity : List BrokerFill → ℕ
total_quantity [] = 0
total_quantity (f ∷ fs) = f.quantity + total_quantity fs

-- What the state of an order says of its filled and its whole quantity.
pub StateSays : OrderState → ℕ → ℕ → Type 0
StateSays OrderState.filled filled quantity = filled ≡ quantity
StateSays OrderState.partially_filled filled quantity = (0 < filled) × (filled < quantity)
StateSays OrderState.acknowledged filled quantity = (filled ≡ 0) × (0 < quantity)
StateSays _ filled quantity = ⊥

-- What the state of a fill says.
pub FillSays : FillState → ℕ → ℕ → Type 0
FillSays FillState.complete filled quantity = filled ≡ quantity
FillSays FillState.partial filled quantity = filled < quantity

-- A fill belongs to its order, fills something at the order's average price, and its state says
-- whether that was the rest.
pub record IsFillOf (o : BrokerOrder) (f : BrokerFill) : Type 0 where
  order : f.order_id ≡ o.order_id
  something : 0 < f.quantity
  price : o.average_fill_price ≡ some f.price
  state : FillSays f.state f.quantity o.quantity

-- An order and its fills tell one story.
pub record Agrees (plan : TradePlan) (o : BrokerOrder) (fs : List BrokerFill) : Type 0 where
  pub quantity : o.quantity ≡ plan.quantity
  pub within : o.filled_quantity ≤ o.quantity
  pub total : total_quantity fs ≡ o.filled_quantity
  pub state : StateSays o.state o.filled_quantity o.quantity
  pub each : All (IsFillOf o) fs
  pub identity :
      (o.signal_id ≡ plan.signal_id)
      × (o.correlation_id ≡ plan.correlation_id)
      × (o.security_id ≡ plan.security_id)

filled-le : (c : PaperBrokerConfig) (quantity : ℕ) → filled_quantity c quantity ≤ quantity
unfolding filled_quantity
filled-le c quantity = ground arith

-- With a positive ratio an order for something is filled by something.
pub filled_pos :
    (c : PaperBrokerConfig) (quantity : ℕ)
    → 0 < quantity
    → less (integer (pos 0)) c.partial_fill_ratio ≡ true
    → 0 < filled_quantity c quantity
unfolding filled_quantity
filled_pos c quantity h ratio = ground arith

order_state-says :
    (filled quantity : ℕ)
    → filled ≤ quantity
    → StateSays (order_state filled quantity) filled quantity
unfolding StateSays
order_state-says filled quantity h = ground arith

fill_state-says :
    (filled quantity : ℕ)
    → filled ≤ quantity
    → FillSays (fill_state filled quantity) filled quantity
unfolding FillSays
fill_state-says filled quantity h = ground arith

-- The state is determined by what it says.
pub StateSays-order_state :
    (state : OrderState) (filled quantity : ℕ)
    → StateSays state filled quantity
    → state ≡ order_state filled quantity
unfolding StateSays
StateSays-order_state OrderState.filled filled quantity h = ground arith
StateSays-order_state OrderState.partially_filled filled quantity h = ground arith
StateSays-order_state OrderState.acknowledged filled quantity h = ground arith
StateSays-order_state OrderState.pending filled quantity h = elim h [ ]
StateSays-order_state OrderState.rejected filled quantity h = elim h [ ]
StateSays-order_state OrderState.cancelled filled quantity h = elim h [ ]
StateSays-order_state OrderState.unknown filled quantity h = elim h [ ]

module _ (digest : String → String) where
  fills-IsFillOf :
      (plan : TradePlan) (now : DateTime) (filled : ℕ) (price : Decimal)
      → filled ≤ plan.quantity
      → All
          (IsFillOf (paper_order digest plan filled price now))
          (paper_fills digest plan filled price now)
  fills-IsFillOf plan now filled price h = elim (Bool-cases (ltb 0 filled)) [
    | inl e ↦ rw e (
      record {
        order = refl;
        something = ground (arith, e);
        price = refl;
        state = fill_state-says filled plan.quantity h;
      },
      tt,
    )
    | inr e ↦ rw e tt
  ]

  order-Agrees :
      (plan : TradePlan) (now : DateTime) (filled : ℕ) (price : Decimal)
      → filled ≤ plan.quantity
      → Agrees plan
          (paper_order digest plan filled price now)
          (paper_fills digest plan filled price now)
  order-Agrees plan now filled price h = record {
    quantity = refl;
    within = h;
    total = ground arith;
    state = order_state-says filled plan.quantity h;
    each = fills-IsFillOf plan now filled price h;
    identity = (refl, refl, refl);
  }

  placed-Agrees :
      (plan : TradePlan) (now : DateTime) (filled : ℕ) (price : Option Decimal)
      (r : BrokerOrder × List BrokerFill)
      → filled ≤ plan.quantity
      → placed digest plan now filled price ≡ ok r
      → Agrees plan r.0 r.1
  placed-Agrees plan now filled none r h e = cc
  placed-Agrees plan now filled (some price) r h e =
      subst (λ (x : BrokerOrder × List BrokerFill). Agrees plan x.0 x.1) (ok_injective e)
        (order-Agrees plan now filled price h)

  -- An order of the paper broker has the plan's identity and quantity, and is filled by no more than
  -- its quantity. Its state is FILLED only when all of it was filled, PARTIALLY_FILLED when a part
  -- was, and ACKNOWLEDGED when nothing was. Its fills add up to the filled quantity, each has the
  -- order's ID and average price, and is complete only when it fills the whole order.
  pub submit-Agrees :
      (c : PaperBrokerConfig) (plan : TradePlan) (now : DateTime)
      (r : BrokerOrder × List BrokerFill)
      → submit digest c plan now ≡ ok r
      → Agrees plan r.0 r.1
  unfolding submit
  submit-Agrees c plan now r e =
      placed-Agrees plan now (filled_quantity c plan.quantity) (fill_price c plan) r
        (filled-le c plan.quantity) e
