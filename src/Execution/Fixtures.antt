-- ===== src/Execution/Fixtures.antt =====
-- Concrete plans, policies and ledgers for the tests and the instances of the theorems.
use techo_quant_options_pro.Prelude.{ℕ, ◌*◌, String, true, false, some, [], ◌∷◌, pos}
use techo_quant_options_pro.Decimal.{finite, integer}
use techo_quant_options_pro.Time.{DateTime}
use techo_quant_options_pro.Execution.Models.{
  ExecutionMode, OrderSide, OrderState, TradePlan, LiveOrderAcknowledgement,
}
use techo_quant_options_pro.Execution.Ledger.Rows.{create_schema}
use techo_quant_options_pro.Execution.Controller.Policy.{ExecutionPolicy}
use techo_quant_options_pro.Execution.Controller.Actions.{
  LiveGateway, World, Setup, Submitted, Reconciled,
}

abbrev pub at : ℕ → DateTime
at seconds = record { instant = seconds * 1000000; aware = true }

abbrev pub policy : ExecutionMode → ExecutionPolicy
policy mode = record {
  mode = mode;
  max_data_age = 30000000;
  future_clock_skew = 2000000;
  min_expiry_buffer = 900000000;
  max_order_quantity = 10000;
  max_order_notional = integer (pos 1000000);
  max_plan_loss = integer (pos 50000);
  max_daily_loss = integer (pos 100000);
  max_consecutive_losses = 3;
  live_enabled = true;
}

abbrev pub plan : String → TradePlan
plan id = record {
  signal_id = id;
  correlation_id = id;
  symbol = "NIFTY-CE";
  security_id = "42";
  side = OrderSide.buy;
  quantity = 75;
  limit_price = finite (pos 10050) 2;
  maximum_loss = integer (pos 2000);
  signal_time = at 99990;
  data_time = at 99995;
  valid_until = at 100060;
  contract_expiry = at 200000;
  event_risk_active = some false;
  expiry_risk_clear = true;
  strategy_version = "1";
}

-- A gateway whose state is the answer that it gives.
abbrev pub gateway : LiveGateway Submitted
gateway = record {
  submit_order = λ plan id g. (g, g);
  lookup_by_correlation = λ id g. (Reconciled.absent, g);
}

abbrev pub setup : ExecutionMode → Setup Submitted
setup mode = record {
  policy = policy mode;
  registry = ("NIFTY-CE", "42") ∷ [];
  paper = record { slippage_bps = integer (pos 5); partial_fill_ratio = finite (pos 5) 1 };
  live = some gateway;
  digest = λ s. s;
}

abbrev pub world : Submitted → World Submitted
world answer = record { ledger = create_schema (at 0); gateway = answer; sent = [] }

abbrev pub acknowledgement : LiveOrderAcknowledgement
acknowledgement = record {
  broker_order_id = "b-1";
  correlation_id = "s-1";
  state = OrderState.filled;
  filled_quantity = pos 75;
  average_fill_price = some (finite (pos 10049) 2);
}
