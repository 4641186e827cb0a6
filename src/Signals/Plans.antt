-- ===== src/Signals/Plans.antt =====
-- `_draft_plan` and `_TradePlanDraft` of signals/pipeline.py. A draft is a plan that waits for the
-- decision.
use Prim.Native.String.{◌++◌ as text_append}
use techo_quant_options_pro.Prelude.{
  ◌+◌, ◌-◌, ◌/◌, ◌^◌, String, Bool, true, false, ◌&&◌, List, [], ◌∷◌, map, str_eq, ℤ, pos, negsuc,
  sub_ℕ, if◌then◌else◌,
}
use techo_quant_options_pro.Decimal
use techo_quant_options_pro.Decimal.{Decimal, finite, integer, less, less_eq, floor, maximum}
use techo_quant_options_pro.Float.{Float, decimal_of_text}
use techo_quant_options_pro.Time.{DateTime}
use techo_quant_options_pro.Execution.Errors.{ErrorKind}
use techo_quant_options_pro.Exec.{Result, ok, raised}
use techo_quant_options_pro.Exec.Results.{◌>>=◌, ◌>>◌}
use techo_quant_options_pro.Domain.Enums.{DecisionState}
use techo_quant_options_pro.Domain.Models.{AtomicSnapshot, InstrumentMasterRecord}
use techo_quant_options_pro.Strategy.Config.{StrategyConfig}
use techo_quant_options_pro.Strategy.Sizing.{
  PositionSizeResult, SizeRequest, calculate_position_size,
}
use techo_quant_options_pro.Signals.Policy.{EvidencePolicy, Environment}
use techo_quant_options_pro.Signals.Models.{TradePlan}
use techo_quant_options_pro.Signals.Candidates.{Candidate}

-- `to_integral_value(rounding=ROUND_CEILING)` of a finite value.
unfoldable pub ceiling : Decimal → ℤ
ceiling (finite (pos n) p) = pos ((n + (10 ^ p - 1)) / 10 ^ p)
ceiling (finite (negsuc n) p) = sub_ℕ 0 ((n + 1) / 10 ^ p)
ceiling _ = pos 0

unfoldable pub round_up : Decimal → Decimal → Decimal
unfolding ceiling
round_up value tick = Decimal.mul (integer (ceiling (Decimal.divide value tick))) tick

unfoldable pub round_down : Decimal → Decimal → Decimal
round_down value tick = Decimal.mul (integer (floor (Decimal.divide value tick))) tick

abbrev pub is_buy : DecisionState → Bool
is_buy DecisionState.buy_call = true
is_buy DecisionState.buy_put = true
is_buy _ = false

abbrev pub Draft : Type 0
Draft = DecisionState → TradePlan

abbrev smaller : Decimal → Decimal → Decimal
smaller a b = if less b a then b else a

abbrev pub stop_of : Decimal → Decimal → Decimal → Decimal
stop_of entry distance tick =
    smaller (Decimal.sub entry tick) (round_up (maximum tick (Decimal.sub entry distance)) tick)

abbrev pub target_of : Decimal → Decimal → Decimal → Float → Decimal
target_of entry stop tick multiple =
    round_down (Decimal.add entry (Decimal.mul (Decimal.sub entry stop) (decimal_of_text multiple)))
      tick

-- The symbol of the first record with the security ID.
abbrev symbol_of : String → List InstrumentMasterRecord → Result String
symbol_of id [] = raised ErrorKind.lookup_error ""
symbol_of id (r ∷ rs) =
    let rest = symbol_of id rs in
    if str_eq r.instrument.security_id id then ok r.instrument.symbol else rest

abbrev nonzero : Decimal → Result (Unit {0})
nonzero tick =
    if less_eq tick (integer (pos 0)) && less_eq (integer (pos 0)) tick
    then raised ErrorKind.arithmetic_error "division by zero"
    else ok tt

-- What the drafted plan says, whatever the decision.
unfoldable pub draft_of :
    Environment
    → StrategyConfig
    → EvidencePolicy
    → AtomicSnapshot
    → Candidate
    → Float
    → DateTime
    → Decimal
    → Decimal
    → PositionSizeResult
    → String
    → Draft
draft_of env c p s best score_gap generated_at entry stop position symbol decision = record {
  signal_id = text_append "signal:" (env.signal_hash s best.quote p.version);
  snapshot_id = s.snapshot_id;
  contract_key = env.hash.contract_key s.contract;
  strategy_version = s.strategy_version;
  evidence_version = p.version;
  generated_at = generated_at;
  decision = decision;
  actionable = is_buy decision;
  symbol = symbol;
  security_id = best.quote.security_id;
  option_type = best.quote.option_type;
  strike = best.quote.strike;
  expiry = best.quote.expiry;
  score = best.score;
  score_gap = score_gap;
  entry = entry;
  stop = stop;
  targets = map (target_of entry stop s.contract.tick_size) c.target_r_multiples;
  lot_size = s.contract.lot_size;
  lots = position.maximum_lots;
  quantity = position.quantity;
  maximum_risk = position.maximum_risk;
  risk_per_lot = position.risk_per_lot;
  premium_required = Decimal.mul position.premium_per_lot (integer position.maximum_lots);
}

abbrev pub size_request : AtomicSnapshot → Decimal → Decimal → Decimal → SizeRequest
size_request s entry stop cost = record {
  account_capital = s.context.account_capital;
  risk_rate = s.context.risk_per_trade;
  maximum_premium_allocation = s.context.maximum_premium_allocation;
  entry = entry;
  stop = stop;
  lot_size = s.contract.lot_size;
  cost_per_lot = cost;
}

-- The arguments are the ask and the distance that the code asserts to be there.
unfoldable pub draft_plan :
    Environment
    → StrategyConfig
    → EvidencePolicy
    → Decimal
    → AtomicSnapshot
    → Candidate
    → Decimal
    → Decimal
    → Float
    → DateTime
    → Result (Draft × PositionSizeResult)
unfolding round_up round_down draft_of calculate_position_size
draft_plan env c p cost s best ask distance score_gap generated_at = do
  nonzero s.contract.tick_size
  let entry = round_up ask s.contract.tick_size
  let stop = stop_of entry distance s.contract.tick_size
  position ← calculate_position_size (size_request s entry stop cost) c
  symbol ← symbol_of best.quote.security_id s.contract.option_contracts
  ok (draft_of env c p s best score_gap generated_at entry stop position symbol, position)
