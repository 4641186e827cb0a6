-- ===== src/Signals/Models.antt =====
-- The results of signals/models.py.
use techo_quant_options_pro.Prelude.{ℕ, String, Bool, Option, List, ℤ}
use techo_quant_options_pro.Decimal.{Decimal}
use techo_quant_options_pro.Float.{Float}
use techo_quant_options_pro.Time.{DateTime}
use techo_quant_options_pro.Domain.Enums.{DecisionState, DecisionReason, OptionType}
use techo_quant_options_pro.Strategy.Config.{Seven}

pub record EvidenceBreakdown : Type 0 where
  pub factors : Seven
  pub points : Seven
  pub total : Float

pub record RankedStrike : Type 0 where
  pub rank : ℕ
  pub security_id : String
  pub strike : Decimal
  pub option_type : OptionType
  pub entry_ask : Option Decimal
  pub score : Float
  pub evidence : Option EvidenceBreakdown
  pub liquidity_score : Float
  pub eligible : Bool
  pub rejection_reasons : List String

pub record TradePlan : Type 0 where
  pub signal_id : String
  pub snapshot_id : String
  pub contract_key : String
  pub strategy_version : String
  pub evidence_version : String
  pub generated_at : DateTime
  pub decision : DecisionState
  pub actionable : Bool
  pub symbol : String
  pub security_id : String
  pub option_type : OptionType
  pub strike : Decimal
  pub expiry : DateTime
  pub score : Float
  pub score_gap : Float
  pub entry : Decimal
  pub stop : Decimal
  pub targets : List Decimal
  pub lot_size : ℤ
  pub lots : ℤ
  pub quantity : ℤ
  pub maximum_risk : Decimal
  pub risk_per_lot : Decimal
  pub premium_required : Decimal

pub record SignalPipelineResult : Type 0 where
  pub snapshot_id : String
  pub generated_at : DateTime
  pub decision : DecisionState
  pub reason : DecisionReason
  pub call_score : Float
  pub put_score : Float
  pub score_gap : Float
  pub ranked_strikes : List RankedStrike
  pub trade_plan : Option TradePlan
  pub warnings : List String
