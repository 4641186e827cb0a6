-- ===== src/Domain/Enums.antt =====
-- backend/src/teco_quant/domain/enums.py. Two members are the same where their numbers are.
use techo_quant_options_pro.Prelude.{ℕ, Bool, ◌==◌}

pub data Exchange : Type 0 where
  nse bse mcx : Exchange

pub data MarketKind : Type 0 where
  index stock commodity : MarketKind

pub data PricingModel : Type 0 where
  black_scholes black_76 : PricingModel

pub data OptionType : Type 0 where
  call put : OptionType

pub data TradingStyle : Type 0 where
  intraday positional : TradingStyle

pub data OperatingMode : Type 0 where
  quick pro : OperatingMode

pub data DataSource : Type 0 where
  dhan_rest dhan_live csv manual replay : DataSource

pub data DecisionState : Type 0 where
  buy_call buy_put wait no_trade insufficient_data : DecisionState

pub data DecisionReason : Type 0 where
  data_incomplete data_stale invalid_expiry extreme_expiry_risk event_risk : DecisionReason
  no_liquid_strike not_affordable below_watchlist_score watchlist_only : DecisionReason
  conflicting_scores price_action_pending quick_mode_only : DecisionReason
  bullish_confirmed bearish_confirmed : DecisionReason

pub data ScoreBand : Type 0 where
  strong tradable watchlist rejected : ScoreBand

pub data ValidationSeverity : Type 0 where
  error warning : ValidationSeverity

abbrev exchange_number : Exchange → ℕ
exchange_number nse = 0
exchange_number bse = 1
exchange_number mcx = 2

abbrev pub same_exchange : Exchange → Exchange → Bool
same_exchange a b = exchange_number a == exchange_number b

abbrev option_number : OptionType → ℕ
option_number call = 0
option_number put = 1

abbrev pub same_option_type : OptionType → OptionType → Bool
same_option_type a b = option_number a == option_number b

abbrev source_number : DataSource → ℕ
source_number dhan_rest = 0
source_number dhan_live = 1
source_number csv = 2
source_number manual = 3
source_number replay = 4

abbrev pub same_source : DataSource → DataSource → Bool
same_source a b = source_number a == source_number b
