-- ===== src/Domain/Models.antt =====
-- backend/src/teco_quant/domain/models.py: instruments, contracts, quotes and snapshots. A
-- snapshot's metadata has the entries that the code reads; an entry of another type than the code
-- expects is one that is absent, and a raw payload is its canonical JSON.
use Prim.Native.String.{◌++◌ as text_append}
use techo_quant_options_pro.Prelude.{
  String, Bool, true, false, ◌&&◌, Option, none, some, List, ℤ, ◌==◌, str_eq, pos,
}
use techo_quant_options_pro.Decimal
use techo_quant_options_pro.Decimal.{Decimal, integer, less, less_eq}
use techo_quant_options_pro.Float.{Float, of_decimal}
use techo_quant_options_pro.Time.{DateTime}
use techo_quant_options_pro.Domain.Enums.{
  Exchange, MarketKind, PricingModel, OptionType, TradingStyle, OperatingMode, DataSource,
  same_option_type,
}

pub record InstrumentId : Type 0 where
  pub exchange : Exchange
  pub segment : String
  pub security_id : String
  pub symbol : String

abbrev exchange_value : Exchange → String
exchange_value Exchange.nse = "NSE"
exchange_value Exchange.bse = "BSE"
exchange_value Exchange.mcx = "MCX"

-- `f"{self.exchange}:{self.segment}:{self.security_id}"`
abbrev pub canonical_key : InstrumentId → String
canonical_key i =
    text_append (exchange_value i.exchange)
      (text_append ":" (text_append i.segment (text_append ":" i.security_id)))

pub record InstrumentMasterProvenance : Type 0 where
  pub batch_id : String
  pub provider : String
  pub source_url : String
  pub content_hash : String
  pub schema_version : String
  pub fetched_at : DateTime
  pub row_count : ℤ

pub record InstrumentMasterRecord : Type 0 where
  pub instrument : InstrumentId
  pub display_name : String
  pub instrument_type : String
  pub underlying_security_id : Option String
  pub expiry : Option DateTime
  pub strike : Option Decimal
  pub option_type : Option OptionType
  pub lot_size : Option ℤ
  pub tick_size : Option Decimal

pub record ContractSpec : Type 0 where
  pub underlying : InstrumentId
  pub market_kind : MarketKind
  pub pricing_model : PricingModel
  pub option_expiry : DateTime
  pub lot_size : ℤ
  pub strike_interval : Decimal
  pub tick_size : Decimal
  pub master : InstrumentMasterProvenance
  pub option_contracts : List InstrumentMasterRecord
  pub futures : Option InstrumentMasterRecord

pub record Greeks : Type 0 where
  pub delta : Option Float
  pub gamma : Option Float
  pub theta : Option Float
  pub vega : Option Float
  pub theoretical_price : Option Decimal

pub record OptionQuote : Type 0 where
  pub security_id : String
  pub strike : Decimal
  pub option_type : OptionType
  pub expiry : DateTime
  pub bid : Option Decimal
  pub ask : Option Decimal
  pub ltp : Option Decimal
  pub volume : Option ℤ
  pub open_interest : Option ℤ
  pub previous_open_interest : Option ℤ
  pub change_open_interest : Option ℤ
  pub implied_volatility : Option Float
  pub greeks : Greeks
  pub observed_at : DateTime
  pub bid_quantity : Option ℤ
  pub ask_quantity : Option ℤ
  pub previous_close : Option Decimal
  pub change_oi_source_snapshot_id : Option String
  pub change_oi_interval_seconds : Option Float

abbrev pub OptionKey : Type 0
OptionKey = Decimal × OptionType

abbrev pub quote_key : OptionQuote → OptionKey
quote_key q = (q.strike, q.option_type)

-- `==` of decimals is that of their values.
abbrev pub same_decimal : Decimal → Decimal → Bool
same_decimal a b = less_eq a b && less_eq b a

abbrev pub same_key : OptionKey → OptionKey → Bool
same_key (s, t) (s', t') = same_decimal s s' && same_option_type t t'

-- `==` of datetimes: an aware one is never equal to a naive one.
abbrev pub same_bool : Bool → Bool → Bool
same_bool true b = b
same_bool false true = false
same_bool false false = true

abbrev pub same_time : DateTime → DateTime → Bool
same_time a b = same_bool a.aware b.aware && (a.instant == b.instant)

abbrev spread_of : Option Decimal → Decimal → Option Decimal
spread_of none ask = none
spread_of (some bid) ask = some (Decimal.sub ask bid)

-- `spread_ratio`: the spread over a positive ask.
abbrev ratio_of : Decimal → Option Decimal → Option Float
ratio_of ask none = none
ratio_of ask (some spread) = elim (less (integer (pos 0)) ask) [
  | true ↦ some (of_decimal (Decimal.divide spread ask))
  | false ↦ none
]

abbrev ask_ratio : Option Decimal → Option Decimal → Option Float
ask_ratio bid none = none
ask_ratio bid (some ask) = ratio_of ask (spread_of bid ask)

unfoldable pub spread_ratio : OptionQuote → Option Float
spread_ratio q = ask_ratio q.bid q.ask

pub record MarketState : Type 0 where
  pub observed_at : DateTime
  pub spot_price : Option Decimal
  pub futures_price : Option Decimal
  pub previous_close : Option Decimal
  pub day_open : Option Decimal
  pub day_high : Option Decimal
  pub day_low : Option Decimal
  pub vwap : Option Decimal
  pub futures_open_interest : Option ℤ

abbrev pub pricing_underlying : MarketState → MarketKind → Option Decimal
pricing_underlying m MarketKind.commodity = m.futures_price
pricing_underlying m _ = m.spot_price

pub record TechnicalState : Type 0 where
  pub observed_at : DateTime
  pub ema_9 : Option Decimal
  pub ema_21 : Option Decimal
  pub wma_44 : Option Decimal
  pub previous_wma_44 : Option Decimal
  pub rsi_14 : Option Float
  pub atr_14 : Option Decimal
  pub reference_volatility : Option Float
  pub timeframe : String
  pub completed_candle : Bool

pub record StrategyContext : Type 0 where
  pub operating_mode : OperatingMode
  pub trading_style : TradingStyle
  pub account_capital : Decimal
  pub risk_per_trade : Float
  pub maximum_premium_allocation : Float
  pub event_risk_active : Option Bool
  pub price_action_confirmed : Option Bool
  pub signal_candle_high : Decimal
  pub signal_candle_low : Decimal
  pub expected_holding_hours : Float

pub record ComponentHashes : Type 0 where
  pub contract : String
  pub market : String
  pub technicals : String
  pub context : String
  pub option_chain : String

pub record SnapshotMetadata : Type 0 where
  pub raw_payload_hash : Option String
  pub normalized_component_hashes : Option ComponentHashes
  pub raw_option_payload : Option String
  pub raw_option_hash : Option String

pub record AtomicSnapshot : Type 0 where
  pub snapshot_id : String
  pub sequence : ℤ
  pub source : DataSource
  pub source_timestamp : DateTime
  pub received_at : DateTime
  pub contract : ContractSpec
  pub market : MarketState
  pub technicals : TechnicalState
  pub context : StrategyContext
  pub option_chain : List OptionQuote
  pub strategy_version : String
  pub metadata : SnapshotMetadata

pub record PreviousOptionSnapshot : Type 0 where
  pub snapshot_id : String
  pub sequence : ℤ
  pub source : DataSource
  pub source_timestamp : DateTime
  pub contract_key : String
  pub option_chain : List OptionQuote

-- SHA-256 over the canonical JSON of a value, and over the text that identifies a contract. The
-- hash is Python's; the code relies on nothing but that it is a function.
pub record Hashing : Type 0 where
  pub of_contract : ContractSpec → String
  pub of_market : MarketState → String
  pub of_technicals : TechnicalState → String
  pub of_context : StrategyContext → String
  pub of_chain : List OptionQuote → String
  pub of_snapshot : AtomicSnapshot → String
  pub of_text : String → String
  pub contract_key : ContractSpec → String

abbrev pub component_hashes : Hashing → AtomicSnapshot → ComponentHashes
component_hashes hash s = record {
  contract = hash.of_contract s.contract;
  market = hash.of_market s.market;
  technicals = hash.of_technicals s.technicals;
  context = hash.of_context s.context;
  option_chain = hash.of_chain s.option_chain;
}

abbrev pub same_hashes : ComponentHashes → ComponentHashes → Bool
same_hashes a b =
    str_eq a.contract b.contract
    && str_eq a.market b.market
    && str_eq a.technicals b.technicals
    && str_eq a.context b.context
    && str_eq a.option_chain b.option_chain

-- `__post_init__`: the component hashes of the metadata are always computed.
unfoldable pub seal : Hashing → AtomicSnapshot → AtomicSnapshot
seal hash s = record s {
  metadata = record s.metadata { normalized_component_hashes = some (component_hashes hash s) };
}
