-- ===== src/Validation/Fixtures.antt =====
-- A concrete snapshot that the validator accepts: five strikes around 100, each with a call and a
-- put, one of which names an earlier snapshot for its change of open interest.
use techo_quant_options_pro.Prelude.{ℕ, ◌*◌, String, true, false, Option, none, some, [], ◌∷◌, pos}
use techo_quant_options_pro.Decimal.{finite, integer, Decimal}
use techo_quant_options_pro.Float.{Float, of_decimal}
use techo_quant_options_pro.Time.{DateTime}
use techo_quant_options_pro.Domain.Enums.{
  Exchange, MarketKind, PricingModel, OptionType, TradingStyle, OperatingMode, DataSource,
}
use techo_quant_options_pro.Domain.Models.{
  InstrumentId, InstrumentMasterRecord, ContractSpec, OptionQuote, AtomicSnapshot,
  PreviousOptionSnapshot, Hashing,
}
use techo_quant_options_pro.Strategy.Default.{default_config}
use techo_quant_options_pro.Validation.Issues.{Validator, Loaded}

abbrev pub second : ℕ → DateTime
second n = record { instant = n * 1000000; aware = true }

abbrev digest : String
digest = "0123456789abcdef0123456789abcdef0123456789abcdef0123456789abcdef"

abbrev instrument : String → String → InstrumentId
instrument id symbol = record {
  exchange = Exchange.nse;
  segment = "NSE_FNO";
  security_id = id;
  symbol = symbol;
}

abbrev master_row : String → ℕ → OptionType → InstrumentMasterRecord
master_row id strike t = record {
  instrument = instrument id id;
  display_name = id;
  instrument_type = "OPTIDX";
  underlying_security_id = some "13";
  expiry = some (second 300000);
  strike = some (integer (pos strike));
  option_type = some t;
  lot_size = some (pos 75);
  tick_size = some (finite (pos 5) 2);
}

abbrev future : InstrumentMasterRecord
future = record {
  instrument = instrument "99" "FUT";
  display_name = "FUT";
  instrument_type = "FUTIDX";
  underlying_security_id = some "13";
  expiry = some (second 300000);
  strike = none;
  option_type = none;
  lot_size = some (pos 75);
  tick_size = some (finite (pos 5) 2);
}

abbrev contract : ContractSpec
contract = record {
  underlying = instrument "13" "NIFTY";
  market_kind = MarketKind.index;
  pricing_model = PricingModel.black_scholes;
  option_expiry = second 300000;
  lot_size = pos 75;
  strike_interval = integer (pos 1);
  tick_size = finite (pos 5) 2;
  master = record {
    batch_id = "b";
    provider = "p";
    source_url = "u";
    content_hash = digest;
    schema_version = "1";
    fetched_at = second 99000;
    row_count = pos 11;
  };
  option_contracts =
      master_row "1" 98 OptionType.call
      ∷ master_row "2" 98 OptionType.put
      ∷ master_row "3" 99 OptionType.call
      ∷ master_row "4" 99 OptionType.put
      ∷ master_row "5" 100 OptionType.call
      ∷ master_row "6" 100 OptionType.put
      ∷ master_row "7" 101 OptionType.call
      ∷ master_row "8" 101 OptionType.put
      ∷ master_row "9" 102 OptionType.call
      ∷ master_row "10" 102 OptionType.put
      ∷ [];
  futures = some future;
}

abbrev tenth : ℕ → Float
tenth n = of_decimal (finite (pos n) 1)

abbrev pub option_quote : String → ℕ → OptionType → OptionQuote
option_quote id strike t = record {
  security_id = id;
  strike = integer (pos strike);
  option_type = t;
  expiry = second 300000;
  bid = some (finite (pos 995) 2);
  ask = some (integer (pos 10));
  ltp = some (integer (pos 10));
  volume = some (pos 5000);
  open_interest = some (pos 7000);
  previous_open_interest = none;
  change_open_interest = none;
  implied_volatility = some (tenth 2);
  greeks = record {
    delta = some (tenth 6);
    gamma = none;
    theta = none;
    vega = none;
    theoretical_price = none;
  };
  observed_at = second 100000;
  bid_quantity = none;
  ask_quantity = none;
  previous_close = none;
  change_oi_source_snapshot_id = none;
  change_oi_interval_seconds = none;
}

abbrev changed_quote : OptionQuote
changed_quote = record (option_quote "1" 98 OptionType.call) {
  change_open_interest = some (pos 500);
  change_oi_source_snapshot_id = some "earlier";
  change_oi_interval_seconds = some (integer (pos 10));
}

abbrev pub hash : Hashing
hash = record {
  of_contract = λ k. "k";
  of_market = λ m. "m";
  of_technicals = λ t. "t";
  of_context = λ x. "x";
  of_chain = λ q. "q";
  of_snapshot = λ s. s.snapshot_id;
  of_text = λ t. digest;
  contract_key = λ k. k.underlying.symbol;
}

abbrev earlier : PreviousOptionSnapshot
earlier = record {
  snapshot_id = "earlier";
  sequence = pos 1;
  source = DataSource.dhan_rest;
  source_timestamp = second 99990;
  contract_key = "NIFTY";
  option_chain =
      record (option_quote "1" 98 OptionType.call) {
        open_interest = some (pos 6500);
        observed_at = second 99990;
      }
      ∷ [];
}

abbrev pub validator : Validator
validator = record {
  config = default_config;
  loader = some (λ id. Loaded.answered (some earlier));
  hash = hash;
  upper = λ t. t;
}

abbrev price : ℕ → Option Decimal
price n = some (integer (pos n))

abbrev pub snapshot : AtomicSnapshot
snapshot = record {
  snapshot_id = "now";
  sequence = pos 2;
  source = DataSource.dhan_rest;
  source_timestamp = second 100000;
  received_at = second 100000;
  contract = contract;
  market = record {
    observed_at = second 100000;
    spot_price = price 100;
    futures_price = price 101;
    previous_close = price 95;
    day_open = price 96;
    day_high = price 103;
    day_low = price 94;
    vwap = price 99;
    futures_open_interest = none;
  };
  technicals = record {
    observed_at = second 100000;
    ema_9 = price 99;
    ema_21 = price 98;
    wma_44 = price 97;
    previous_wma_44 = price 96;
    rsi_14 = some (integer (pos 60));
    atr_14 = price 2;
    reference_volatility = some (tenth 2);
    timeframe = "5m";
    completed_candle = true;
  };
  context = record {
    operating_mode = OperatingMode.pro;
    trading_style = TradingStyle.intraday;
    account_capital = integer (pos 1000000);
    risk_per_trade = of_decimal (finite (pos 1) 2);
    maximum_premium_allocation = tenth 1;
    event_risk_active = some false;
    price_action_confirmed = none;
    signal_candle_high = finite (pos 995) 1;
    signal_candle_low = integer (pos 98);
    expected_holding_hours = integer (pos 2);
  };
  option_chain =
      changed_quote
      ∷ option_quote "2" 98 OptionType.put
      ∷ option_quote "3" 99 OptionType.call
      ∷ option_quote "4" 99 OptionType.put
      ∷ option_quote "5" 100 OptionType.call
      ∷ option_quote "6" 100 OptionType.put
      ∷ option_quote "7" 101 OptionType.call
      ∷ option_quote "8" 101 OptionType.put
      ∷ option_quote "9" 102 OptionType.call
      ∷ option_quote "10" 102 OptionType.put
      ∷ [];
  strategy_version = "teco-canonical-1.0.0";
  metadata = record {
    raw_payload_hash = some digest;
    normalized_component_hashes = some (record {
      contract = "k";
      market = "m";
      technicals = "t";
      context = "x";
      option_chain = "q";
    });
    raw_option_payload = some "payload";
    raw_option_hash = some digest;
  };
}
