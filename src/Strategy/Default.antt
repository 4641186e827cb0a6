-- ===== src/Strategy/Default.antt =====
-- The default weights and configuration of strategy/spec.py: a decimal literal is the binary64
-- nearest to it.
use techo_quant_options_pro.Prelude.{true, [], ◌∷◌, ℕ, pos}
use techo_quant_options_pro.Decimal.{finite, integer}
use techo_quant_options_pro.Float.{Float, of_decimal}
use techo_quant_options_pro.Strategy.Config.{Seven, StrategyConfig}

abbrev hundredths : ℕ → Float
hundredths n = of_decimal (finite (pos n) 2)

abbrev whole : ℕ → Float
whole n = integer (pos n)

abbrev pub default_weights : Seven
default_weights = record {
  trend = whole 20;
  premium = whole 15;
  open_interest = whole 15;
  liquidity = whole 15;
  greeks = whole 15;
  volatility = whole 10;
  risk_reward = whole 10;
}

abbrev pub default_config : StrategyConfig
default_config = record {
  version = "teco-canonical-1.0.0";
  risk_free_rate = hundredths 6;
  dividend_yield = whole 0;
  maximum_risk_per_trade = hundredths 2;
  intraday_delta_minimum = hundredths 45;
  intraday_delta_maximum = hundredths 70;
  positional_delta_minimum = hundredths 55;
  positional_delta_maximum = hundredths 75;
  minimum_volume = pos 1000;
  minimum_open_interest = pos 1000;
  maximum_spread_ratio = hundredths 3;
  minimum_liquidity_score = whole 60;
  watchlist_score = whole 65;
  minimum_tradable_score = whole 75;
  strong_setup_score = whole 85;
  conflict_gap = whole 8;
  live_max_age_seconds = whole 30;
  component_skew_seconds = whole 5;
  future_clock_skew_seconds = whole 2;
  instrument_master_max_age_seconds = whole 129600;
  extreme_expiry_seconds = whole 32400;
  premium_stop_ratio = hundredths 20;
  atr_stop_multiple = whole 1;
  target_r_multiples = whole 1 ∷ whole 2 ∷ whole 3 ∷ [];
  event_risk_blocks_new_trades = true;
  weights = default_weights;
}
