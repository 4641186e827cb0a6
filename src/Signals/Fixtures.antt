-- ===== src/Signals/Fixtures.antt =====
-- A concrete pair of legs that the pipeline buys, and its environment.
use techo_quant_options_pro.Prelude.{Bool, true, false, ◌≡◌, refl, arith, none, some, [], ◌∷◌, pos}
use techo_quant_options_pro.Decimal.{integer}
use techo_quant_options_pro.Float.{sub}
use techo_quant_options_pro.Domain.Enums.{OptionType, DataSource, DecisionState, DecisionReason}
use techo_quant_options_pro.Domain.Models.{AtomicSnapshot, OptionQuote, PreviousOptionSnapshot}
use techo_quant_options_pro.Strategy.Default.{default_config}
use techo_quant_options_pro.Validation.Issues.{ValidationReport}
use techo_quant_options_pro.Validation.Fixtures.{second, hash, snapshot, option_quote}
use techo_quant_options_pro.Signals.Policy.{Environment, default_evidence}
use techo_quant_options_pro.Signals.Models.{SignalPipelineResult}
use techo_quant_options_pro.Signals.Pipeline.{SignalPipeline}
use techo_quant_options_pro.Exec.{Result, ok, raised}

-- Functions in the place of `log` and `sqrt` that agree with them at 1.
abbrev environment : Environment
environment = record {
  log = λ x. sub x (integer (pos 1));
  sqrt = λ x. x;
  hash = hash;
  signal_hash = λ s q version. q.security_id;
}

abbrev pub pipeline : SignalPipeline
pipeline = record {
  strategy = default_config;
  evidence = default_evidence;
  cost_per_lot = integer (pos 0);
  environment = environment;
}

abbrev pub call_leg : OptionQuote
call_leg = record (option_quote "1" 98 OptionType.call) { change_open_interest = some (pos 500) }

abbrev put_leg : OptionQuote
put_leg = record (option_quote "2" 98 OptionType.put) { change_open_interest = some (pos 500) }

abbrev pub traded : AtomicSnapshot
traded = record snapshot { option_chain = call_leg ∷ put_leg ∷ [] }

abbrev pub clean_report : ValidationReport
clean_report = record { issues = []; snapshot_id = "now"; snapshot_hash = "now" }

-- The call rose, and the put fell.
abbrev pub call_rose : PreviousOptionSnapshot
call_rose = record {
  snapshot_id = "earlier";
  sequence = pos 1;
  source = DataSource.dhan_rest;
  source_timestamp = second 99990;
  contract_key = "NIFTY";
  option_chain =
      record call_leg { ltp = some (integer (pos 9)) }
      ∷ record put_leg { ltp = some (integer (pos 11)) }
      ∷ [];
}

-- The same in a falling market.
abbrev pub falling : AtomicSnapshot
falling = record traded {
  market = record snapshot.market { futures_price = some (integer (pos 99)) };
  technicals = record snapshot.technicals {
    ema_9 = some (integer (pos 101));
    ema_21 = some (integer (pos 102));
    wma_44 = some (integer (pos 103));
    previous_wma_44 = some (integer (pos 104));
    rsi_14 = some (integer (pos 40));
  };
  context = record snapshot.context {
    signal_candle_high = integer (pos 102);
    signal_candle_low = integer (pos 101);
  };
}

abbrev pub put_rose : PreviousOptionSnapshot
put_rose = record call_rose {
  option_chain =
      record call_leg { ltp = some (integer (pos 11)) }
      ∷ record put_leg { ltp = some (integer (pos 9)) }
      ∷ [];
}

abbrev nothing : SignalPipelineResult
nothing = record {
  snapshot_id = "";
  generated_at = second 0;
  decision = DecisionState.wait;
  reason = DecisionReason.data_incomplete;
  call_score = integer (pos 0);
  put_score = integer (pos 0);
  score_gap = integer (pos 0);
  ranked_strikes = [];
  trade_plan = none;
  warnings = [];
}

abbrev pub answer_of : Result SignalPipelineResult → SignalPipelineResult
answer_of (ok r) = r
answer_of (raised kind message) = nothing

abbrev pub has_answer : Result SignalPipelineResult → Bool
has_answer (ok r) = true
has_answer (raised kind message) = false

pub answer_of-ok : (m : Result SignalPipelineResult) → has_answer m ≡ true → m ≡ ok (answer_of m)
answer_of-ok (ok r) h = refl
answer_of-ok (raised kind message) h = ground arith
