-- ===== src/Signals/Candidates.antt =====
-- `_score_candidate`, `_rank` and `_best` of signals/pipeline.py.
use techo_quant_options_pro.Prelude.{
  ℕ, suc, String, Bool, true, false, not, ◌&&◌, Option, none, some, List, [], ◌∷◌, ◌++◌, str_eq,
  pos, is_some, if◌then◌else◌,
}
use techo_quant_options_pro.Decimal
use techo_quant_options_pro.Decimal.{Decimal, integer, is_finite, less, less_eq}
use techo_quant_options_pro.Float.{Float, absolute}
use techo_quant_options_pro.Execution.Errors.{ErrorKind}
use techo_quant_options_pro.Exec.{Result, ok, raised}
use techo_quant_options_pro.Exec.Results.{◌>>=◌, ◌>>◌}
use techo_quant_options_pro.Domain.Enums.{OptionType, same_option_type}
use techo_quant_options_pro.Domain.Models.{AtomicSnapshot, OptionQuote, pricing_underlying}
use techo_quant_options_pro.Strategy.Config.{Seven, StrategyConfig, delta_range, nought}
use techo_quant_options_pro.Strategy.Scores.{LiquidityResult, weighted_score, liquidity_score, when}
use techo_quant_options_pro.Signals.Policy.{EvidencePolicy, Environment}
use techo_quant_options_pro.Signals.Models.{EvidenceBreakdown, RankedStrike}
use techo_quant_options_pro.Signals.Decimals.{compared}
use techo_quant_options_pro.Signals.Evidence.{above_zero}
use techo_quant_options_pro.Signals.Factors.{is_call, risk_distance, factors}

pub record Candidate : Type 0 where
  pub quote : OptionQuote
  pub score : Float
  pub evidence : Option EvidenceBreakdown
  pub liquidity_score : Float
  pub eligible : Bool
  pub rejection_reasons : List String
  pub risk_distance : Option Decimal

abbrev is_usable_quote : OptionQuote → Bool
is_usable_quote q = is_some q.ask && is_some q.ltp && is_some q.implied_volatility

abbrev has_previous : Option OptionQuote → Bool
has_previous none = false
has_previous (some previous) = is_some (above_zero previous.ltp)

abbrev delta_reasons : Float × Float → Option Float → List String
delta_reasons (low, high) none = "DELTA_UNAVAILABLE" ∷ []
delta_reasons (low, high) (some delta) =
    if not (is_finite delta)
    then "DELTA_UNAVAILABLE" ∷ []
    else when (not (less_eq low (absolute delta) && less_eq (absolute delta) high))
        "DELTA_OUT_OF_RANGE"

unfoldable pub reasons_of :
    StrategyConfig
    → AtomicSnapshot
    → OptionQuote
    → Option OptionQuote
    → LiquidityResult
    → List String
reasons_of c s q previous liquidity =
    liquidity.rejection_reasons
    ++ (when (not (is_usable_quote q)) "INCOMPLETE_OPTION_QUOTE"
        ++ (when (not (has_previous previous)) "PREVIOUS_SNAPSHOT_REQUIRED"
            ++ delta_reasons (delta_range c s.context.trading_style) q.greeks.delta))

-- `tuple(dict.fromkeys(reasons))`: the first of equal ones.
abbrev without : String → List String → List String
without r [] = []
without r (x ∷ xs) = let rest = without r xs in if str_eq x r then rest else x ∷ rest

abbrev unique_reasons : List String → List String
unique_reasons [] = []
unique_reasons (r ∷ rs) = r ∷ without r (unique_reasons rs)

abbrev pub scored : StrategyConfig → Option Seven → Result (Option EvidenceBreakdown)
scored c none = ok none
scored c (some f) = weighted_score f c >>= λ r.
    ok (some (record { factors = f; points = r.points; total = r.total }))

abbrev pub total_of : Option EvidenceBreakdown → Float
total_of none = nought
total_of (some e) = e.total

abbrev is_none_of : List String → Bool
is_none_of [] = true
is_none_of (_ ∷ _) = false

abbrev pub candidate_of :
    OptionQuote
    → LiquidityResult
    → List String
    → Option Decimal
    → Option EvidenceBreakdown
    → Candidate
candidate_of q liquidity reasons distance evidence = record {
  quote = q;
  score = total_of evidence;
  evidence = evidence;
  liquidity_score = liquidity.score;
  eligible = is_none_of reasons && is_some evidence && liquidity.eligible;
  rejection_reasons = unique_reasons reasons;
  risk_distance = distance;
}

-- `liquidity_score` raises where both prices are there and one is NaN, or the ask is infinite and
-- its spread has no ratio.
abbrev pub market_compared : Option Decimal → Option Decimal → Result (Unit {0})
market_compared (some bid) (some ask) =
    compared (bid ∷ ask ∷ [])
    >> (if less (integer (pos 0)) ask && not (is_finite ask)
        then raised ErrorKind.invalid_operation "decimal.InvalidOperation"
        else ok tt)
market_compared _ _ = ok tt

-- The test of the previous price raises where it is NaN.
abbrev price_compared : Option Decimal → Result (Unit {0})
price_compared none = ok tt
price_compared (some ltp) = compared (ltp ∷ [])

abbrev pub previous_compared : Option OptionQuote → Result (Unit {0})
previous_compared none = ok tt
previous_compared (some previous) = price_compared previous.ltp

unfoldable pub score_candidate :
    Environment
    → StrategyConfig
    → EvidencePolicy
    → AtomicSnapshot
    → OptionQuote
    → Option OptionQuote
    → Result Candidate
unfolding liquidity_score reasons_of factors weighted_score risk_distance
score_candidate env c p s q previous = do
  market_compared q.bid q.ask
  let liquidity = liquidity_score q.bid q.ask q.volume q.open_interest c
  previous_compared previous
  f ← factors env c p s q previous liquidity.score
  distance ← risk_distance c s q
  evidence ← scored c f
  ok (candidate_of q liquidity (reasons_of c s q previous liquidity) distance evidence)

-- What `_rank` sorts by, less where it comes first.
pub record RankKey : Type 0 where
  pub unfit : Bool
  pub score : Float
  pub distance : Decimal
  pub strike : Decimal
  pub side : OptionType

abbrev distance_of : Option Decimal → Decimal → Decimal
distance_of none strike = integer (pos 0)
distance_of (some underlying) strike = absolute (Decimal.sub strike underlying)

abbrev rank_key : Option Decimal → Candidate → RankKey
rank_key underlying c = record {
  unfit = not c.eligible;
  score = c.score;
  distance = distance_of underlying c.quote.strike;
  strike = c.quote.strike;
  side = c.quote.option_type;
}

-- "CE" comes before "PE".
abbrev side_before : OptionType → OptionType → Bool
side_before a b = is_call a && not (is_call b)

-- The first key that differs decides.
abbrev chain_less : Bool → Bool → Bool → Bool
chain_less first back rest = if first then true else if back then false else rest

unfoldable pub key_before : RankKey → RankKey → Bool
key_before a b = chain_less (not a.unfit && b.unfit) (not b.unfit && a.unfit) (
    chain_less (less b.score a.score) (less a.score b.score) (
      chain_less (less a.distance b.distance) (less b.distance a.distance)
        (chain_less (less a.strike b.strike) (less b.strike a.strike) (side_before a.side b.side))))

abbrev pub insert_ranked : Option Decimal → Candidate → List Candidate → List Candidate
insert_ranked underlying c [] = c ∷ []
insert_ranked underlying c (d ∷ ds) =
    let rest = insert_ranked underlying c ds in
    if key_before (rank_key underlying d) (rank_key underlying c) then d ∷ rest else c ∷ d ∷ ds

-- A stable sort.
abbrev pub sort_ranked : Option Decimal → List Candidate → List Candidate
sort_ranked underlying [] = []
sort_ranked underlying (c ∷ cs) = insert_ranked underlying c (sort_ranked underlying cs)

abbrev number_from : ℕ → List Candidate → List RankedStrike
number_from n [] = []
number_from n (c ∷ cs) =
    record {
      rank = n;
      security_id = c.quote.security_id;
      strike = c.quote.strike;
      option_type = c.quote.option_type;
      entry_ask = c.quote.ask;
      score = c.score;
      evidence = c.evidence;
      liquidity_score = c.liquidity_score;
      eligible = c.eligible;
      rejection_reasons = c.rejection_reasons;
    }
    ∷ number_from (suc n) cs

unfoldable pub rank : AtomicSnapshot → List Candidate → List RankedStrike
unfolding key_before
rank s cs = number_from 1 (sort_ranked (pricing_underlying s.market s.contract.market_kind) cs)

abbrev pub is_best_side : OptionType → Candidate → Bool
is_best_side t c = same_option_type c.quote.option_type t && c.eligible

-- `max` with a default: the first of those with the highest score.
abbrev pub better : Option Candidate → Candidate → Option Candidate
better none c = some c
better (some best) c = if less best.score c.score then some c else some best

unfoldable pub best_from : OptionType → Option Candidate → List Candidate → Option Candidate
best_from t best [] = best
best_from t best (c ∷ cs) = best_from t (if is_best_side t c then better best c else best) cs

abbrev pub best : List Candidate → OptionType → Option Candidate
best cs t = best_from t none cs
