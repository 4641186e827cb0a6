-- ===== src/Signals/Bounds.antt =====
-- The ranges of the factors and of the scores of signals/pipeline.py.
use techo_quant_options_pro.Prelude.{
  Bool, true, false, not, Option, none, some, List, [], ◌∷◌, any, All, ◌≡◌, refl, ap, subst, arith,
  ℤ, pos, ◌*ℤ◌, Bool-cases, inl, inr,
}
use mathlib.Core.Option.{some-injective}
use techo_quant_options_pro.Decimal.{Decimal, integer, less, less_eq}
use techo_quant_options_pro.Float
use techo_quant_options_pro.Float.{Float, of_decimal, round_ratio}
use techo_quant_options_pro.Float.Bounds.{clamped_within}
use techo_quant_options_pro.Exec.{ok}
use techo_quant_options_pro.Signals.Decimals.{quotient}
use techo_quant_options_pro.Exec.Outcome.{ok_injective}
use techo_quant_options_pro.Exec.Results.{bind_ok, next_ok}
use techo_quant_options_pro.Domain.Models.{AtomicSnapshot, OptionQuote}
use techo_quant_options_pro.Strategy.Config.{Seven, values, StrategyConfig, nought}
use techo_quant_options_pro.Strategy.Scores.{
  ScoreResult, weighted_score, within_hundred, out_of_range,
}
use techo_quant_options_pro.Strategy.Decision.{is_score}
use techo_quant_options_pro.Signals.Policy.{EvidencePolicy, Environment}
use techo_quant_options_pro.Signals.Models.{EvidenceBreakdown}
use techo_quant_options_pro.Signals.Evidence.{one, clamp, Evidence, evidence_of}
use techo_quant_options_pro.Signals.Greeks.{greeks_factor}
use techo_quant_options_pro.Signals.Factors.{
  trend_factor, premium_factor, open_interest_factor, volatility_factor, reward_factor, reward_over,
  expected_move, with_change, factors_of, factors, comparable, momentum, risk_distance, seconds_of,
  is_call,
}
use techo_quant_options_pro.Signals.Candidates.{
  Candidate, score_candidate, market_compared, previous_compared, scored, total_of,
}

clamp-out_of_range : (x : Float) → out_of_range (clamp x) ≡ false
unfolding less_eq ◌*ℤ◌
clamp-out_of_range x = ap not (clamped_within nought one x refl refl refl)

within_hundred-is_score : (x : Float) → is_score (within_hundred x) ≡ true
unfolding less_eq ◌*ℤ◌
within_hundred-is_score x = clamped_within nought (integer (pos 100)) x refl refl refl

trend_in :
    (s : AtomicSnapshot) (e : Evidence) (b : Bool) → out_of_range (trend_factor s e b) ≡ false
unfolding trend_factor
trend_in s e b = clamp-out_of_range _

premium_in : (p : EvidencePolicy) (rise : Float) → out_of_range (premium_factor p rise) ≡ false
unfolding premium_factor
premium_in p rise = clamp-out_of_range _

open_interest_in :
    (rise : Float) (change : ℤ) → out_of_range (open_interest_factor rise change) ≡ false
unfolding open_interest_factor less_eq of_decimal round_ratio ◌*ℤ◌
open_interest_in rise change = ground arith

greeks_in :
    (c : StrategyConfig) (p : EvidencePolicy) (s : AtomicSnapshot) (q : OptionQuote) (e : Evidence)
    (x : Float)
    → greeks_factor c p s q e ≡ ok x
    → out_of_range x ≡ false
unfolding greeks_factor
greeks_in c p s q e x h =
    let (theoretical, _, h1) = bind_ok _ _ x h in
    let (theta, _, h2) = bind_ok _ _ x h1 in
    subst (λ y. out_of_range y ≡ false) (ok_injective h2) (clamp-out_of_range _)

nought_in : out_of_range nought ≡ false
unfolding less_eq ◌*ℤ◌
nought_in = refl

volatility_in :
    (env : Environment) (p : EvidencePolicy) (iv reference : Float)
    → out_of_range (volatility_factor env p iv reference) ≡ false
unfolding volatility_factor
volatility_in env p iv reference = grind (arith, clamp-out_of_range, nought_in)

reward_over_in :
    (p : EvidencePolicy) (move : Decimal) (distance : Option Decimal) (x : Float)
    → reward_over p move distance ≡ ok x
    → out_of_range x ≡ false
reward_over_in p move none x h = subst (λ y. out_of_range y ≡ false) (ok_injective h) nought_in
reward_over_in p move (some distance) x h = elim (Bool-cases (less (integer (pos 0)) distance)) [
  | inl e ↦
      let (reward, _, h1) = bind_ok (quotient move distance) _ x (rw e at h) in
      subst (λ y. out_of_range y ≡ false) (ok_injective h1) (clamp-out_of_range _)
  | inr e ↦ subst (λ y. out_of_range y ≡ false) (ok_injective (rw e at h)) nought_in
]

reward_in :
    (env : Environment) (p : EvidencePolicy) (e : Evidence) (distance : Option Decimal)
    (seconds x : Float)
    → reward_factor env p e distance seconds ≡ ok x
    → out_of_range x ≡ false
unfolding reward_factor
reward_in env p e distance seconds x h =
    let (move, _, h1) = bind_ok (expected_move env e seconds) _ x h in
    let (premium, _, h2) = bind_ok _ _ x h1 in reward_over_in p premium distance x h2

-- No factor is out of its range.
with_change_in :
    (env : Environment) (c : StrategyConfig) (p : EvidencePolicy) (s : AtomicSnapshot)
    (q : OptionQuote) (liquidity : Float) (e : Evidence) (rise : Float) (change : Option ℤ)
    (f : Seven)
    → with_change env c p s q liquidity e rise change ≡ ok (some f)
    → any out_of_range (values f) ≡ false
with_change_in env c p s q liquidity e rise none f h = ground (arith, ok_injective h)
with_change_in env c p s q liquidity e rise (some change) f h =
    let (greeks, g, h1) = bind_ok (greeks_factor c p s q e) _ (some f) h in
    let (distance, _, h2) = bind_ok (risk_distance c s q) _ (some f) h1 in
    let (seconds, _, h3) =
      bind_ok (seconds_of s.contract.option_expiry s.source_timestamp) _ (some f) h2 in
    let (reward, w, h4) = bind_ok (reward_factor env p e distance seconds) _ (some f) h3 in
    subst (λ (y : Seven). any out_of_range (values y) ≡ false)
      (some-injective _ _ (ok_injective h4))
      (ground (
        arith,
        trend_in s e (is_call q.option_type),
        premium_in p rise,
        open_interest_in rise change,
        clamp-out_of_range (Float.divide liquidity (integer (pos 100))),
        greeks_in c p s q e greeks g,
        volatility_in env p e.implied_volatility e.reference_volatility,
        reward_in env p e distance seconds reward w,
      ))

factors_of-in :
    (env : Environment) (c : StrategyConfig) (p : EvidencePolicy) (s : AtomicSnapshot)
    (q : OptionQuote) (liquidity : Float) (e : Option Evidence) (f : Seven)
    → factors_of env c p s q liquidity e ≡ ok (some f)
    → any out_of_range (values f) ≡ false
factors_of-in env c p s q liquidity none f h = ground (arith, ok_injective h)
factors_of-in env c p s q liquidity (some e) f h =
    let (u, _, h1) = next_ok (comparable s e) _ (some f) h in
    let (rise, _, h2) = bind_ok (momentum e) _ (some f) h1 in
    with_change_in env c p s q liquidity e rise e.change_open_interest f h2

weighted_score-is_score :
    (f : Seven) (c : StrategyConfig) (r : ScoreResult)
    → weighted_score f c ≡ ok r
    → is_score r.total ≡ true
unfolding weighted_score
weighted_score-is_score f c r h = elim (Bool-cases (any out_of_range (values f))) [
  | inl e ↦ ground (arith, e, h)
  | inr e ↦
      subst (λ (y : ScoreResult). is_score y.total ≡ true) (ok_injective (rw e at h))
        (within_hundred-is_score _)
]

scored-is_score :
    (c : StrategyConfig) (f : Option Seven) (e : Option EvidenceBreakdown)
    → scored c f ≡ ok e
    → is_score (total_of e) ≡ true
unfolding less_eq ◌*ℤ◌
scored-is_score c none e h = subst (λ y. is_score (total_of y) ≡ true) (ok_injective h) refl
scored-is_score c (some f) e h =
    let (r, w, h1) = bind_ok (weighted_score f c) _ e h in
    subst (λ y. is_score (total_of y) ≡ true) (ok_injective h1) (weighted_score-is_score f c r w)

pub score_candidate-is_score :
    (env : Environment) (c : StrategyConfig) (p : EvidencePolicy) (s : AtomicSnapshot)
    (q : OptionQuote) (previous : Option OptionQuote) (candidate : Candidate)
    → score_candidate env c p s q previous ≡ ok candidate
    → is_score candidate.score ≡ true
unfolding score_candidate
score_candidate-is_score env c p s q previous candidate h =
    let (u, _, h1) = next_ok (market_compared q.bid q.ask) _ candidate h in
    let (u', _, h2) = next_ok (previous_compared previous) _ candidate h1 in
    let (f, _, h3) = bind_ok (factors env c p s q previous _) _ candidate h2 in
    let (distance, _, h4) = bind_ok (risk_distance c s q) _ candidate h3 in
    let (e, w, h5) = bind_ok (scored c f) _ candidate h4 in
    subst (λ (y : Candidate). is_score y.score ≡ true) (ok_injective h5) (scored-is_score c f e w)

in_range :
    (xs : List Float)
    → any out_of_range xs ≡ false
    → All (λ x. (less_eq nought x ≡ true) × (less_eq x (integer (pos 1)) ≡ true)) xs
in_range [] h = tt
in_range (x ∷ xs) h = ((ground arith, ground arith), in_range xs (ground arith))

-- A score that is in range for its factors is never refused.
weighted_score-ok :
    (f : Seven) (c : StrategyConfig)
    → any out_of_range (values f) ≡ false
    → (r : ScoreResult) × (weighted_score f c ≡ ok r)
unfolding weighted_score
weighted_score-ok f c h = rw h (_, refl)

-- When the seven factors of a quote are found, each lies in 0..1, so that their weighted score is
-- not refused, and it lies in 0..100.
pub factors-IsScored :
    (env : Environment) (c : StrategyConfig) (p : EvidencePolicy) (s : AtomicSnapshot)
    (q : OptionQuote) (previous : Option OptionQuote) (liquidity : Float) (f : Seven)
    → factors env c p s q previous liquidity ≡ ok (some f)
    → All (λ x. (less_eq nought x ≡ true) × (less_eq x (integer (pos 1)) ≡ true)) (values f)
      × ((r : ScoreResult) × (weighted_score f c ≡ ok r) × (is_score r.total ≡ true))
unfolding factors
factors-IsScored env c p s q previous liquidity f h =
    let (e, _, h1) = bind_ok (evidence_of s q previous) _ (some f) h in
    let inside = factors_of-in env c p s q liquidity e f h1 in
    let (r, w) = weighted_score-ok f c inside in
    (in_range (values f) inside, (r, w, weighted_score-is_score f c r w))
