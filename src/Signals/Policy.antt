-- ===== src/Signals/Policy.antt =====
-- `EvidencePolicy` of signals/policy.py, and what the pipeline takes from Python.
use techo_quant_options_pro.Prelude.{Bool, ◌||◌, String, List, [], ◌∷◌, any, pos}
use techo_quant_options_pro.Decimal.{finite, integer, less_eq}
use techo_quant_options_pro.Float.{Float, of_decimal}
use techo_quant_options_pro.Exec.{Result, ◌then_check◌}
use techo_quant_options_pro.Domain.Models.{AtomicSnapshot, OptionQuote, Hashing}
use techo_quant_options_pro.Strategy.Config.{refuse, nought, is_not_finite}

pub record EvidencePolicy : Type 0 where
  pub version : String
  pub premium_momentum_saturation : Float
  pub volatility_ratio_floor : Float
  pub volatility_ratio_ceiling : Float
  pub theoretical_error_ceiling : Float
  pub daily_theta_drag_ceiling : Float
  pub reward_risk_full_score : Float

abbrev numbers : EvidencePolicy → List Float
numbers p =
    p.premium_momentum_saturation ∷ p.volatility_ratio_floor ∷ p.volatility_ratio_ceiling
    ∷ p.theoretical_error_ceiling ∷ p.daily_theta_drag_ceiling ∷ p.reward_risk_full_score ∷ []

abbrev is_unusable : Float → Bool
is_unusable x = is_not_finite x || less_eq x nought

unfoldable pub validate_evidence : EvidencePolicy → Result (Unit {0})
validate_evidence p =
    refuse (any is_unusable (numbers p))
      "evidence-policy numeric values must be finite and positive"
    then_check refuse
        (less_eq (integer (pos 1)) p.volatility_ratio_floor
          || less_eq p.volatility_ratio_ceiling (integer (pos 1)))
        "volatility ratio bounds must surround 1.0"

abbrev pub default_evidence : EvidencePolicy
default_evidence = record {
  version = "teco-evidence-1.0.0";
  premium_momentum_saturation = of_decimal (finite (pos 2) 2);
  volatility_ratio_floor = of_decimal (finite (pos 50) 2);
  volatility_ratio_ceiling = of_decimal (finite (pos 200) 2);
  theoretical_error_ceiling = of_decimal (finite (pos 25) 2);
  daily_theta_drag_ceiling = of_decimal (finite (pos 10) 2);
  reward_risk_full_score = integer (pos 2);
}

-- `math.log` and `math.sqrt`, the hashes, and the hash of what identifies a signal.
pub record Environment : Type 0 where
  pub log : Float → Float
  pub sqrt : Float → Float
  pub hash : Hashing
  pub signal_hash : AtomicSnapshot → OptionQuote → String → String
