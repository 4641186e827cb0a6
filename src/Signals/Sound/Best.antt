-- ===== src/Signals/Sound/Best.antt =====
-- The best candidates of the two sides: their scores are in range, and without a tie one leads.
use techo_quant_options_pro.Prelude.{
  true, false, none, some, List, [], ◌∷◌, ◌≡◌, refl, sym, subst, arith, All, ◌*ℤ◌, Bool-cases,
  Option-cases, inl, inr, and_left,
}
use techo_quant_options_pro.Decimal.{less, less_eq}
use techo_quant_options_pro.Float.{Float, absolute, sub}
use techo_quant_options_pro.Domain.Enums.{OptionType, same_option_type}
use techo_quant_options_pro.Strategy.Config.{nought}
use techo_quant_options_pro.Strategy.Decision.{is_score}
use techo_quant_options_pro.Signals.Candidates.{Candidate, best, is_best_side}
use techo_quant_options_pro.Signals.Pipeline.{score_or_zero}
use techo_quant_options_pro.Signals.Sound.{best_from-fact}
use techo_quant_options_pro.Signals.Sound.Ties.{gap_of_tie}

sides :
    (t : OptionType) (cs : List Candidate)
    → All
        (λ (d : Candidate). is_best_side t d ≡ true → same_option_type d.quote.option_type t ≡ true)
        cs
sides t [] = tt
sides t (d ∷ ds) = (λ h. and_left (same_option_type d.quote.option_type t) d.eligible h, sides t ds)

pub best_side :
    (cs : List Candidate) (t : OptionType) (c : Candidate)
    → best cs t ≡ some c
    → same_option_type c.quote.option_type t ≡ true
best_side cs t c h =
    best_from-fact (λ d. same_option_type d.quote.option_type t ≡ true) t none cs c
      (λ d absurd. ground arith) (sides t cs) h

-- Without a tie the put leads.
pub put_leads :
    (put call gap : Float)
    → is_score put ≡ true
    → is_score call ≡ true
    → less put call ≡ false
    → less nought gap ≡ true
    → less (absolute (sub call put)) gap ≡ false
    → less_eq put call ≡ false
put_leads put call gap sp sc lead positive decided = elim (Bool-cases (less_eq put call)) [
  | inl e ↦
      let tied = subst (λ x. less x gap ≡ false) (gap_of_tie put call sp sc e lead) decided in
      ground arith
  | inr e ↦ e
]

nought-is_score : is_score nought ≡ true
unfolding less_eq ◌*ℤ◌
nought-is_score = refl

only_best :
    (t : OptionType) (cs : List Candidate)
    → All (λ (d : Candidate). is_score d.score ≡ true) cs
    → All (λ (d : Candidate). is_best_side t d ≡ true → is_score d.score ≡ true) cs
only_best t [] all = tt
only_best t (d ∷ ds) all = (λ h. all.0, only_best t ds all.1)

-- The best candidates' scores are in range.
pub best_score :
    (cs : List Candidate) (t : OptionType)
    → All (λ (d : Candidate). is_score d.score ≡ true) cs
    → is_score (score_or_zero (best cs t)) ≡ true
best_score cs t all = elim (Option-cases (best cs t)) [
  | inl e ↦ subst (λ o. is_score (score_or_zero o) ≡ true) (sym e) nought-is_score
  | inr (c, e) ↦
      subst (λ o. is_score (score_or_zero o) ≡ true) (sym e)
        (best_from-fact (λ d. is_score d.score ≡ true) t none cs c (λ d absurd. ground arith)
          (only_best t cs all) e)
]
