-- ===== src/Signals/Sound/Ties.antt =====
-- Equal finite scores have no gap.
use techo_quant_options_pro.Prelude.{
  ℕ, true, false, ◌≡◌, refl, arith, tests, ℤ, pos, leb_ℤ, ltb_ℤ, ◌-ℤ◌, ◌*ℤ◌, ◌^◌, ◌+◌,
}
use techo_quant_options_pro.Decimal.{finite, infinity, nan, less, less_eq, magnitude}
use techo_quant_options_pro.Float
use techo_quant_options_pro.Float.{Float, absolute, round_ratio}
use techo_quant_options_pro.Strategy.Config.{nought}
use techo_quant_options_pro.Strategy.Decision.{is_score}

sub_same : (a b : ℤ) → leb_ℤ a b ≡ true → ltb_ℤ a b ≡ false → b -ℤ a ≡ pos 0
unfolding ◌-ℤ◌
sub_same a b le lt = grind tests

round_zero : (z : ℤ) (d : ℕ) → z ≡ pos 0 → absolute (round_ratio z (magnitude z) d) ≡ nought
unfolding absolute round_ratio
round_zero z d e = rw e refl

pub gap_of_tie :
    (a b : Float)
    → is_score a ≡ true
    → is_score b ≡ true
    → less_eq a b ≡ true
    → less a b ≡ false
    → absolute (Float.sub b a) ≡ nought
unfolding less less_eq Float.sub
gap_of_tie (finite c p) (finite d q) sa sb le lt =
    round_zero (d *ℤ pos (10 ^ p) -ℤ c *ℤ pos (10 ^ q)) (10 ^ (q + p))
      (sub_same (c *ℤ pos (10 ^ q)) (d *ℤ pos (10 ^ p)) le lt)
gap_of_tie (infinity t) b sa sb le lt = ground arith
gap_of_tie nan b sa sb le lt = ground arith
gap_of_tie (finite c p) (infinity t) sa sb le lt = ground arith
gap_of_tie (finite c p) nan sa sb le lt = ground arith
