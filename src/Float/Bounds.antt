-- ===== src/Float/Bounds.antt =====
-- Clamping keeps a float inside its bounds, whatever the float.
use techo_quant_options_pro.Prelude.{Bool, true, ◌&&◌, false, ◌≡◌, arith, tests}
use techo_quant_options_pro.Decimal.{Decimal, finite, infinity, nan, less, less_eq}
use techo_quant_options_pro.Float.{Float, float_max, float_min}

pub less-less_eq : (a b : Decimal) → less a b ≡ true → less_eq a b ≡ true
unfolding less less_eq
less-less_eq (finite c p) (finite d q) h = grind tests
less-less_eq (finite c p) (infinity t) h = ground arith
less-less_eq (infinity t) (finite c p) h = ground arith
less-less_eq (infinity t) (infinity u) h = ground arith
less-less_eq nan b h = ground arith
less-less_eq (finite c p) nan h = ground arith
less-less_eq (infinity t) nan h = ground arith

pub not_less_eq : (a b : Decimal) → less a b ≡ true → less_eq b a ≡ false
unfolding less less_eq
not_less_eq (finite c p) (finite d q) h = grind tests
not_less_eq (finite c p) (infinity t) h = ground arith
not_less_eq (infinity t) (finite c p) h = ground arith
not_less_eq (infinity t) (infinity u) h = ground arith
not_less_eq nan b h = ground arith
not_less_eq (finite c p) nan h = ground arith
not_less_eq (infinity t) nan h = ground arith

abbrev pub is_within : Float → Float → Float → Bool
is_within low high x = less_eq low x && less_eq x high

float_max-lower : (low x : Float) → less_eq low low ≡ true → less_eq low (float_max low x) ≡ true
float_max-lower low x h = ground (arith, less-less_eq low x)

pub clamped_within :
    (low high x : Float)
    → less_eq low low ≡ true
    → less_eq low high ≡ true
    → less_eq high high ≡ true
    → is_within low high (float_min high (float_max low x)) ≡ true
clamped_within low high x l lh hh =
    ground (arith, float_max-lower low x l, less-less_eq (float_max low x) high)
