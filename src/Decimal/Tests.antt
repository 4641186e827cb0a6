-- ===== src/Decimal/Tests.antt =====
-- Runs of the decimal arithmetic on values that can be checked against Python.
use techo_quant_options_pro.Prelude.{◌≡◌, refl, true, some, pos, negsuc}
use techo_quant_options_pro.Decimal.{finite, less, add, sub, mul, divide, quantize_4, floor}

add_run : add (finite (pos 15) 1) (finite (negsuc 24) 2) ≡ finite (pos 125) 2
unfolding add
add_run = refl

third_run :
    divide (finite (pos 1) 0) (finite (pos 3) 0) ≡ finite (pos 3333333333333333333333333333) 28
unfolding divide
third_run = refl

quantize_run : quantize_4 (finite (pos 1234565) 5) ≡ some (finite (pos 123456) 4)
unfolding quantize_4
quantize_run = refl

floor_run : floor (finite (negsuc 24) 1) ≡ negsuc 2
unfolding floor
floor_run = refl

less_run :
    less (sub (finite (pos 1) 0) (finite (pos 25) 1)) (mul (finite (pos 2) 1) (finite (pos 3) 0))
    ≡ true
unfolding less sub mul
less_run = refl
