-- ===== src/Float/Tests.antt =====
-- Floats against values that Python prints.
use techo_quant_options_pro.Prelude.{◌≡◌, refl, pos, negsuc}
use techo_quant_options_pro.Decimal.{finite}
use techo_quant_options_pro.Float.{add, sub, divide, of_decimal, decimal_of_text}

-- 0.1 + 0.2 is 0.30000000000000004
tenths :
    decimal_of_text (add (of_decimal (finite (pos 1) 1)) (of_decimal (finite (pos 2) 1)))
    ≡ finite (pos 30000000000000004) 17
unfolding add of_decimal decimal_of_text
tenths = refl

third :
    decimal_of_text (divide (finite (pos 1) 0) (finite (pos 3) 0))
    ≡ finite (pos 3333333333333333) 16
unfolding divide decimal_of_text
third = refl

-- 1.1 - 2.2 is -1.1
back :
    decimal_of_text (sub (of_decimal (finite (pos 11) 1)) (of_decimal (finite (pos 22) 1)))
    ≡ finite (negsuc 10) 1
unfolding sub of_decimal decimal_of_text
back = refl
