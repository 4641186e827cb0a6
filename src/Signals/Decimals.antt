-- ===== src/Signals/Decimals.antt =====
-- The operations on decimals that signals/pipeline.py runs on values that may be infinite or NaN,
-- as the default context does: an invalid operation and a division by zero raise.
use techo_quant_options_pro.Prelude.{
  Bool, true, false, not, ◌==◌, List, any, pos, ℤ, ltb_ℤ, if◌then◌else◌,
}
use techo_quant_options_pro.Decimal
use techo_quant_options_pro.Decimal.{Decimal, finite, infinity, nan, integer, magnitude}
use techo_quant_options_pro.Float
use techo_quant_options_pro.Float.{Float}
use techo_quant_options_pro.Decimal.{is_finite}
use techo_quant_options_pro.Execution.Errors.{ErrorKind}
use techo_quant_options_pro.Exec.{Result, ok, raised}
use techo_quant_options_pro.Domain.Models.{same_bool}

abbrev pub is_nan : Decimal → Bool
is_nan (finite c p) = false
is_nan (infinity s) = false
is_nan nan = true

abbrev invalid {ℓ} : {A : Type ℓ} → Result A
invalid = raised ErrorKind.invalid_operation "decimal.InvalidOperation"

-- An order test of decimals raises where one of them is NaN.
unfoldable pub compared : List Decimal → Result (Unit {0})
compared xs = if any is_nan xs then invalid else ok tt

unfoldable pub difference : Decimal → Decimal → Result Decimal
difference (finite c p) (finite d q) = ok (Decimal.sub (finite c p) (finite d q))
difference (finite c p) (infinity s) = ok (infinity (not s))
difference (infinity s) (finite d q) = ok (infinity s)
difference (infinity s) (infinity t) = if same_bool s t then invalid else ok (infinity s)
difference _ _ = ok nan

-- An infinity times c.
abbrev scaled_infinity : ℤ → Bool → Result Decimal
scaled_infinity c s =
    if magnitude c == 0 then invalid else ok (infinity (not (same_bool (ltb_ℤ c (pos 0)) s)))

unfoldable pub product : Decimal → Decimal → Result Decimal
product (finite c p) (finite d q) = ok (Decimal.mul (finite c p) (finite d q))
product (finite c p) (infinity s) = scaled_infinity c s
product (infinity s) (finite d q) = scaled_infinity d s
product (infinity s) (infinity t) = ok (infinity (not (same_bool s t)))
product _ _ = ok nan

unfoldable pub quotient : Decimal → Decimal → Result Decimal
quotient (finite c p) (finite d q) =
    if magnitude d == 0
    then (if magnitude c == 0
        then invalid
        else raised ErrorKind.arithmetic_error "decimal.DivisionByZero")
    else ok (Decimal.divide (finite c p) (finite d q))
quotient (finite c p) (infinity s) = ok (integer (pos 0))
quotient (infinity s) (finite d q) = ok (infinity (not (same_bool s (ltb_ℤ d (pos 0)))))
quotient (infinity s) (infinity t) = invalid
quotient _ _ = ok nan

-- A float divided, and one multiplied, by a positive one: an infinity and NaN stay.
abbrev pub over : Float → Float → Float
over x y = if is_finite x then Float.divide x y else x

abbrev pub times : Float → Float → Float
times x y = if is_finite x then Float.mul x y else x
