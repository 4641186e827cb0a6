-- ===== src/Decimal.antt =====
-- Python's `decimal.Decimal` as the code uses it: a finite number is a signed coefficient and a
-- count of decimal places, and arithmetic rounds half-even to the default context's 28 digits.
-- Only the numeric value is kept: a positive exponent is multiplied out, and the sign of a zero
-- is dropped. The limits on the exponent are not modelled. The code calls the arithmetic on
-- finite values; on others these functions answer `nan`.
mod Tests
use techo_quant_options_pro.Prelude.{
  ℕ, zero, suc, ◌+◌, ◌-◌, ◌*◌, ◌/◌, ◌%◌, ◌^◌, max, Bool, true, false, not, ◌&&◌, ◌||◌, Option, none,
  some, ltb, leb, ◌==◌, if◌then◌else◌, ℤ, pos, negsuc, pos_part, neg_part, sub_ℕ, ◌+ℤ◌, ◌*ℤ◌, ltb_ℤ,
  leb_ℤ,
}

-- `finite c p` is c / 10 ^ p; the flag of an infinity is its sign.
pub data Decimal : Type 0 where
  finite : ℤ → ℕ → Decimal
  infinity : Bool → Decimal
  nan : Decimal

abbrev pub integer : ℤ → Decimal
integer n = finite n 0

unfoldable pub is_finite : Decimal → Bool
is_finite (finite c p) = true
is_finite (infinity s) = false
is_finite nan = false

-- Order tests, exact; a test on `nan` is false.
unfoldable pub less : Decimal → Decimal → Bool
unfolding ◌*ℤ◌
less (finite c p) (finite d q) = ltb_ℤ (c *ℤ pos (10 ^ q)) (d *ℤ pos (10 ^ p))
less (finite c p) (infinity s) = not s
less (infinity s) (finite d q) = s
less (infinity s) (infinity t) = s && not t
less _ _ = false

unfoldable pub less_eq : Decimal → Decimal → Bool
unfolding ◌*ℤ◌
less_eq (finite c p) (finite d q) = leb_ℤ (c *ℤ pos (10 ^ q)) (d *ℤ pos (10 ^ p))
less_eq (finite c p) (infinity s) = not s
less_eq (infinity s) (finite d q) = s
less_eq (infinity s) (infinity t) = s || not t
less_eq _ _ = false

-- The decimal digits of a number, with the number itself as fuel.
digit_count_from : ℕ → ℕ → ℕ
digit_count_from zero n = 1
digit_count_from (suc fuel) n =
    let rest = digit_count_from fuel (n / 10) in if ltb n 10 then 1 else rest + 1

unfoldable pub digit_count : ℕ → ℕ
unfolding digit_count_from
digit_count n = digit_count_from n n

-- The magnitude without its last `k` digits, rounded half-even.
unfoldable pub drop_digits : ℕ → ℕ → ℕ
drop_digits n k =
    let unit = 10 ^ k in
    let q = n / unit in
    let r = n % unit in if ltb unit (2 * r) || (unit == 2 * r && q % 2 == 1) then q + 1 else q

-- The sign of the first number on the second.
unfoldable pub signed_as : ℤ → ℕ → ℤ
signed_as (pos _) n = pos n
signed_as (negsuc _) n = sub_ℕ 0 n

abbrev pub magnitude : ℤ → ℕ
magnitude c = pos_part c + neg_part c

abbrev precision : ℕ
precision = 28

context_round : ℤ → ℕ → Decimal
unfolding digit_count drop_digits signed_as
context_round c p =
    let excess = digit_count (magnitude c) - precision in
    let kept = drop_digits (magnitude c) excess in
    if excess == 0
    then finite c p
    else if leb excess p
    then finite (signed_as c kept) (p - excess)
    else finite (signed_as c (kept * 10 ^ (excess - p))) 0

unfoldable pub add : Decimal → Decimal → Decimal
unfolding context_round ◌+ℤ◌ ◌*ℤ◌
add (finite c p) (finite d q) =
    context_round (c *ℤ pos (10 ^ (max p q - p)) +ℤ d *ℤ pos (10 ^ (max p q - q))) (max p q)
add _ _ = nan

unfoldable pub negate : Decimal → Decimal
unfolding ◌*ℤ◌
negate (finite c p) = finite (c *ℤ negsuc 0) p
negate (infinity s) = infinity (not s)
negate nan = nan

unfoldable pub sub : Decimal → Decimal → Decimal
unfolding add negate
sub a b = add a (negate b)

unfoldable pub mul : Decimal → Decimal → Decimal
unfolding context_round ◌*ℤ◌
mul (finite c p) (finite d q) = context_round (c *ℤ d) (p + q)
mul _ _ = nan

-- a / b for a nonzero b: enough digits for the context, a last digit that remembers a remainder,
-- and one rounding.
divide_parts : ℕ → ℕ → ℕ → ℕ
divide_parts a b shift =
    let scaled = a * 10 ^ shift in
    let q = scaled / b in if not (scaled % b == 0) && q % 5 == 0 then q + 1 else q

unfoldable pub divide : Decimal → Decimal → Decimal
unfolding divide_parts signed_as context_round digit_count ◌*ℤ◌
divide (finite c p) (finite d q) =
    let shift = digit_count (magnitude d) + precision + 1 - digit_count (magnitude c) in
    let parts = divide_parts (magnitude c) (magnitude d) shift in
    context_round (signed_as (c *ℤ d) (parts * 10 ^ q)) (p + shift)
divide _ _ = nan

-- `quantize(Decimal("0.0001"))`, half-even; `none` is `InvalidOperation`: a result of more digits
-- than the context has.
unfoldable pub quantize_4 : Decimal → Option Decimal
unfolding drop_digits signed_as digit_count
quantize_4 (finite c p) =
    let kept = drop_digits (magnitude c * 10 ^ (4 - p)) (p - 4) in
    if leb (digit_count kept) precision then some (finite (signed_as c kept) 4) else none
quantize_4 (infinity s) = none
quantize_4 nan = some nan

-- `int(value.to_integral_value(rounding=ROUND_FLOOR))` of a finite value.
unfoldable pub floor : Decimal → ℤ
floor (finite (pos n) p) = pos (n / 10 ^ p)
floor (finite (negsuc n) p) = sub_ℕ 0 ((n + 10 ^ p) / 10 ^ p)
floor _ = pos 0

unfoldable pub maximum : Decimal → Decimal → Decimal
unfolding less
maximum a b = if less a b then b else a
