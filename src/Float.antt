-- ===== src/Float.antt =====
-- Python's `float` as the code uses it: a value is its exact decimal expansion, which every binary64
-- number has, and arithmetic rounds to 53 bits, half-even. Comparisons are those of `Decimal`. The
-- limits on the exponent and the sign of a zero are not modelled. The code calls the arithmetic
-- on finite values, and divides by values that are not 0; on others these functions answer `nan`.
mod Tests
pub mod Bounds
use techo_quant_options_pro.Prelude.{
  ℕ, zero, suc, ◌+◌, ◌-◌, ◌*◌, ◌/◌, ◌%◌, ◌^◌, Bool, true, false, not, ◌&&◌, ◌||◌, List, [], ◌∷◌,
  ltb, leb, ◌==◌, if◌then◌else◌, ℤ, pos, negsuc, ◌+ℤ◌, ◌-ℤ◌, ◌*ℤ◌,
}
use techo_quant_options_pro.Decimal.{
  Decimal, finite, infinity, nan, integer, less, less_eq, digit_count, drop_digits, signed_as,
  magnitude,
}

abbrev pub Float : Type 0
Float = Decimal

-- The binary digits of a number, with the number itself as fuel.
bit_count_from : ℕ → ℕ → ℕ
bit_count_from zero n = 1
bit_count_from (suc fuel) n =
    let rest = bit_count_from fuel (n / 2) in if ltb n 2 then 1 else rest + 1

-- a / b, rounded half-even to a whole number.
half_even : ℕ → ℕ → ℕ
half_even a b =
    let q = a / b in
    let r = a % b in if ltb b (2 * r) || (b == 2 * r && q % 2 == 1) then q + 1 else q

-- The nearest value of 53 bits to n / d, where `up` and `down` scale it into 53 or 54 bits.
scaled_ratio : ℤ → ℕ → ℕ → ℕ → ℕ → Float
unfolding half_even signed_as
scaled_ratio sign n d up down =
    let num = n * 2 ^ up in
    let den = d * 2 ^ down in
    let unit = if ltb (num / den) (2 ^ 53) then 1 else 2 in
    finite (signed_as sign (half_even num (den * unit) * unit * 2 ^ down * 5 ^ up)) up

unfoldable pub round_ratio : ℤ → ℕ → ℕ → Float
unfolding bit_count_from scaled_ratio
round_ratio sign n d =
    let have = bit_count_from n n in
    let want = 53 + bit_count_from d d in
    if n == 0 then integer (pos 0) else scaled_ratio sign n d (want - have) (have - want)

abbrev rounded : ℤ → ℕ → Float
rounded z d = round_ratio z (magnitude z) d

unfoldable pub add : Float → Float → Float
unfolding round_ratio ◌+ℤ◌ ◌*ℤ◌
add (finite c p) (finite d q) = rounded (c *ℤ pos (10 ^ q) +ℤ d *ℤ pos (10 ^ p)) (10 ^ (p + q))
add _ _ = nan

unfoldable pub sub : Float → Float → Float
unfolding round_ratio ◌-ℤ◌ ◌*ℤ◌
sub (finite c p) (finite d q) = rounded (c *ℤ pos (10 ^ q) -ℤ d *ℤ pos (10 ^ p)) (10 ^ (p + q))
sub _ _ = nan

unfoldable pub mul : Float → Float → Float
unfolding round_ratio ◌*ℤ◌
mul (finite c p) (finite d q) = rounded (c *ℤ d) (10 ^ (p + q))
mul _ _ = nan

unfoldable pub divide : Float → Float → Float
unfolding round_ratio ◌*ℤ◌
divide (finite c p) (finite d q) =
    round_ratio (c *ℤ d) (magnitude c * 10 ^ q) (magnitude d * 10 ^ p)
divide _ _ = nan

-- `abs`, exact; also that of a decimal, before the context rounds it.
unfoldable pub absolute : Float → Float
absolute (finite c p) = finite (pos (magnitude c)) p
absolute (infinity s) = infinity false
absolute nan = nan

-- `float(value)` of a decimal.
unfoldable pub of_decimal : Decimal → Float
unfolding round_ratio
of_decimal (finite c p) = rounded c (10 ^ p)
of_decimal (infinity s) = infinity s
of_decimal nan = nan

-- `a / b` of two ints, which Python rounds once.
abbrev pub ratio : ℕ → ℕ → Float
ratio a b = round_ratio (pos a) a b

-- Python's two-argument `max` and `min`: the second where it is strictly better.
abbrev pub float_max : Float → Float → Float
float_max a b = if less a b then b else a

abbrev pub float_min : Float → Float → Float
float_min a b = if less b a then b else a

-- `sum` of floats, from the left. (From Python 3.12 on, it compensates the rounding.)
abbrev pub sum_from : Float → List Float → Float
sum_from total [] = total
sum_from total (x ∷ xs) = sum_from (add total x) xs

abbrev pub sum_of : List Float → Float
sum_of xs = sum_from (integer (pos 0)) xs

abbrev pub same_value : Float → Float → Bool
same_value a b = less_eq a b && less_eq b a

-- A value with its first k digits only, rounded half-even.
first_digits : ℕ → ℤ → ℕ → Decimal
unfolding digit_count drop_digits signed_as
first_digits k c p =
    let excess = digit_count (magnitude c) - k in
    let kept = drop_digits (magnitude c) excess in
    if leb excess p
    then finite (signed_as c kept) (p - excess)
    else finite (signed_as c (kept * 10 ^ (excess - p))) 0

-- The shortest of the decimals with k or more digits that read back as the value.
shortest_from : ℕ → ℕ → ℤ → ℕ → Decimal
unfolding first_digits
shortest_from zero k c p = finite c p
shortest_from (suc fuel) k c p =
    let rest = shortest_from fuel (k + 1) c p in
    let candidate = first_digits k c p in
    if same_value (of_decimal candidate) (finite c p) then candidate else rest

-- `Decimal(str(value))`: `str` writes the fewest digits that read back as the same float, and 17
-- are always enough.
unfoldable pub decimal_of_text : Float → Decimal
unfolding shortest_from of_decimal less_eq
decimal_of_text (finite c p) = shortest_from 17 1 c p
decimal_of_text (infinity s) = infinity s
decimal_of_text nan = nan
