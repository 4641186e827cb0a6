-- ===== src/Text.antt =====
-- Python's `str` methods that the code calls: `strip` and the test for a blank text.
use Prim.Native.Char.{code}
use techo_quant_options_pro.Prelude.{
  ℕ, ◌+◌, String, ◌≡◌, Bool, true, false, ◌&&◌, ◌||◌, [], ◌∷◌, any, ◌==◌, leb, if◌then◌else◌,
  str_eq, eq_iff,
}

-- The code points that Python's `str.isspace` holds of.
is_space : ℕ → Bool
is_space c =
    (leb 9 c && leb c 13)
    || (leb 28 c && leb c 32)
    || (leb 0x2000 c && leb c 0x200a)
    || any (λ s. c == s) (0x85 ∷ 0xa0 ∷ 0x1680 ∷ 0x2028 ∷ 0x2029 ∷ 0x202f ∷ 0x205f ∷ 0x3000 ∷ [])

unfoldable pub is_empty : String → Bool
is_empty String.[] = true
is_empty (String.◌∷◌ c s) = false

lstrip : String → String
lstrip String.[] = String.[]
lstrip (String.◌∷◌ c s) = let rest = lstrip s in if is_space (code c) then rest else String.◌∷◌ c s

rstrip : String → String
rstrip String.[] = String.[]
rstrip (String.◌∷◌ c s) =
    let rest = rstrip s in
    if is_space (code c) && is_empty rest then String.[] else String.◌∷◌ c rest

unfoldable pub strip : String → String
unfolding lstrip rstrip is_space
strip s = rstrip (lstrip s)

-- `not s.strip()`
unfoldable pub is_blank : String → Bool
unfolding strip is_empty
is_blank s = is_empty (strip s)

pub str_eq→eq : (s t : String) → str_eq s t ≡ true → s ≡ t
str_eq→eq s t = (eq_iff s t).0

pub eq→str_eq : (s t : String) → s ≡ t → str_eq s t ≡ true
eq→str_eq s t = (eq_iff s t).1

length_of : String → ℕ
length_of String.[] = 0
length_of (String.◌∷◌ c s) = length_of s + 1

is_hex : ℕ → Bool
is_hex c = (leb 48 c && leb c 57) || (leb 65 c && leb c 70) || (leb 97 c && leb c 102)

all_hex : String → Bool
unfolding is_hex
all_hex String.[] = true
all_hex (String.◌∷◌ c s) = is_hex (code c) && all_hex s

-- 64 hexadecimal digits.
unfoldable pub is_digest : String → Bool
unfolding length_of all_hex
is_digest s = length_of s == 64 && all_hex s

-- `s.startswith(prefix)`
unfoldable pub starts_with : String → String → Bool
starts_with s String.[] = true
starts_with String.[] (String.◌∷◌ d p) = false
starts_with (String.◌∷◌ c s) (String.◌∷◌ d p) = code c == code d && starts_with s p
