-- ===== src/Time.antt =====
-- Python's `datetime`: an aware value is an instant, in microseconds from year 1 in UTC; a naive
-- one is a wall-clock reading. Time zones matter to the code only through the instant.
use techo_quant_options_pro.Prelude.{ℕ, ◌+◌, ◌*◌, ◌/◌, Bool, ltb, leb, ◌==◌}

pub record DateTime : Type 0 where
  pub instant : ℕ
  pub aware : Bool

abbrev pub microseconds_per_day : ℕ
microseconds_per_day = 24 * 60 * 60 * 1000000

-- `value.astimezone(UTC).date()`, as a day number.
abbrev pub utc_day : DateTime → ℕ
utc_day t = t.instant / microseconds_per_day

abbrev pub before : DateTime → DateTime → Bool
before a b = ltb a.instant b.instant

abbrev pub not_after : DateTime → DateTime → Bool
not_after a b = leb a.instant b.instant

abbrev pub same_instant : DateTime → DateTime → Bool
same_instant a b = a.instant == b.instant

-- `(a - b).total_seconds() > d`, with `d` in microseconds.
abbrev pub exceeds : DateTime → DateTime → ℕ → Bool
exceeds a b d = ltb (b.instant + d) a.instant
