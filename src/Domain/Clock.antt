-- ===== src/Domain/Clock.antt =====
-- Differences of datetimes, as the code measures them.
use techo_quant_options_pro.Prelude.{pos, ◌-ℤ◌}
use techo_quant_options_pro.Decimal.{magnitude}
use techo_quant_options_pro.Float.{Float, round_ratio}
use techo_quant_options_pro.Time.{DateTime}

-- `(a - b).total_seconds()`
unfoldable pub seconds_between : DateTime → DateTime → Float
unfolding ◌-ℤ◌ round_ratio
seconds_between a b =
    round_ratio (pos a.instant -ℤ pos b.instant) (magnitude (pos a.instant -ℤ pos b.instant))
      1000000
