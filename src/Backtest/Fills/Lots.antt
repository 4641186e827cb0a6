-- ===== src/Backtest/Fills/Lots.antt =====
-- What a quote can fill of whole lots is whole lots.
use native.Mathlib.Nat.{mul-le-mul_right}
use techo_quant_options_pro.Prelude.{
  ℕ, ◌*◌, ◌/◌, ◌≤◌, ◌≡◌, refl, Option, none, some, min, arith, leb, Bool-cases, inl, inr, if_cases,
  pos_part,
}
use techo_quant_options_pro.Decimal.{floor}
use techo_quant_options_pro.Backtest.Models.{BacktestConfig}
use techo_quant_options_pro.Backtest.Fills.{fillable_quantity, participating_lots, times}

-- A number of lots, inside what was asked for.
abbrev pub WholeLots : ℕ → ℕ → ℕ → Type 0
WholeLots lots lot_size quantity = (j : ℕ) × (j ≤ lots) × (quantity ≡ j * lot_size)

min_lots : (k j lot_size : ℕ) → WholeLots k lot_size (min (k * lot_size) (j * lot_size))
min_lots k j lot_size = elim (Bool-cases (leb k j)) [
  | inl e ↦
      let le : k ≤ j = ground arith in (k, omega arith, omega (arith, mul-le-mul_right lot_size le))
  | inr e ↦ let le : j ≤ k = ground arith in (j, le, omega (arith, mul-le-mul_right lot_size le))
]

-- A request for whole lots is filled by whole lots, and by no more than were asked for.
pub fillable_lots :
    (lots : ℕ) (visible : Option ℕ) (lot_size : ℕ) (c : BacktestConfig)
    → WholeLots lots lot_size (fillable_quantity (lots * lot_size) visible lot_size c)
unfolding fillable_quantity participating_lots
fillable_lots lots none lot_size c =
    if_cases (WholeLots lots lot_size) c.partial_fills.enabled (λ _. (0, omega arith, omega arith))
      (λ _. (lots, omega arith, refl))
fillable_lots lots (some visible) lot_size c =
    if_cases (WholeLots lots lot_size) c.partial_fills.enabled
      (λ _.
        min_lots lots
          (pos_part (floor (times c.partial_fills.maximum_participation_rate visible)) / lot_size)
          lot_size)
      (λ _. (lots, omega arith, refl))
