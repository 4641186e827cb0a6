-- ===== src/Backtest/Metrics/Totals.antt =====
-- The rows of a breakdown partition the trades.
use techo_quant_options_pro.Prelude.{
  ℕ, ◌+◌, String, Bool, ◌≡◌, List, [], ◌∷◌, ◌++◌, length, length-append, map, arith,
}
use techo_quant_options_pro.Backtest.Models.{Trade}
use techo_quant_options_pro.Backtest.Metrics.{
  BreakdownMetrics, count_of, is_win, breakdown_row, trade_breakdown, add_to_group, group_from,
  insert_group, sort_groups, breakdown,
}

-- What two rows have in common: a measure of lists of trades that adds up.
record IsAdditive (m : List Trade → ℕ) : Type 0 where
  empty : m [] ≡ 0
  joined : (xs ys : List Trade) → m (xs ++ ys) ≡ m xs + m ys

module _ (m : List Trade → ℕ) where
  abbrev in_groups : List (String × List Trade) → ℕ
  in_groups [] = 0
  in_groups (g ∷ groups) = m g.1 + in_groups groups

  module _ (additive : IsAdditive m) where
    add_to_group-total :
        (label : String) (t : Trade) (groups : List (String × List Trade))
        → in_groups (add_to_group label t groups) ≡ m (t ∷ []) + in_groups groups
    unfolding add_to_group
    add_to_group-total label t [] = omega arith
    add_to_group-total label t ((l, ts) ∷ groups) =
        ground (arith, add_to_group-total label t groups, additive.joined ts (t ∷ []))

    group_from-total :
        (selector : Trade → String) (groups : List (String × List Trade)) (ts : List Trade)
        → in_groups (group_from selector groups ts) ≡ in_groups groups + m ts
    unfolding group_from
    group_from-total selector groups [] = omega (arith, additive.empty)
    group_from-total selector groups (t ∷ ts) = omega (
      arith,
      group_from-total selector (add_to_group (selector t) t groups) ts,
      add_to_group-total (selector t) t groups,
      additive.joined (t ∷ []) ts,
    )

  insert_group-total :
      (g : String × List Trade) (groups : List (String × List Trade))
      → in_groups (insert_group g groups) ≡ m g.1 + in_groups groups
  unfolding insert_group
  insert_group-total g [] = omega arith
  insert_group-total g (h ∷ groups) = ground (arith, insert_group-total g groups)

  sort_groups-total :
      (groups : List (String × List Trade)) → in_groups (sort_groups groups) ≡ in_groups groups
  unfolding sort_groups
  sort_groups-total [] = omega arith
  sort_groups-total (g ∷ groups) =
      omega (arith, sort_groups-total groups, insert_group-total g (sort_groups groups))

count_of-append :
    (p : Trade → Bool) (xs ys : List Trade) → count_of p (xs ++ ys) ≡ count_of p xs + count_of p ys
count_of-append p [] ys = omega arith
count_of-append p (x ∷ xs) ys = ground (arith, count_of-append p xs ys)

abbrev pub total_trades : List (String × BreakdownMetrics) → ℕ
total_trades [] = 0
total_trades (row ∷ rows) = row.1.trades + total_trades rows

abbrev pub total_wins : List (String × BreakdownMetrics) → ℕ
total_wins [] = 0
total_wins (row ∷ rows) = row.1.wins + total_wins rows

rows-totals :
    (groups : List (String × List Trade))
    → let rows = map breakdown_row groups in
      (total_trades rows ≡ in_groups length groups)
      × (total_wins rows ≡ in_groups (count_of is_win) groups)
unfolding trade_breakdown
rows-totals [] = (omega arith, omega arith)
rows-totals (g ∷ groups) = let (a, b) = rows-totals groups in (omega (arith, a), omega (arith, b))

-- In every dimension of the report, the rows together have as many trades, and as many wins, as
-- there are trades and wins.
pub breakdown_totals :
    (selector : Trade → String) (ts : List Trade)
    → (total_trades (breakdown selector ts) ≡ length ts)
      × (total_wins (breakdown selector ts) ≡ count_of is_win ts)
unfolding breakdown
breakdown_totals selector ts =
    let groups = group_from selector [] ts in
    let (a, b) = rows-totals (sort_groups groups) in
    (
      omega (
        arith,
        a,
        sort_groups-total length groups,
        group_from-total length (record { empty = omega arith; joined = length-append }) selector []
            ts,
      ),
      omega (
        arith,
        b,
        sort_groups-total (count_of is_win) groups,
        group_from-total (count_of is_win)
            (record { empty = omega arith; joined = count_of-append is_win }) selector [] ts,
      ),
    )
