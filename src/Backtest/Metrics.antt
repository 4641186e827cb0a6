-- ===== src/Backtest/Metrics.antt =====
-- backend/src/teco_quant/backtesting/metrics.py: the counts and the decimal figures of a report.
-- The floating-point ratios (win rate, Sharpe-like ratio, average holding time) are left out; the
-- exposure is the covered time in microseconds, before its division.
pub mod Totals
use Prim.Native.String.{compare}
use Prim.Native.Nat.{Ordering}
use techo_quant_options_pro.Prelude.{
  ℕ, ◌+◌, ◌-◌, max, String, Bool, true, false, ◌||◌, ◌&&◌, Option, none, some, List, [], ◌∷◌, ◌++◌,
  length, str_eq, ltb, leb, ◌==◌, if◌then◌else◌, pos, map,
}
use techo_quant_options_pro.Decimal
use techo_quant_options_pro.Decimal.{Decimal, integer, less, maximum}
use techo_quant_options_pro.Time.{DateTime, before}
use techo_quant_options_pro.Backtest.Models.{Trade, total_costs}

-- `sum((f(trade) for trade in trades), ZERO)`
abbrev pub sum_from : Decimal → (Trade → Decimal) → List Trade → Decimal
sum_from total f [] = total
sum_from total f (t ∷ ts) = sum_from (Decimal.add total (f t)) f ts

abbrev pub sum_of : (Trade → Decimal) → List Trade → Decimal
sum_of f ts = sum_from (integer (pos 0)) f ts

abbrev pub is_win : Trade → Bool
is_win t = less (integer (pos 0)) t.net_pnl

abbrev pub is_loss : Trade → Bool
is_loss t = less t.net_pnl (integer (pos 0))

abbrev pub count_of : (Trade → Bool) → List Trade → ℕ
count_of p [] = 0
count_of p (t ∷ ts) = let rest = count_of p ts in if p t then rest + 1 else rest

-- `total / count if count else ZERO`
abbrev mean : Decimal → ℕ → Decimal
mean total count =
    if count == 0 then integer (pos 0) else Decimal.divide total (integer (pos count))

pub record BreakdownMetrics : Type 0 where
  pub trades : ℕ
  pub wins : ℕ
  pub gross_pnl : Decimal
  pub net_pnl : Decimal
  pub expectancy : Decimal
  pub average_r : Decimal

unfoldable pub trade_breakdown : List Trade → BreakdownMetrics
trade_breakdown ts = record {
  trades = length ts;
  wins = count_of is_win ts;
  gross_pnl = sum_of (λ t. t.gross_pnl) ts;
  net_pnl = sum_of (λ t. t.net_pnl) ts;
  expectancy = mean (sum_of (λ t. t.net_pnl) ts) (length ts);
  average_r = mean (sum_of (λ t. t.r_multiple) ts) (length ts);
}

-- `groups.setdefault(label, []).append(trade)`
unfoldable pub add_to_group :
    String → Trade → List (String × List Trade) → List (String × List Trade)
add_to_group label t [] = (label, t ∷ []) ∷ []
add_to_group label t ((l, ts) ∷ groups) =
    let rest = add_to_group label t groups in
    if str_eq l label then (l, ts ++ (t ∷ [])) ∷ groups else (l, ts) ∷ rest

unfoldable pub group_from :
    (Trade → String) → List (String × List Trade) → List Trade → List (String × List Trade)
group_from selector groups [] = groups
group_from selector groups (t ∷ ts) = group_from selector (add_to_group (selector t) t groups) ts

abbrev label_before : String → String → Bool
label_before a b = elim (compare a b) [ Ordering.lt ↦ true | _ ↦ false ]

-- `sorted(groups.items())`; the labels are distinct.
unfoldable pub insert_group :
    String × List Trade → List (String × List Trade) → List (String × List Trade)
insert_group g [] = g ∷ []
insert_group g (h ∷ groups) =
    let rest = insert_group g groups in if label_before h.0 g.0 then h ∷ rest else g ∷ h ∷ groups

unfoldable pub sort_groups : List (String × List Trade) → List (String × List Trade)
sort_groups [] = []
sort_groups (g ∷ groups) = insert_group g (sort_groups groups)

abbrev pub breakdown_row : String × List Trade → String × BreakdownMetrics
breakdown_row g = (g.0, trade_breakdown g.1)

-- One dimension of `build_breakdowns`.
unfoldable pub breakdown : (Trade → String) → List Trade → List (String × BreakdownMetrics)
breakdown selector ts = map breakdown_row (sort_groups (group_from selector [] ts))

unfoldable pub build_breakdowns : List Trade → List (String × List (String × BreakdownMetrics))
unfolding breakdown
build_breakdowns ts =
    ("score_band", breakdown (λ t. t.score_band) ts)
    ∷ ("market", breakdown (λ t. t.market) ts)
    ∷ ("expiry", breakdown (λ t. t.expiry_bucket) ts)
    ∷ ("moneyness", breakdown (λ t. t.moneyness) ts)
    ∷ ("time", breakdown (λ t. t.time_bucket) ts)
    ∷ ("volatility", breakdown (λ t. t.volatility_bucket) ts)
    ∷ ("regime", breakdown (λ t. t.regime) ts)
    ∷ []

-- `(exit_time, signal_id)` of one trade is strictly before that of another.
abbrev closed_before : Trade → Trade → Bool
closed_before a b =
    before a.exit_time b.exit_time
    || (a.exit_time.instant == b.exit_time.instant && label_before a.signal_id b.signal_id)

-- `sorted` is stable: a trade goes after those that are not strictly later.
unfoldable pub insert_trade : Trade → List Trade → List Trade
insert_trade t [] = t ∷ []
insert_trade t (u ∷ ts) =
    let rest = insert_trade t ts in if closed_before u t then u ∷ rest else t ∷ u ∷ ts

unfoldable pub sort_trades : List Trade → List Trade
sort_trades [] = []
sort_trades (t ∷ ts) = insert_trade t (sort_trades ts)

-- The loop over the equity curve.
unfoldable pub drawdown_from : Decimal → Decimal → Decimal → List Trade → Decimal
drawdown_from equity peak deepest [] = deepest
drawdown_from equity peak deepest (t ∷ ts) =
    let next = Decimal.add equity t.net_pnl in
    let top = maximum peak next in
    drawdown_from next top (maximum deepest (Decimal.sub top next)) ts

unfoldable pub maximum_drawdown : Decimal → List Trade → Decimal
unfolding drawdown_from sort_trades insert_trade
maximum_drawdown initial_capital ts =
    drawdown_from initial_capital initial_capital (integer (pos 0)) (sort_trades ts)

pub record BacktestMetrics : Type 0 where
  pub trades : ℕ
  pub wins : ℕ
  pub losses : ℕ
  pub gross_pnl : Decimal
  pub net_pnl : Decimal
  pub gross_profit : Decimal
  pub gross_loss : Decimal
  pub profit_factor : Option Decimal
  pub expectancy : Decimal
  pub max_drawdown : Decimal
  pub average_r : Decimal
  pub return_on_capital : Decimal
  pub total_slippage : Decimal
  pub total_cost : Decimal

abbrev winning : List Trade → List Trade
winning [] = []
winning (t ∷ ts) = let rest = winning ts in if is_win t then t ∷ rest else rest

abbrev losing : List Trade → List Trade
losing [] = []
losing (t ∷ ts) = let rest = losing ts in if is_loss t then t ∷ rest else rest

-- `abs` of a decimal that is below 0 there.
unfoldable pub calculate_metrics : Decimal → List Trade → BacktestMetrics
unfolding maximum_drawdown
calculate_metrics initial_capital ts =
    let count = length ts in
    let net_pnl = sum_of (λ t. t.net_pnl) ts in
    let gross_profit = sum_of (λ t. t.net_pnl) (winning ts) in
    let gross_loss = sum_of (λ t. t.net_pnl) (losing ts) in
    record {
      trades = count;
      wins = count_of is_win ts;
      losses = count_of is_loss ts;
      gross_pnl = sum_of (λ t. t.gross_pnl) ts;
      net_pnl = net_pnl;
      gross_profit = gross_profit;
      gross_loss = gross_loss;
      profit_factor =
          if less gross_loss (integer (pos 0))
          then some (Decimal.divide gross_profit (Decimal.negate gross_loss))
          else none;
      expectancy = mean net_pnl count;
      max_drawdown = maximum_drawdown initial_capital ts;
      average_r = mean (sum_of (λ t. t.r_multiple) ts) count;
      return_on_capital = Decimal.divide net_pnl initial_capital;
      total_slippage = sum_of (λ t. t.slippage_cost) ts;
      total_cost = sum_of total_costs ts;
    }
