-- ===== src/Backtest/Sound.antt =====
-- What a replay keeps: one position for each instrument, positions entered after their signal and
-- inside its limits, and every signal accounted for.
pub mod Exits
pub mod Pending
pub mod Whole
use techo_quant_options_pro.Prelude.{
  ℕ, ◌+◌, ◌≤◌, ◌<◌, Bool, true, false, String, ◌≡◌, refl, ap, Option, none, some, List, [], ◌∷◌,
  ◌++◌, All, Distinct, length, select, arith, length-append,
}
use techo_quant_options_pro.Decimal.{less}
use techo_quant_options_pro.Time.{DateTime, before}
use techo_quant_options_pro.Backtest.Models.{
  BacktestSignal, JournalEvent, JournalEntry, Trade, requested_quantity,
}
use techo_quant_options_pro.Backtest.Engine.{OpenPosition, Replay}

-- An open position: entered strictly after its signal was generated, before its contract expires
-- and within its validity, at a price strictly between stop and target; what is left and what was
-- exited make up what was entered, which is not more than was asked for.
pub record IsHeld (p : OpenPosition) : Type 0 where
  pub later : p.signal.generated_at.instant < p.entry_time.instant
  pub unexpired : p.entry_time.instant < p.signal.contract_expiry.instant
  pub valid : (t : DateTime) → p.signal.valid_until ≡ some t → p.entry_time.instant ≤ t.instant
  pub above_stop : less p.signal.stop_price p.entry_price ≡ true
  pub below_target : less p.entry_price p.signal.target_price ≡ true
  pub left_over : 0 < p.remaining_quantity
  pub split : p.remaining_quantity + p.exit_quantity ≡ p.quantity
  pub asked : p.quantity ≤ requested_quantity p.signal

-- A trade: it bought something, strictly between its stop and its target.
pub record IsClosed (t : Trade) : Type 0 where
  pub bought : 0 < t.quantity
  pub above_stop : less t.stop_price t.entry_price ≡ true
  pub below_target : less t.entry_price t.target_price ≡ true

abbrev pub is_skip : JournalEntry → Bool
is_skip e = elim e.event [ JournalEvent.skipped ↦ true | _ ↦ false ]

-- The signals that were dropped.
abbrev pub skips : List JournalEntry → ℕ
skips [] = 0
skips (e ∷ es) = (elim (is_skip e) [ true ↦ 1 | false ↦ 0 ]) + skips es

pub skips-append : (xs ys : List JournalEntry) → skips (xs ++ ys) ≡ skips xs + skips ys
skips-append [] ys = omega arith
skips-append (x ∷ xs) ys = omega (arith, skips-append xs ys)

abbrev pub instrument : OpenPosition → String
instrument p = p.signal.instrument_id

-- The signals that wait, are in a position, became a trade, or were dropped.
abbrev pub accounted : Replay → ℕ
accounted r = length r.pending + length r.positions + length r.trades + skips r.journal

abbrev pub Asks : BacktestSignal → Type 0
Asks s = 0 < requested_quantity s

pub record IsReplay (n : ℕ) (r : Replay) : Type 0 where
  pub waiting : All Asks r.pending
  pub single : Distinct instrument r.positions
  pub held : All IsHeld r.positions
  pub closed : All IsClosed r.trades
  pub balance : accounted r ≡ n
