-- ===== src/Backtest/Sound/Pending.antt =====
-- The entries of a replay: a waiting signal goes on waiting, is dropped, or opens a position.
use techo_quant_options_pro.Prelude.{
  ℕ, suc, ◌+◌, ◌≤◌, true, false, not, ◌&&◌, String, ◌≡◌, ◌∙◌, refl, sym, subst, Option, none, some,
  List, [], ◌∷◌, All, All-append, Distinct-at_end, length, length-append, any, arith, if_cases,
  and_left, and_right, ◌==◌, true_of_not,
}
use techo_quant_options_pro.Decimal.{less}
use techo_quant_options_pro.Time.{DateTime, not_after}
use techo_quant_options_pro.Exec.{Result}
use techo_quant_options_pro.Exec.Triple.{Ends, Triple, Triple-bind, Triple-weaken}
use techo_quant_options_pro.Backtest.Models.{
  JournalEvent, JournalEntry, OptionBar, BacktestSignal, BacktestConfig, ReplayFrame,
  requested_quantity,
}
use techo_quant_options_pro.Backtest.Fills.{entry_price}
use techo_quant_options_pro.Backtest.Engine.{OpenPosition, Replay, holds, note}
use techo_quant_options_pro.Backtest.Entries.{
  keep, write, skip, opened_entry_position, open_entry, enter, enter_on, has_elapsed, try_entry,
  execute_pending,
}
use techo_quant_options_pro.Backtest.Sound.{
  Asks, IsHeld, IsReplay, is_skip, skips-append, instrument,
}
use techo_quant_options_pro.Backtest.Sound.Exits.{fillable-le, fillable_full}

abbrev pub Never : Replay → Type 0
Never r = ⊥

module _ (n : ℕ) (r : Replay) (h : IsReplay n r) where
  keep-IsReplay : (s : BacktestSignal) → Asks s → IsReplay (suc n) (keep s r)
  keep-IsReplay s asks = record {
    waiting = All-append Asks r.pending (s ∷ []) h.waiting (asks, tt);
    single = h.single;
    held = h.held;
    closed = h.closed;
    balance = omega (arith, h.balance, length-append r.pending (s ∷ []));
  }

  skip-IsReplay :
      (s : BacktestSignal) (t : DateTime) (message : String) → IsReplay (suc n) (skip s t message r)
  skip-IsReplay s t message = record {
    waiting = h.waiting;
    single = h.single;
    held = h.held;
    closed = h.closed;
    balance =
        omega
          (arith, h.balance, skips-append r.journal (note JournalEvent.skipped t s message ∷ []));
  }

  -- An entry that says nothing of a dropped signal.
  pub write-IsReplay : (e : JournalEntry) → is_skip e ≡ false → IsReplay n (write e r)
  write-IsReplay e quiet = record {
    waiting = h.waiting;
    single = h.single;
    held = h.held;
    closed = h.closed;
    balance = ground (arith, h.balance, skips-append r.journal (e ∷ []));
  }

  open_entry-IsReplay :
      (p : OpenPosition)
      → IsHeld p
      → any (holds (instrument p)) r.positions ≡ false
      → IsReplay (suc n) (open_entry p r)
  open_entry-IsReplay p held free = record {
    waiting = h.waiting;
    single = Distinct-at_end instrument r.positions p h.single free;
    held = All-append IsHeld r.positions (p ∷ []) h.held (held, tt);
    closed = h.closed;
    balance =
        omega
          (arith, h.balance, length-append r.positions (p ∷ []), skips-append r.journal (_ ∷ []));
  }

apart : true ≡ false → ⊥
apart e = cc

-- A signal that may be entered now.
record IsDue (s : BacktestSignal) (now : DateTime) : Type 0 where
  later : not_after now s.generated_at ≡ false
  unexpired : not_after s.contract_expiry now ≡ false
  valid : has_elapsed s.valid_until now ≡ false

opened-IsHeld :
    (c : BacktestConfig) (s : BacktestSignal) (bar : OptionBar) (now : DateTime) (quantity : ℕ)
    → IsDue s now
    → (quantity == 0) ≡ false
    → quantity ≤ requested_quantity s
    → (less s.stop_price (entry_price bar c).0 && less (entry_price bar c).0 s.target_price) ≡ true
    → IsHeld (opened_entry_position c s bar now quantity)
opened-IsHeld c s bar now quantity due some_left asked priced = record {
  later = ground (arith, due.later);
  unexpired = ground (arith, due.unexpired);
  valid = within s.valid_until due.valid;
  above_stop = and_left _ _ priced;
  below_target = and_right (less s.stop_price (entry_price bar c).0) _ priced;
  left_over = ground arith;
  split = omega arith;
  asked = asked;
}
  where
    within :
        (o : Option DateTime)
        → has_elapsed o now ≡ false
        → (t : DateTime) → o ≡ some t
        → now.instant ≤ t.instant
    within none e t k = cc
    within (some u) e t k = ground arith

module _ (c : BacktestConfig) (s : BacktestSignal) (now : DateTime) (n : ℕ) (asks : Asks s) where
  -- One signal more is accounted for.
  abbrev Counted : Result (Unit {0}) × Replay → Type 0
  Counted r = Ends (IsReplay (suc n)) Never r

  enter-Counted :
      (bar : OptionBar) (quantity : ℕ) (r : Replay)
      → IsDue s now
      → quantity ≤ requested_quantity s
      → (c.partial_fills.enabled ≡ false → (quantity == 0) ≡ false)
      → any (holds s.instrument_id) r.positions ≡ false
      → IsReplay n r
      → Counted (enter c s bar now quantity r)
  unfolding enter
  enter-Counted bar quantity r due asked whole free h =
      if_cases Counted (quantity == 0)
        (λ empty.
          if_cases Counted c.partial_fills.enabled
            (λ _. write-IsReplay (suc n) (keep s r) (keep-IsReplay n r h s asks) _ refl)
            (λ full. absurd (apart (sym empty ∙ whole full))))
        (λ some_left.
          if_cases Counted
            (not (
              less s.stop_price (entry_price bar c).0 && less (entry_price bar c).0 s.target_price))
            (λ _. skip-IsReplay n r h s now _)
            (λ priced.
              open_entry-IsReplay n r h (opened_entry_position c s bar now quantity)
                (opened-IsHeld c s bar now quantity due some_left asked (true_of_not _ priced))
                free))

  enter_on-Counted :
      (o : Option OptionBar) (r : Replay)
      → IsDue s now
      → IsReplay n r
      → Counted (enter_on c s now o r)
  unfolding enter_on
  enter_on-Counted none r due h = keep-IsReplay n r h s asks
  enter_on-Counted (some bar) r due h =
      if_cases Counted (any (holds s.instrument_id) r.positions) (λ _. skip-IsReplay n r h s now _)
        (λ free.
          enter-Counted bar _ r due
            (fillable-le (requested_quantity s) bar.ask_quantity s.lot_size c)
            (fillable_full (requested_quantity s) bar.ask_quantity s.lot_size c asks) free h)

try_entry-Counted :
    (c : BacktestConfig) (frame : ReplayFrame) (s : BacktestSignal) (n : ℕ)
    → Asks s
    → Triple (IsReplay n) (try_entry c frame s) (IsReplay (suc n)) Never
unfolding try_entry
try_entry-Counted c frame s n asks = record {
  at = λ r h.
      if_cases C (not_after frame.timestamp s.generated_at) (λ _. keep-IsReplay n r h s asks)
        (λ later.
          if_cases C (not_after s.contract_expiry frame.timestamp)
            (λ _. skip-IsReplay n r h s frame.timestamp _)
            (λ unexpired.
              if_cases C (has_elapsed s.valid_until frame.timestamp)
                (λ _. skip-IsReplay n r h s frame.timestamp _)
                (λ valid.
                  enter_on-Counted c s frame.timestamp n asks _ r
                    (record { later = later; unexpired = unexpired; valid = valid }) h)));
}
  where
    C : Result (Unit {0}) × Replay → Type 0
    C r = Ends (IsReplay (suc n)) Never r

-- The loop returns, and accounts for every signal of its list.
pub execute_pending-Counted :
    (c : BacktestConfig) (frame : ReplayFrame) (signals : List BacktestSignal) (n : ℕ)
    → All Asks signals
    → Triple (IsReplay n) (execute_pending c frame signals) (IsReplay (n + length signals)) Never
unfolding execute_pending
execute_pending-Counted c frame [] n asks = record {
  at = λ r h. subst (λ k. IsReplay k r) (omega arith) h;
}
execute_pending-Counted c frame (s ∷ ss) n asks =
    Triple-weaken _ (λ r h. h) (λ r h. subst (λ k. IsReplay k r) (omega arith) h) (λ r h. h)
      (Triple-bind _ _ (try_entry-Counted c frame s n asks.0)
        (λ _. execute_pending-Counted c frame ss (suc n) asks.1))
