-- ===== src/Backtest/Sound/Exits.antt =====
-- The exits of a replay: a position stays whole or becomes one trade.
use techo_quant_options_pro.Prelude.{
  ℕ, ◌≤◌, ◌<◌, false, String, ◌≡◌, refl, sym, subst, Option, none, some, List, [], ◌∷◌, All-append,
  All-select, All-replaced, All-find, find_passes, Distinct, Distinct-select, Distinct-replaced,
  length-append, length-update_where, length-removed, find, update_where, eq_iff, arith, ◌==◌,
}
use techo_quant_options_pro.Backtest.Models.{ExitReason, OptionBar, BacktestConfig, Trade}
use techo_quant_options_pro.Backtest.Fills.{fillable_quantity}
use techo_quant_options_pro.Backtest.Engine.{
  OpenPosition, Replay, ExitOutcome, holds, is_bar_of, closed_trade, execute_exit, exit_with,
  exit_seen, check_exits, record_exit,
}
use techo_quant_options_pro.Backtest.Sound.{
  IsHeld, IsClosed, IsReplay, skips, skips-append, instrument,
}

pub fillable-le :
    (requested : ℕ) (visible : Option ℕ) (lot_size : ℕ) (c : BacktestConfig)
    → fillable_quantity requested visible lot_size c ≤ requested
unfolding fillable_quantity
fillable-le requested none lot_size c = ground arith
fillable-le requested (some v) lot_size c = ground arith

-- A request for something is filled by something when whole fills are assumed.
pub fillable_full :
    (requested : ℕ) (visible : Option ℕ) (lot_size : ℕ) (c : BacktestConfig)
    → 0 < requested
    → c.partial_fills.enabled ≡ false
    → (fillable_quantity requested visible lot_size c == 0) ≡ false
unfolding fillable_quantity
fillable_full requested visible lot_size c h full = ground arith

-- What an exit leaves of a position.
pub record IsSettled (p : OpenPosition) (e : ExitOutcome) : Type 0 where
  pub same_instrument : instrument e.position ≡ instrument p
  pub quiet : skips e.entries ≡ 0
  pub open_still : e.trade ≡ none → IsHeld e.position
  pub sold : (t : Trade) → e.trade ≡ some t → IsClosed t

pub execute_exit-IsSettled :
    (c : BacktestConfig) (p : OpenPosition) (bar : OptionBar) (reason : ExitReason)
    → IsHeld p
    → IsSettled p (execute_exit c p bar reason)
unfolding execute_exit closed_trade
execute_exit-IsSettled c p bar reason h = record {
  same_instrument = ground arith;
  quiet = ground arith;
  open_still = λ e. record {
    later = ground arith;
    unexpired = ground arith;
    valid = ground arith;
    above_stop = ground arith;
    below_target = ground arith;
    left_over = ground arith;
    split = ground (arith, fillable-le p.remaining_quantity bar.bid_quantity p.signal.lot_size c);
    asked = ground arith;
  };
  sold = λ t e. record {
    bought = ground (arith, h.left_over, h.split);
    above_stop = ground arith;
    below_target = ground arith;
  };
}

module _ (n : ℕ) (r : Replay) (p : OpenPosition) (e : ExitOutcome) (h : IsReplay n r)
    (found : find (holds (instrument p)) r.positions ≡ some p) (settled : IsSettled p e) where
  record_exit-IsReplay :
      (o : Option Trade) → e.trade ≡ o → IsReplay n (record_exit (instrument p) e o r)
  record_exit-IsReplay none t = record {
    waiting = h.waiting;
    single =
        subst (λ id. Distinct instrument (update_where (holds id) (λ _. e.position) r.positions))
          settled.same_instrument (Distinct-replaced instrument e.position r.positions h.single);
    held =
        All-replaced IsHeld (holds (instrument p)) e.position r.positions h.held
          (settled.open_still t);
    closed = h.closed;
    balance = omega (
      arith,
      h.balance,
      settled.quiet,
      skips-append r.journal e.entries,
      length-update_where (holds (instrument p)) (λ _. e.position) r.positions,
    );
  }
  record_exit-IsReplay (some trade) t = record {
    waiting = h.waiting;
    single = Distinct-select instrument _ r.positions h.single;
    held = All-select IsHeld _ r.positions h.held;
    closed = All-append IsClosed r.trades (trade ∷ []) h.closed (settled.sold trade t, tt);
    balance = omega (
      arith,
      h.balance,
      settled.quiet,
      skips-append r.journal e.entries,
      length-append r.trades (trade ∷ []),
      length-removed instrument (instrument p) r.positions p h.single found,
    );
  }

pub exit_with-IsReplay :
    (n : ℕ) (c : BacktestConfig) (p : OpenPosition) (bar : OptionBar) (reason : Option ExitReason)
    (r : Replay)
    → find (holds (instrument p)) r.positions ≡ some p
    → IsReplay n r
    → IsReplay n (exit_with c p bar reason r)
unfolding exit_with
exit_with-IsReplay n c p bar none r found h = h
exit_with-IsReplay n c p bar (some reason) r found h =
    record_exit-IsReplay n r p (execute_exit c p bar reason) h found
      (execute_exit-IsSettled c p bar reason (All-find IsHeld _ r.positions p h.held found))
      (execute_exit c p bar reason).trade refl

-- A position that was looked up under an instrument is found under its own.
pub found_own :
    (id : String) (ps : List OpenPosition) (p : OpenPosition)
    → find (holds id) ps ≡ some p
    → find (holds (instrument p)) ps ≡ some p
found_own id ps p found =
    let own = (eq_iff (instrument p) id).0 (find_passes (holds id) ps p found) in
    subst (λ k. find (holds k) ps ≡ some p) (sym own) found

exit_seen-IsReplay :
    (n : ℕ) (c : BacktestConfig) (id : String) (o : Option OpenPosition) (b : Option OptionBar)
    (r : Replay)
    → find (holds id) r.positions ≡ o
    → IsReplay n r
    → IsReplay n (exit_seen c o b r)
exit_seen-IsReplay n c id none b r found h = h
exit_seen-IsReplay n c id (some p) none r found h = h
exit_seen-IsReplay n c id (some p) (some bar) r found h =
    exit_with-IsReplay n c p bar _ r (found_own id r.positions p found) h

pub check_exits-IsReplay :
    (n : ℕ) (c : BacktestConfig) (bars : List OptionBar) (ids : List String) (r : Replay)
    → IsReplay n r
    → IsReplay n (check_exits c bars ids r)
unfolding check_exits
check_exits-IsReplay n c bars [] r h = h
check_exits-IsReplay n c bars (id ∷ ids) r h =
    check_exits-IsReplay n c bars ids _
      (exit_seen-IsReplay n c id (find (holds id) r.positions) (find (is_bar_of id) bars) r refl h)
