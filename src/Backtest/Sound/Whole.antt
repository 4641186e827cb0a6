-- ===== src/Backtest/Sound/Whole.antt =====
-- A whole replay: it returns on every sequence of frames that is in order, and what it leaves
-- accounts for every signal.
use techo_quant_options_pro.Prelude.{
  ℕ, suc, ◌+◌, String, ◌≡◌, refl, subst, Option, none, some, List, [], ◌∷◌, All, All-append, length,
  length-append, find, arith, if_cases,
}
use techo_quant_options_pro.Time.{DateTime}
use techo_quant_options_pro.Exec.{Result, ok, raised, lift}
use techo_quant_options_pro.Exec.Triple.{Ends, Triple, Triple-bind, Triple-weaken}
use techo_quant_options_pro.Backtest.Models.{
  JournalEvent, BacktestSignal, BacktestConfig, ReplayFrame, OptionBar,
}
use techo_quant_options_pro.Backtest.Engine.{
  OpenPosition, Replay, holds, is_bar_of, note, check_exits, sorted_instruments, exit_with,
}
use techo_quant_options_pro.Backtest.Entries.{execute_pending}
use techo_quant_options_pro.Backtest.Run.{
  update_bars, queue, queue_signals, replay_frame, replay_frames, liquidate, liquidate_on,
  journal_unfilled, new_replay, finish, validate_sequence, replay, is_used_up, final_reason,
}
use techo_quant_options_pro.Backtest.Sound.{Asks, IsReplay, skips, skips-append}
use techo_quant_options_pro.Backtest.Sound.Exits.{
  exit_with-IsReplay, found_own, check_exits-IsReplay,
}
use techo_quant_options_pro.Backtest.Sound.Pending.{Never, execute_pending-Counted}

recount : (a b : ℕ) → a ≡ b → (r : Replay) → IsReplay a r → IsReplay b r
recount a b e r h = subst (λ k. IsReplay k r) e h

queue_signals-IsReplay :
    (now : DateTime) (signals : List BacktestSignal) (n : ℕ) (r : Replay)
    → All Asks signals
    → IsReplay n r
    → IsReplay (n + length signals) (queue_signals now signals r)
unfolding queue_signals
queue_signals-IsReplay now [] n r asks h = subst (λ k. IsReplay k r) (omega arith) h
queue_signals-IsReplay now (s ∷ ss) n r asks h =
    subst (λ k. IsReplay k (queue_signals now ss (queue now s r))) (omega arith)
      (queue_signals-IsReplay now ss (suc n) (queue now s r) asks.1 (record {
        waiting = All-append Asks r.pending (s ∷ []) h.waiting (asks.0, tt);
        single = h.single;
        held = h.held;
        closed = h.closed;
        balance = omega (
          arith,
          h.balance,
          length-append r.pending (s ∷ []),
          skips-append r.journal (
              note JournalEvent.signal now s "signal queued for the first strictly later quote"
              ∷ []),
        );
      }))

replay_frame-Counted :
    (c : BacktestConfig) (frame : ReplayFrame) (n : ℕ)
    → All Asks frame.signals
    → Triple (IsReplay n) (replay_frame c frame) (IsReplay (n + length frame.signals)) Never
unfolding replay_frame
replay_frame-Counted c frame n asks = record { at = λ r h. step r h }
  where
    exited : Replay → Replay
    exited r =
        check_exits c frame.bars (sorted_instruments r.positions)
          (record r { latest_bars = update_bars frame.bars r.latest_bars })

    exited-IsReplay : (r : Replay) → IsReplay n r → IsReplay n (exited r)
    exited-IsReplay r h =
        check_exits-IsReplay n c frame.bars (sorted_instruments r.positions) _ (record {
          waiting = h.waiting;
          single = h.single;
          held = h.held;
          closed = h.closed;
          balance = h.balance;
        })

    step :
        (r : Replay)
        → IsReplay n r
        → Ends (IsReplay (n + length frame.signals)) Never (replay_frame c frame r)
    step r h =
        let e = exited-IsReplay r h in
        let s = exited r in
        let m = length s.positions + length s.trades + skips s.journal in
        (Triple-weaken _ (λ r h. h)
            (recount (m + length s.pending + length frame.signals) (n + length frame.signals)
              (omega (arith, e.balance)))
            (λ r h. h)
            (Triple-bind (execute_pending c frame s.pending) _
              (execute_pending-Counted c frame s.pending m e.waiting)
              (λ _. record {
                at = λ q k.
                    queue_signals-IsReplay frame.timestamp frame.signals (m + length s.pending) q
                      asks k;
              }))).at
          (record s { pending = [] })
          (record {
            waiting = tt;
            single = e.single;
            held = e.held;
            closed = e.closed;
            balance = omega arith;
          })

-- The signals of all the frames.
abbrev pub signal_count : List ReplayFrame → ℕ
signal_count [] = 0
signal_count (frame ∷ frames) = length frame.signals + signal_count frames

replay_frames-Counted :
    (c : BacktestConfig) (frames : List ReplayFrame) (n : ℕ)
    → All (λ f. All Asks f.signals) frames
    → Triple (IsReplay n) (replay_frames c frames) (IsReplay (n + signal_count frames)) Never
unfolding replay_frames
replay_frames-Counted c [] n asks = record { at = λ r h. subst (λ k. IsReplay k r) (omega arith) h }
replay_frames-Counted c (frame ∷ frames) n asks =
    Triple-weaken _ (λ r h. h) (λ r h. subst (λ k. IsReplay k r) (omega arith) h) (λ r h. h)
      (Triple-bind _ _ (replay_frame-Counted c frame n asks.0)
        (λ _. replay_frames-Counted c frames (n + length frame.signals) asks.1))

liquidate_on-IsReplay :
    (n : ℕ) (c : BacktestConfig) (id : String) (o : Option OpenPosition) (b : Option OptionBar)
    (r : Replay)
    → find (holds id) r.positions ≡ o
    → IsReplay n r
    → IsReplay n (liquidate_on c o b r)
liquidate_on-IsReplay n c id none b r found h = h
liquidate_on-IsReplay n c id (some p) none r found h = h
liquidate_on-IsReplay n c id (some p) (some bar) r found h =
    if_cases (IsReplay n) (is_used_up p bar) {x = r}
      {y = exit_with c p bar (some (final_reason p.exit_reason)) r} (λ _. h)
      (λ _.
        exit_with-IsReplay n c p bar (some (final_reason p.exit_reason)) r
          (found_own id r.positions p found) h)

liquidate-IsReplay :
    (n : ℕ) (c : BacktestConfig) (ids : List String) (r : Replay)
    → IsReplay n r
    → IsReplay n (liquidate c ids r)
unfolding liquidate
liquidate-IsReplay n c [] r h = h
liquidate-IsReplay n c (id ∷ ids) r h = liquidate-IsReplay n c ids _ (
    liquidate_on-IsReplay n c id (find (holds id) r.positions) (find (is_bar_of id) r.latest_bars) r
      refl h)

journal_unfilled-IsReplay :
    (n : ℕ) (ended_at : DateTime) (signals : List BacktestSignal) (r : Replay)
    → IsReplay n r
    → IsReplay n (journal_unfilled ended_at signals r)
unfolding journal_unfilled
journal_unfilled-IsReplay n ended_at [] r h = h
journal_unfilled-IsReplay n ended_at (s ∷ signals) r h =
    journal_unfilled-IsReplay n ended_at signals _ (record {
      waiting = h.waiting;
      single = h.single;
      held = h.held;
      closed = h.closed;
      balance = omega (
        arith,
        h.balance,
        skips-append r.journal (
            note JournalEvent.unfilled ended_at s
              "no later executable quote before the replay ended"
            ∷ []),
      );
    })

finish-IsReplay :
    (n : ℕ) (c : BacktestConfig) (ended_at : DateTime) (r : Replay)
    → IsReplay n r
    → IsReplay n (finish c ended_at r)
finish-IsReplay n c ended_at r h =
    journal_unfilled-IsReplay n ended_at _ _
      (liquidate-IsReplay n c (sorted_instruments r.positions) r h)

new_replay-IsReplay : IsReplay 0 new_replay
new_replay-IsReplay = record { waiting = tt; single = tt; held = tt; closed = tt; balance = refl }

module _ (c : BacktestConfig) (frame : ReplayFrame) (frames : List ReplayFrame)
    (valid : validate_sequence (frame ∷ frames) ≡ ok tt)
    (asks : All (λ f. All Asks f.signals) (frame ∷ frames)) where
  replay-Counted :
      Triple (IsReplay 0) (replay c frame frames) (IsReplay (signal_count (frame ∷ frames))) Never
  unfolding replay
  replay-Counted =
      Triple-bind (lift (validate_sequence (frame ∷ frames))) _ (record { at = λ r h. rw valid h })
        (λ _. Triple-bind _ _ (replay_frames-Counted c (frame ∷ frames) 0 asks) (λ _. record {
          at = λ r h.
              recount (0 + signal_count (frame ∷ frames)) _ (omega arith) _
                (finish-IsReplay _ c _ r h);
        }))

  -- The replay of frames whose sequence is valid and whose signals ask for something returns. What
  -- it leaves has one position at most for each instrument; each was entered strictly after its
  -- signal and inside its limits, and is split into an exited and a remaining part; each trade was
  -- entered between its stop and its target; and the signals still waiting, the positions, the
  -- trades and the dropped signals together are as many as the signals of the frames.
  pub replay_accounts :
      let (r, s) = replay c frame frames new_replay in
      (r ≡ ok tt) × IsReplay (signal_count (frame ∷ frames)) s
  replay_accounts =
      go (replay c frame frames new_replay) (replay-Counted.at new_replay new_replay-IsReplay)
    where
      go :
          (x : Result (Unit {0}) × Replay)
          → Ends (IsReplay (signal_count (frame ∷ frames))) Never x
          → (x.0 ≡ ok tt) × IsReplay (signal_count (frame ∷ frames)) x.1
      go (ok u, s) e = (refl, e)
      go (raised k m, s) e = absurd e
