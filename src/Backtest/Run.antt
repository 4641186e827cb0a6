-- ===== src/Backtest/Run.antt =====
-- `ReplayEngine.run` of backtesting/engine.py: the check of the frames, the fold over them, and
-- the liquidation at the end. The bars of one frame have distinct instruments, which `ReplayFrame`
-- checks, so that its dict of bars is its list of bars.
use techo_quant_options_pro.Prelude.{
  String, Bool, true, false, not, ◌||◌, Option, none, some, List, [], ◌∷◌, ◌++◌, any, find, str_eq,
  if◌then◌else◌,
}
use techo_quant_options_pro.Time.{DateTime, before, same_instant}
use techo_quant_options_pro.Execution.Errors.{ErrorKind}
use techo_quant_options_pro.Exec.{
  Result, ok, raised, Exec, raise_if, ◌then_check◌, ◌>>◌, lift, modify,
}
use techo_quant_options_pro.Backtest.Models.{
  ExitReason, JournalEvent, OptionBar, BacktestSignal, BacktestConfig, ReplayFrame,
  OpenPositionSummary,
}
use techo_quant_options_pro.Backtest.Engine.{
  OpenPosition, Replay, holds, is_bar_of, note, exit_with, check_exits, sorted_instruments,
}
use techo_quant_options_pro.Backtest.Entries.{execute_pending}

-- The signal IDs of one frame, after those seen.
unfoldable pub check_signal_ids : List String → List BacktestSignal → Result (List String)
check_signal_ids seen [] = ok seen
check_signal_ids seen (s ∷ signals) =
    let rest = check_signal_ids (s.signal_id ∷ seen) signals in
    if any (str_eq s.signal_id) seen
    then raised ErrorKind.value_error "signal IDs must be unique throughout a replay"
    else rest

abbrev is_late : Option DateTime → DateTime → Bool
is_late none timestamp = true
is_late (some previous) timestamp = before previous timestamp

abbrev with_ids : Result (List String) → (List String → Result (Unit {0})) → Result (Unit {0})
with_ids (ok seen) rest = rest seen
with_ids (raised kind message) rest = raised kind message

unfoldable pub check_order : Option DateTime → List String → List ReplayFrame → Result (Unit {0})
unfolding check_signal_ids
check_order previous seen [] = ok tt
check_order previous seen (frame ∷ frames) =
    raise_if (not (is_late previous frame.timestamp)) ErrorKind.value_error
      "replay frame timestamps must be strictly sorted and unique"
    then_check with_ids (check_signal_ids seen frame.signals)
        (λ ids. check_order (some frame.timestamp) ids frames)

unfoldable pub validate_sequence : List ReplayFrame → Result (Unit {0})
unfolding check_order
validate_sequence [] = raised ErrorKind.value_error "at least one replay frame is required"
validate_sequence (frame ∷ frames) = check_order none [] (frame ∷ frames)

-- `latest_bars.update(bars)`
unfoldable pub update_bars : List OptionBar → List OptionBar → List OptionBar
update_bars [] latest = latest
update_bars (b ∷ bars) latest = update_bars bars (b ∷ latest)

abbrev pub queue : DateTime → BacktestSignal → Replay → Replay
queue now s r = record r {
  pending = r.pending ++ (s ∷ []);
  journal =
      r.journal
      ++ (note JournalEvent.signal now s "signal queued for the first strictly later quote" ∷ []);
}

unfoldable pub queue_signals : DateTime → List BacktestSignal → Replay → Replay
queue_signals now [] r = r
queue_signals now (s ∷ signals) r = queue_signals now signals (queue now s r)

-- The body of the loop over the frames.
unfoldable pub replay_frame : BacktestConfig → ReplayFrame → Exec Replay (Unit {0})
replay_frame c frame r =
    let seen =
      check_exits c frame.bars (sorted_instruments r.positions)
        (record r { latest_bars = update_bars frame.bars r.latest_bars }) in
    (execute_pending c frame seen.pending >> modify (queue_signals frame.timestamp frame.signals))
      (record seen { pending = [] })

unfoldable pub replay_frames : BacktestConfig → List ReplayFrame → Exec Replay (Unit {0})
replay_frames c [] r = (ok tt, r)
replay_frames c (frame ∷ frames) r = (replay_frame c frame >> replay_frames c frames) r

-- `position.last_exit_attempt == bar.timestamp`
abbrev was_attempted : Option DateTime → DateTime → Bool
was_attempted none timestamp = false
was_attempted (some t) timestamp = same_instant t timestamp

abbrev pub final_reason : Option ExitReason → ExitReason
final_reason none = ExitReason.end_of_data
final_reason (some r) = r

-- A bar before the entry, or one that the exit was tried on, is not used again.
abbrev pub is_used_up : OpenPosition → OptionBar → Bool
is_used_up p bar =
    before bar.timestamp p.entry_time || was_attempted p.last_exit_attempt bar.timestamp

-- The body of the liquidation loop.
abbrev pub liquidate_on : BacktestConfig → Option OpenPosition → Option OptionBar → Replay → Replay
liquidate_on c (some p) (some bar) r =
    if is_used_up p bar then r else exit_with c p bar (some (final_reason p.exit_reason)) r
liquidate_on c _ _ r = r

unfoldable pub liquidate : BacktestConfig → List String → Replay → Replay
liquidate c [] r = r
liquidate c (id ∷ ids) r =
    liquidate c ids
      (liquidate_on c (find (holds id) r.positions) (find (is_bar_of id) r.latest_bars) r)

unfoldable pub journal_unfilled : DateTime → List BacktestSignal → Replay → Replay
journal_unfilled ended_at [] r = r
journal_unfilled ended_at (s ∷ signals) r = journal_unfilled ended_at signals (record r {
  journal =
      r.journal
      ++ (note JournalEvent.unfilled ended_at s "no later executable quote before the replay ended"
          ∷ []);
})

abbrev pub new_replay : Replay
new_replay = record { pending = []; positions = []; trades = []; journal = []; latest_bars = [] }

abbrev last_timestamp : DateTime → List ReplayFrame → DateTime
last_timestamp t [] = t
last_timestamp t (frame ∷ frames) = last_timestamp frame.timestamp frames

abbrev pub finish : BacktestConfig → DateTime → Replay → Replay
finish c ended_at r =
    let closed = liquidate c (sorted_instruments r.positions) r in
    journal_unfilled ended_at closed.pending closed

-- The whole replay up to its report: the frames, the liquidation, and the signals left over.
unfoldable pub replay : BacktestConfig → ReplayFrame → List ReplayFrame → Exec Replay (Unit {0})
replay c frame frames = do
  lift (validate_sequence (frame ∷ frames))
  replay_frames c (frame ∷ frames)
  modify (finish c (last_timestamp frame.timestamp frames))

abbrev last_seen : OpenPosition → DateTime
last_seen p = elim p.last_exit_time [ none ↦ p.entry_time | some t ↦ t ]

-- A position that the report lists as open.
abbrev pub open_summary : OpenPosition → OpenPositionSummary
open_summary p = record {
  signal_id = p.signal.signal_id;
  instrument_id = p.signal.instrument_id;
  remaining_quantity = p.remaining_quantity;
  entry_price = p.entry_price;
  last_timestamp = last_seen p;
  pending_exit_reason = p.exit_reason;
}
