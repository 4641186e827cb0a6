-- ===== src/Execution/Controller/KillSwitch.antt =====
-- The kill switch: what it stops, what trips it, and that only its own method clears it.
use techo_quant_options_pro.Prelude.{ℕ, String, true, false, ◌≡◌, refl, ◌∷◌, arith, ◌≤◌, le→leb}
use techo_quant_options_pro.Decimal
use techo_quant_options_pro.Decimal.{Decimal, less_eq}
use techo_quant_options_pro.Text.{is_blank, strip}
use techo_quant_options_pro.Time.{DateTime, utc_day}
use techo_quant_options_pro.Execution.Errors.{ErrorKind}
use techo_quant_options_pro.Execution.Models.{TradePlan}
use techo_quant_options_pro.Execution.Ledger.Rows.{Ledger, Payload, event}
use techo_quant_options_pro.Execution.Ledger.Signals.{switched, set_kill_switch}
use techo_quant_options_pro.Execution.Ledger.Positions.{daily_realized_pnl, consecutive_losses}
use techo_quant_options_pro.Execution.Controller.Policy.{ExecutionPolicy}
use techo_quant_options_pro.Execution.Controller.Gates.{
  require_aware, switch_reason, trip, check_daily_loss, check_loss_streak, check_kill_limits,
}
use techo_quant_options_pro.Execution.Controller.Actions
use techo_quant_options_pro.Execution.Controller.Actions.{
  World, Setup, on_ledger, admit, approve_plan, approve, approval_checks,
}
use techo_quant_options_pro.Exec.{ok, raised, transaction}

module _ (policy : ExecutionPolicy) (now : DateTime) (l : Ledger) where
  -- An active switch ends the check at once, with its reason.
  pub check_kill_limits_active :
      l.kill_switch.active ≡ true
      → check_kill_limits policy now l
        ≡ (raised ErrorKind.kill_switch_error (switch_reason l.kill_switch.reason), l)
  unfolding check_kill_limits
  check_kill_limits_active h = rw h

-- The ledger after the system's own change of the switch.
abbrev pub tripped : String → DateTime → Ledger → Ledger
tripped reason now l = record l {
  kill_switch = switched true (strip reason) (strip "system") now;
  events =
      record {
        event_type = "KILL_SWITCH_CHANGED";
        aggregate_id = "global";
        occurred_at = now;
        payload = Payload.kill_switch true (strip reason) (strip "system");
      }
      ∷ l.events;
}

system_named : is_blank "system" ≡ false
unfolding is_blank
system_named = refl

trip_lem :
    (reason : String) (now : DateTime) (l : Ledger)
    → is_blank reason ≡ false
    → now.aware ≡ true
    → trip reason now l ≡ (raised ErrorKind.kill_switch_error reason, tripped reason now l)
unfolding set_kill_switch event transaction
trip_lem reason now l named aware = rw (system_named, named, aware)

daily_named : is_blank "daily loss limit reached" ≡ false
unfolding is_blank
daily_named = refl

streak_named : is_blank "consecutive loss limit reached" ≡ false
unfolding is_blank
streak_named = refl

module _ (policy : ExecutionPolicy) (now : DateTime) (l : Ledger) (aware : now.aware ≡ true) where
  -- The ledger once the day's loss has reached the limit.
  pub check_daily_loss_limit :
      {pnl : Decimal}
      → daily_realized_pnl (utc_day now) l ≡ ok pnl
      → less_eq pnl (Decimal.negate policy.max_daily_loss) ≡ true
      → check_daily_loss policy now l ≡ (
        raised ErrorKind.kill_switch_error "daily loss limit reached",
        tripped "daily loss limit reached" now l,
      )
  unfolding check_daily_loss
  check_daily_loss_limit read limit = rw (read, limit, trip_lem _ now l daily_named aware)

  pub check_daily_loss_pass :
      {pnl : Decimal}
      → daily_realized_pnl (utc_day now) l ≡ ok pnl
      → less_eq pnl (Decimal.negate policy.max_daily_loss) ≡ false
      → check_daily_loss policy now l ≡ (ok tt, l)
  unfolding check_daily_loss
  check_daily_loss_pass read within = rw (read, within)

  pub check_loss_streak_limit :
      {losses : ℕ}
      → consecutive_losses l ≡ ok losses
      → policy.max_consecutive_losses ≤ losses
      → check_loss_streak policy now l ≡ (
        raised ErrorKind.kill_switch_error "consecutive loss limit reached",
        tripped "consecutive loss limit reached" now l,
      )
  unfolding check_loss_streak
  check_loss_streak_limit read limit =
      rw (read, le→leb _ _ limit, trip_lem _ now l streak_named aware)

module _ (policy : ExecutionPolicy) (now : DateTime) (l : Ledger) (aware : now.aware ≡ true)
    (idle : l.kill_switch.active ≡ false) where
  check_kill_limits_daily :
      {pnl : Decimal}
      → daily_realized_pnl (utc_day now) l ≡ ok pnl
      → less_eq pnl (Decimal.negate policy.max_daily_loss) ≡ true
      → check_kill_limits policy now l ≡ (
        raised ErrorKind.kill_switch_error "daily loss limit reached",
        tripped "daily loss limit reached" now l,
      )
  unfolding check_kill_limits
  check_kill_limits_daily read limit =
      ground (arith, check_daily_loss_limit policy now l aware read limit)

  check_kill_limits_streak :
      {pnl : Decimal} {losses : ℕ}
      → daily_realized_pnl (utc_day now) l ≡ ok pnl
      → less_eq pnl (Decimal.negate policy.max_daily_loss) ≡ false
      → consecutive_losses l ≡ ok losses
      → policy.max_consecutive_losses ≤ losses
      → check_kill_limits policy now l ≡ (
        raised ErrorKind.kill_switch_error "consecutive loss limit reached",
        tripped "consecutive loss limit reached" now l,
      )
  unfolding check_kill_limits
  check_kill_limits_streak read within streak limit = ground (
    arith,
    check_daily_loss_pass policy now l aware read within,
    check_loss_streak_limit policy now l aware streak limit,
  )

module _ {G : Type 0} (c : Setup G) (plan : TradePlan) (now : DateTime) (w : World G)
    (aware : now.aware ≡ true) where
  -- While the switch is active, `submit` raises with its reason and changes nothing: no signal is
  -- recorded, no order is written and nothing is sent.
  pub submit_killed :
      w.ledger.kill_switch.active ≡ true
      → Actions.submit c plan now w
        ≡ (raised ErrorKind.kill_switch_error (switch_reason w.ledger.kill_switch.reason), w)
  unfolding Actions.submit admit on_ledger require_aware
  submit_killed active = ground (arith, check_kill_limits_active c.policy now w.ledger active)

  -- At an aware time with the switch off, once the day's realised profit and loss is at or below
  -- minus the limit, `submit` raises, the switch is on in the system's name, and nothing else has
  -- changed but the event that says so.
  pub submit_daily_limit :
      {pnl : Decimal}
      → w.ledger.kill_switch.active ≡ false
      → daily_realized_pnl (utc_day now) w.ledger ≡ ok pnl
      → less_eq pnl (Decimal.negate c.policy.max_daily_loss) ≡ true
      → Actions.submit c plan now w ≡ (
        raised ErrorKind.kill_switch_error "daily loss limit reached",
        record w { ledger = tripped "daily loss limit reached" now w.ledger },
      )
  unfolding Actions.submit admit on_ledger require_aware
  submit_daily_limit idle read limit =
      ground (arith, check_kill_limits_daily c.policy now w.ledger aware idle read limit)

  -- At an aware time with the switch off and the day's loss inside its limit, once as many of the
  -- latest closed positions in a row as the limit lost money, `submit` raises, the switch is on in
  -- the system's name, and nothing else has changed but the event that says so.
  pub submit_streak_limit :
      {pnl : Decimal} {losses : ℕ}
      → w.ledger.kill_switch.active ≡ false
      → daily_realized_pnl (utc_day now) w.ledger ≡ ok pnl
      → less_eq pnl (Decimal.negate c.policy.max_daily_loss) ≡ false
      → consecutive_losses w.ledger ≡ ok losses
      → c.policy.max_consecutive_losses ≤ losses
      → Actions.submit c plan now w ≡ (
        raised ErrorKind.kill_switch_error "consecutive loss limit reached",
        record w { ledger = tripped "consecutive loss limit reached" now w.ledger },
      )
  unfolding Actions.submit admit on_ledger require_aware
  submit_streak_limit idle read within streak limit =
      ground
        (arith, check_kill_limits_streak c.policy now w.ledger aware idle read within streak limit)
