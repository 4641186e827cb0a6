-- ===== src/Execution/Controller/Modes.antt =====
-- The modes that do not trade: OFF and DATA_ONLY.
use techo_quant_options_pro.Prelude.{String, Bool, true, ◌≡◌, refl, ◌⊎◌, List, arith}
use techo_quant_options_pro.Time.{DateTime}
use techo_quant_options_pro.Execution.Errors.{ErrorKind}
use techo_quant_options_pro.Execution.Models.{
  ExecutionMode, TradePlan, SignalExecutionState, BrokerOrder, BrokerFill, ExecutionResult,
}
use techo_quant_options_pro.Execution.Ledger.Rows.{Ledger, ApprovalRow, PositionRow}
use techo_quant_options_pro.Execution.Ledger.Signals
use techo_quant_options_pro.Execution.Ledger.Signals.{record_signal, update_signal_state}
use techo_quant_options_pro.Execution.Ledger.Frames.{
  record_signal-frame, update_signal_state-frame, set_kill_switch-frame,
}
use techo_quant_options_pro.Execution.Controller.Policy.{ExecutionPolicy, Registry}
use techo_quant_options_pro.Execution.Controller.Gates.{trip, check_kill_limits, check_plan}
use techo_quant_options_pro.Execution.Controller.Live.{block}
use techo_quant_options_pro.Execution.Controller.Actions.{World, Setup, admit, dispatch, submit}
use techo_quant_options_pro.Execution.Controller.OnLedger.{on_ledger-Triple}
use techo_quant_options_pro.Exec.{Result, ok, raised}
use techo_quant_options_pro.Exec.Outcome.{IsRaised}
use techo_quant_options_pro.Exec.Triple.{
  Ends, Triple, Maintains, Maintains-lift, Maintains-reads, Triple-bind, Triple-const,
  Triple-weaken, maintains_rules,
}

-- The tables that trading writes.
abbrev pub Book : Type 0
Book = List ApprovalRow × List BrokerOrder × List BrokerFill × List PositionRow

abbrev pub book : Ledger → Book
book l = (l.approvals, l.orders, l.fills, l.positions)

module _ (b : Book) where
  abbrev pub IsBook : Ledger → Type 0
  IsBook l = book l ≡ b

  abbrev pub Never : Ledger → Type 0
  Never l = ⊥

  switch-IsBook :
      (active : Bool) (reason actor : String) (now : DateTime)
      → Maintains IsBook (Signals.set_kill_switch active reason actor now)
  switch-IsBook active reason actor now =
      set_kill_switch-frame book b (λ l x. refl) (λ l x. refl) active reason actor now

  trip-IsBook : (reason : String) (now : DateTime) → Maintains IsBook (trip reason now)
  trip-IsBook reason now = search (maintains_rules, switch-IsBook)

  pub check_kill_limits-IsBook :
      (policy : ExecutionPolicy) (now : DateTime) → Maintains IsBook (check_kill_limits policy now)
  unfolding check_kill_limits
  check_kill_limits-IsBook policy now = search (maintains_rules, trip-IsBook) depth 12

  pub check_plan-IsBook :
      (policy : ExecutionPolicy) (registry : Registry) (plan : TradePlan) (now : DateTime)
      (check_signal : Bool)
      → Maintains IsBook (check_plan policy registry plan now check_signal)
  unfolding check_plan
  check_plan-IsBook policy registry plan now check_signal = Maintains-reads _

  pub admit-IsBook :
      {G : Type 0} (c : Setup G) (plan : TradePlan) (now : DateTime)
      → Maintains IsBook (admit c plan now)
  unfolding admit
  admit-IsBook c plan now = Triple-bind _ _ (Maintains-lift _) λ _.
      Triple-bind _ _ (check_kill_limits-IsBook c.policy now) λ _.
        Triple-bind _ _ (check_plan-IsBook c.policy c.registry plan now true) λ _.
          record_signal-frame book b (λ l x. refl) (λ l x. refl) plan SignalExecutionState.received
            now

  block-Never :
      (plan : TradePlan) (now : DateTime) (k : ErrorKind) (message : String)
      → Triple IsBook (block plan now k message) Never IsBook
  unfolding block
  block-Never plan now k message =
      Triple-bind _ _
        (update_signal_state-frame book b (λ l x. refl) (λ l x. refl) plan.signal_id
          SignalExecutionState.blocked now)
        (λ _. record { at = λ l h. h })

abbrev pub DoesNotTrade : ExecutionMode → Type 0
DoesNotTrade mode = (mode ≡ ExecutionMode.off) ⊎ (mode ≡ ExecutionMode.data_only)

abbrev Here : List String → Book → List String → Ledger → Type 0
Here sent b s l = (book l ≡ b) × (s ≡ sent)

module _ {G : Type 0} where
  abbrev HereW : List String → Book → World G → Type 0
  HereW sent b w = Here sent b w.sent w.ledger

  dispatch-Never :
      (sent : List String) (b : Book) (c : Setup G) (plan : TradePlan) (now : DateTime)
      (mode : ExecutionMode)
      → DoesNotTrade mode
      → Triple (HereW sent b) (dispatch mode c plan now) (λ _. ⊥) (HereW sent b)
  unfolding dispatch
  dispatch-Never sent b c plan now ExecutionMode.off h = on_ledger-Triple _ λ s.
      Triple-weaken _ (λ l x. x) (λ l x. x.0) (λ l x. x)
        (Triple-const _ (block-Never b plan now _ _))
  dispatch-Never sent b c plan now ExecutionMode.data_only h = on_ledger-Triple _ λ s.
      Triple-weaken _ (λ l x. x) (λ l x. x.0) (λ l x. x)
        (Triple-const _ (block-Never b plan now _ _))
  dispatch-Never sent b c plan now ExecutionMode.manual_approval h = ground arith
  dispatch-Never sent b c plan now ExecutionMode.paper_trading h = ground arith
  dispatch-Never sent b c plan now ExecutionMode.live_automatic h = ground arith

  submit-Never :
      (sent : List String) (b : Book) (c : Setup G) (plan : TradePlan) (now : DateTime)
      → DoesNotTrade c.policy.mode
      → Triple (HereW sent b) (submit c plan now) (λ _. ⊥) (HereW sent b)
  unfolding submit
  submit-Never sent b c plan now h =
      Triple-bind _ _ (on_ledger-Triple _ (λ s. Triple-const _ (admit-IsBook b c plan now)))
        (λ _. dispatch-Never sent b c plan now c.policy.mode h)

  -- In OFF and DATA_ONLY every `submit` raises, and no approval, order, fill, position or mutation
  -- comes of it.
  pub submit_without_trading :
      (c : Setup G) (plan : TradePlan) (now : DateTime) (w : World G)
      → DoesNotTrade c.policy.mode
      → let (r, v) = submit c plan now w in
        IsRaised r × (book v.ledger ≡ book w.ledger) × (v.sent ≡ w.sent)
  submit_without_trading c plan now w h =
      go (submit c plan now w)
        ((submit-Never w.sent (book w.ledger) c plan now h).at w (refl, refl))
    where
      go :
          (r : Result ExecutionResult × World G)
          → Ends (λ _. ⊥) (HereW w.sent (book w.ledger)) r
          → IsRaised r.0 × (book r.1.ledger ≡ book w.ledger) × (r.1.sent ≡ w.sent)
      go (ok a, v) e = absurd e
      go (raised k m, v) e = (tt, e.0, e.1)
