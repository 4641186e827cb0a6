-- ===== src/Execution/Controller/Approvals.antt =====
-- An approval is given once: after it was recorded, approving the same signal again does nothing.
use techo_quant_options_pro.Prelude.{
  String, true, false, ◌||◌, ◌≡◌, ◌∙◌, refl, ap, Option, none, some, any,
}
use techo_quant_options_pro.Text.{strip, is_empty}
use techo_quant_options_pro.Execution.Errors.{ErrorKind}
use techo_quant_options_pro.Time.{DateTime}
use techo_quant_options_pro.Execution.Models.{TradePlan, ExecutionResult}
use techo_quant_options_pro.Execution.Ledger.Rows.{timestamp}
use techo_quant_options_pro.Execution.Ledger.Signals
use techo_quant_options_pro.Execution.Ledger.Signals.{
  approves, approval_row, insert_approval, record_approval,
}
use techo_quant_options_pro.Execution.Controller.Live.{check_awaiting, stripped_approval}
use techo_quant_options_pro.Execution.Controller.Actions.{
  World, Setup, approve, approve_plan, approval_checks,
}
use techo_quant_options_pro.Execution.Controller.OnLedger.{on_ledger-Triple}
use techo_quant_options_pro.Execution.Controller.Modes.{
  Book, book, IsBook, Never, check_kill_limits-IsBook, check_plan-IsBook,
}
use techo_quant_options_pro.Exec.{Result, ok, raised, lift, gets, raise_if, ◌>>=◌, ◌>>◌}
use techo_quant_options_pro.Exec.Outcome.{IsRaised}
use techo_quant_options_pro.Exec.Triple.{
  Ends, Triple, Maintains-lift, Maintains-reads, Triple-bind, Triple-transaction, Triple-const,
  Triple-weaken,
}

module _ (b : Book) (id : String) (approved : any (approves id) b.0 ≡ true) where
  insert_approval-Never :
      (actor reason : String) (when : DateTime)
      → Triple (IsBook b) (insert_approval (approval_row id actor reason when)) (Never b) (IsBook b)
  unfolding insert_approval
  insert_approval-Never actor reason when = record {
    at = λ l h. rw (ap (λ (x : Book). any (approves id) x.0) h ∙ approved) h;
  }

  record_approval-Never :
      (actor reason : String) (at : DateTime)
      → Triple
          (IsBook b)
          (record_approval (stripped_approval id actor reason at))
          (Never b)
          (IsBook b)
  unfolding record_approval
  record_approval-Never actor reason at =
      Triple-bind
        (lift (
          raise_if (is_empty (strip (strip actor)) || is_empty (strip (strip reason)))
            ErrorKind.approval_error "approval requires actor and reason"))
        _ (Maintains-lift _)
        λ _. Triple-bind (lift (timestamp at)) _ (Maintains-lift _) λ when. Triple-transaction _ (
          Triple-bind
            (insert_approval (approval_row id (strip (strip actor)) (strip (strip reason)) when)) _
            (insert_approval-Never _ _ when) (λ _. record { at = λ l h. absurd h }))

  approve_plan-Never :
      {G : Type 0} (c : Setup G) (actor reason : String) (approval_time now : DateTime)
      (plan : Option TradePlan)
      → Triple
          (IsBook b)
          (approve_plan c id actor reason approval_time now plan)
          (Never b)
          (IsBook b)
  unfolding approve_plan check_awaiting
  approve_plan-Never c actor reason approval_time now none = record { at = λ l h. h }
  approve_plan-Never c actor reason approval_time now (some plan) =
      Triple-bind _ _ (Maintains-reads _) λ _.
        Triple-bind _ _ (check_kill_limits-IsBook b c.policy now) λ _.
          Triple-bind _ _ (check_plan-IsBook b c.policy c.registry plan now false) λ _.
            Triple-bind _ _ (record_approval-Never actor reason approval_time)
              λ _. record { at = λ l h. absurd h }

-- Once the approval of a signal is recorded, `approve` of the same signal raises, whatever the
-- configuration, and leaves approvals, orders, fills, positions and what was sent as they were.
pub approved_once :
    {G : Type 0} (c : Setup G) (id actor reason : String) (approval_time now : DateTime)
    (w : World G)
    → any (approves id) w.ledger.approvals ≡ true
    → let (r, v) = approve c id actor reason approval_time now w in
      IsRaised r × (book v.ledger ≡ book w.ledger) × (v.sent ≡ w.sent)
unfolding approve
approved_once {G} c id actor reason approval_time now w approved =
    go (approve c id actor reason approval_time now w) (
      (on_ledger-Triple {P = λ s l. IsBook b l × (s ≡ w.sent)} {Q = λ s l. ⊥}
          {E = λ s l. IsBook b l × (s ≡ w.sent)} _
          (λ s.
            Triple-weaken _ (λ l x. x) (λ l x. x.0) (λ l x. x)
              (Triple-const _ (steps (approval_checks c actor reason approval_time now))))).at
        w (refl, refl))
  where
    b : Book
    b = book w.ledger

    steps :
        (checks : Result (Unit {0}))
        → Triple
            (IsBook b)
            (lift checks
              >> (gets (Signals.plan id) >>= approve_plan c id actor reason approval_time now))
            (Never b)
            (IsBook b)
    steps checks = Triple-bind (lift checks) _ (Maintains-lift _) λ _.
        Triple-bind (gets (Signals.plan id)) _ (Maintains-reads (λ l. ok (Signals.plan id l)))
          λ plan. approve_plan-Never b id approved c actor reason approval_time now plan

    go :
        (x : Result ExecutionResult × World G)
        → Ends (λ _. ⊥) (λ v. IsBook b v.ledger × (v.sent ≡ w.sent)) x
        → IsRaised x.0 × (book x.1.ledger ≡ b) × (x.1.sent ≡ w.sent)
    go (ok a, v) e = absurd e
    go (raised k m, v) e = (tt, e.0, e.1)
