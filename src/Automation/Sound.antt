-- ===== src/Automation/Sound.antt =====
-- What one run of the automation can do to the controller and to the history.
use mathlib.Core.List.{append-nil}
use techo_quant_options_pro.Prelude.{
  String, true, false, Option, none, some, [], ◌∷◌, ◌++◌, any, any-append, ◌≡◌, refl, sym, ap,
  subst, arith, Distinct, Distinct-at_end, Bool-cases, inl, inr, ◌⊎◌,
}
use techo_quant_options_pro.Text.{eq→str_eq}
use techo_quant_options_pro.Time.{DateTime}
use techo_quant_options_pro.Exec.{Result, ok, raised, continue}
use techo_quant_options_pro.Exec.Outcome.{Outcome, outcome}
use techo_quant_options_pro.Domain.Models.{AtomicSnapshot, PreviousOptionSnapshot}
use techo_quant_options_pro.Validation.Issues.{Validator, ValidationReport, accepted}
use techo_quant_options_pro.Validation.Snapshot.{validate}
use techo_quant_options_pro.Validation.Sound.Fresh.{IsCurrent, accepted-IsCurrent}
use techo_quant_options_pro.Validation.Sound.Strikes.{IsChain, accepted-IsChain}
use techo_quant_options_pro.Signals.Models.{SignalPipelineResult, TradePlan}
use techo_quant_options_pro.Signals.Pipeline.{SignalPipeline, GreeksTable, evaluate}
use techo_quant_options_pro.Signals.Sound.Buys.{evaluate_accepted}
use techo_quant_options_pro.Automation.History.{
  History, Evaluation, has_id, insert_or_ignore, evaluation_of, record_evaluation,
}
use techo_quant_options_pro.Automation.Service.{
  Service, Automated, process, execute_plan, on_history,
}

-- The evaluation that keeps its plan from the controller: none, or one that is not actionable.
abbrev IsIdle : SignalPipelineResult → Type 0
IsIdle r = (plan : TradePlan) → r.trade_plan ≡ some plan → plan.actionable ≡ false

module _ {G : Type 0} where
  execute_plan-world :
      (v : Service G) (s : AtomicSnapshot) (now : DateTime) (r : SignalPipelineResult)
      (o : Option TradePlan) (a : Automated G)
      → ((plan : TradePlan) → o ≡ some plan → plan.actionable ≡ false)
      → (execute_plan v s now r o a).1.world ≡ a.world
  unfolding execute_plan
  execute_plan-world v s now r none a idle = refl
  execute_plan-world v s now r (some plan) a idle = rw (idle plan refl) refl

  recorded-world :
      (v : Service G) (s : AtomicSnapshot) (now : DateTime) (r : SignalPipelineResult)
      (x : Result String × History) (a : Automated G)
      → IsIdle r
      → (continue x.0
          (λ id. execute_plan v s now r r.trade_plan)
          (record a { history = x.1 })).1.world
        ≡ a.world
  recorded-world v s now r (ok id, h) a idle =
      execute_plan-world v s now r r.trade_plan (record a { history = h }) idle
  recorded-world v s now r (raised k m, h) a idle = refl

  process-world :
      (v : Service G) (s : AtomicSnapshot) (report : ValidationReport)
      (previous : Option PreviousOptionSnapshot) (now : DateTime) (a : Automated G)
      → ((r : SignalPipelineResult) → v.evaluate s report previous now ≡ ok r → IsIdle r)
      → (process v s report previous now a).1.world ≡ a.world
  unfolding process on_history
  process-world v s report previous now a idle = elim (outcome (v.evaluate s report previous now)) [
    | Outcome.failed k m e ↦ rw e refl
    | Outcome.returned r e ↦
        rw e (recorded-world v s now r (record_evaluation v.result_hash r a.history) a (idle r e))
  ]

  -- Behind the validator and the pipeline, a run leaves the controller, with its ledger, its gateway
  -- and what was sent, as it was, or the snapshot was current and its chain sound when it was
  -- validated.
  pub process_guarded :
      (p : SignalPipeline) (modeled : Option GreeksTable) (check : Validator) (v : Service G)
      (s : AtomicSnapshot) (previous : Option PreviousOptionSnapshot) (checked_at now : DateTime)
      (a : Automated G)
      → v.evaluate ≡ (λ s report previous now. evaluate p s report previous modeled now)
      → ((process v s (validate check s checked_at) previous now a).1.world ≡ a.world)
        ⊎ (IsCurrent check s checked_at × IsChain check s)
  process_guarded p modeled check v s previous checked_at now a e =
      let report = validate check s checked_at in
      elim (Bool-cases (accepted report)) [
        | inl yes_accepted ↦ inr (
          accepted-IsCurrent check s checked_at yes_accepted,
          accepted-IsChain check s checked_at yes_accepted,
        )
        | inr refused ↦ inl (
            process-world v s report previous now a (λ r from plan planned.
              elim (Bool-cases plan.actionable) [
                | inl acts ↦
                    let absurd =
                      evaluate_accepted p s report previous modeled now r plan
                        (subst (λ f. f s report previous now ≡ ok r) e from) planned acts in
                    ground arith
                | inr waits ↦ waits
              ]))
      ]

-- Recording a result again changes nothing, IDs stay distinct, and what is there stays.
pub has_id-insert :
    (e : Evaluation) (h : History) → any (has_id e.evaluation_id) (insert_or_ignore e h) ≡ true
has_id-insert e h = elim (Bool-cases (any (has_id e.evaluation_id) h)) [
  | inl there ↦ ground (arith, there)
  | inr absent ↦ ground (
    arith,
    absent,
    any-append (has_id e.evaluation_id) h (e ∷ []),
    eq→str_eq e.evaluation_id e.evaluation_id refl,
  )
]

abbrev evaluation_id_of : Evaluation → String
evaluation_id_of e = e.evaluation_id

insert_twice :
    (e : Evaluation) (h : History)
    → insert_or_ignore e (insert_or_ignore e h) ≡ insert_or_ignore e h
insert_twice e h = rw (has_id-insert e h) refl

Distinct-insert :
    (e : Evaluation) (h : History)
    → Distinct evaluation_id_of h
    → Distinct evaluation_id_of (insert_or_ignore e h)
Distinct-insert e h d = elim (Bool-cases (any (has_id e.evaluation_id) h)) [
  | inl there ↦ rw there d
  | inr absent ↦ rw absent (Distinct-at_end evaluation_id_of h e d absent)
]

insert_prefix :
    (e : Evaluation) (h : History) → (rest : History) × (insert_or_ignore e h ≡ h ++ rest)
insert_prefix e h = elim (Bool-cases (any (has_id e.evaluation_id) h)) [
  | inl there ↦ ([], rw there (sym (append-nil h)))
  | inr absent ↦ (e ∷ [], rw absent refl)
]

-- In a history whose IDs are distinct, recording the result of an aware time keeps them distinct and
-- what was there, and recording it again returns the same ID and changes nothing.
pub record_evaluation_twice :
    (hash : SignalPipelineResult → String) (r : SignalPipelineResult) (h : History)
    → r.generated_at.aware ≡ true
    → Distinct evaluation_id_of h
    → (record_evaluation hash r (record_evaluation hash r h).1 ≡ record_evaluation hash r h)
      × Distinct evaluation_id_of (record_evaluation hash r h).1
      × ((rest : History) × ((record_evaluation hash r h).1 ≡ h ++ rest))
unfolding record_evaluation
record_evaluation_twice hash r h aware d =
    let e = evaluation_of hash r in
    simp aware (
      ap (λ (g : History). (ok e.evaluation_id, g)) (insert_twice e h),
      Distinct-insert e h d,
      insert_prefix e h,
    )
