-- ===== src/Execution/Controller/OnLedger.antt =====
-- A contract of a ledger method is a contract of the controller's call of it.
use techo_quant_options_pro.Prelude.{String, List}
use techo_quant_options_pro.Execution.Ledger.Rows.{Ledger}
use techo_quant_options_pro.Execution.Controller.Actions.{World, on_ledger}
use techo_quant_options_pro.Exec.{Exec, Result, ok, raised}
use techo_quant_options_pro.Exec.Triple.{Ends, Triple}

module _ {G : Type 0} where
  pub on_ledger-Triple :
      {A : Type 0} {P Q E : List String → Ledger → Type 0} (m : Exec Ledger A)
      → ((sent : List String) → Triple (P sent) m (Q sent) (E sent))
      → Triple
          (λ (w : World G). P w.sent w.ledger)
          (on_ledger m)
          (λ w. Q w.sent w.ledger)
          (λ w. E w.sent w.ledger)
  unfolding on_ledger
  on_ledger-Triple {A} {Q} {E} m t = record {
    at = λ w h. go w (m w.ledger) ((t w.sent).at w.ledger h);
  }
    where
      go :
          (w : World G) (r : Result A × Ledger)
          → Ends (Q w.sent) (E w.sent) r
          → Ends {S = World G}
              (λ w. Q w.sent w.ledger)
              (λ w. E w.sent w.ledger)
              (r.0, record w { ledger = r.1 })
      go w (ok a, l) h = h
      go w (raised k m, l) h = h
