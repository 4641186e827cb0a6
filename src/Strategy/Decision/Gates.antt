-- ===== src/Strategy/Decision/Gates.antt =====
-- The decision's gates, independently of their order in the code.
use techo_quant_options_pro.Prelude.{true, false, not, ◌&&◌, ◌≡◌, ◌∙◌, ◌↔◌, arith, sym}
use techo_quant_options_pro.Decimal.{less}
use techo_quant_options_pro.Exec.{ok}
use techo_quant_options_pro.Domain.Enums.{DecisionState}
use techo_quant_options_pro.Strategy.Config.{StrategyConfig}
use techo_quant_options_pro.Strategy.Decision.{
  DecisionInputs, DecisionOutcome, decide, resolve_decision, leading_of, score_gap_of,
  is_known_clear, is_confirmed, is_quick,
}

-- Every gate is open.
pub record IsTradable (i : DecisionInputs) (c : StrategyConfig) : Type 0 where
  pub complete : i.data_complete ≡ true
  pub fresh : i.data_stale ≡ false
  pub unexpired : i.expiry_valid ≡ true
  pub calm_expiry : i.extreme_expiry_risk ≡ false
  pub no_event :
      (not (is_known_clear i.event_risk_active) && c.event_risk_blocks_new_trades) ≡ false
  pub liquid : i.liquid_strike_available ≡ true
  pub affordable : i.affordable ≡ true
  pub watched : less (leading_of i) c.watchlist_score ≡ false
  pub strong_enough : less (leading_of i) c.minimum_tradable_score ≡ false
  pub decided : less (score_gap_of i) c.conflict_gap ≡ false
  pub professional : is_quick i.operating_mode ≡ false
  pub confirmed : is_confirmed i.price_action_confirmed ≡ true

buy_call-IsTradable :
    (i : DecisionInputs) (c : StrategyConfig)
    → (decide i c).0 ≡ DecisionState.buy_call
    → IsTradable i c × (less i.put_score i.call_score ≡ true)
unfolding decide
buy_call-IsTradable i c h = ground arith

buy_put-IsTradable :
    (i : DecisionInputs) (c : StrategyConfig)
    → (decide i c).0 ≡ DecisionState.buy_put
    → IsTradable i c × (less i.put_score i.call_score ≡ false)
unfolding decide
buy_put-IsTradable i c h = ground arith

IsTradable-buy_call :
    (i : DecisionInputs) (c : StrategyConfig)
    → IsTradable i c
    → less i.put_score i.call_score ≡ true
    → (decide i c).0 ≡ DecisionState.buy_call
unfolding decide
IsTradable-buy_call i c h lead = ground arith

IsTradable-buy_put :
    (i : DecisionInputs) (c : StrategyConfig)
    → IsTradable i c
    → less i.put_score i.call_score ≡ false
    → (decide i c).0 ≡ DecisionState.buy_put
unfolding decide
IsTradable-buy_put i c h lead = ground arith

resolved_state :
    (i : DecisionInputs) (c : StrategyConfig) (o : DecisionOutcome)
    → resolve_decision i c ≡ ok o
    → o.state ≡ (decide i c).0
unfolding resolve_decision
resolved_state i c o h = ground arith

-- When the scores are inside 0..100 so that a decision is returned, it is BUY_CALL exactly when
-- every gate is open and the call leads strictly, and BUY_PUT exactly when every gate is open and
-- the call does not.
pub resolve_decision_iff :
    (i : DecisionInputs) (c : StrategyConfig) (o : DecisionOutcome)
    → resolve_decision i c ≡ ok o
    → ((o.state ≡ DecisionState.buy_call)
        ↔ (IsTradable i c × (less i.put_score i.call_score ≡ true)))
      × ((o.state ≡ DecisionState.buy_put)
          ↔ (IsTradable i c × (less i.put_score i.call_score ≡ false)))
resolve_decision_iff i c o h =
    let e = resolved_state i c o h in
    (
      (λ b. buy_call-IsTradable i c (sym e ∙ b), λ t. e ∙ IsTradable-buy_call i c t.0 t.1),
      (λ b. buy_put-IsTradable i c (sym e ∙ b), λ t. e ∙ IsTradable-buy_put i c t.0 t.1),
    )
