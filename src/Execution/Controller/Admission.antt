-- ===== src/Execution/Controller/Admission.antt =====
-- What a plan that passed the gates satisfies.
use techo_quant_options_pro.Prelude.{
  ◌+◌, ◌≤◌, ◌<◌, String, true, false, ◌≡◌, refl, ap, Option, none, some, List, [], ◌∷◌, any, find,
  ◌↔◌, arith, pos, is_some, find-any,
}
use techo_quant_options_pro.Decimal
use techo_quant_options_pro.Decimal.{Decimal, integer, is_finite, less, less_eq}
use techo_quant_options_pro.Text.{is_blank, str_eq→eq, eq→str_eq}
use techo_quant_options_pro.Time.{DateTime}
use techo_quant_options_pro.Execution.Errors.{ErrorKind}
use techo_quant_options_pro.Execution.Models.{TradePlan}
use techo_quant_options_pro.Execution.Ledger.Rows.{Ledger, PositionRow}
use techo_quant_options_pro.Execution.Ledger.Signals.{signal_exists}
use techo_quant_options_pro.Execution.Ledger.Orders.{holds_security}
use techo_quant_options_pro.Execution.Ledger.Positions.{open_position_for_security, stored_position}
use techo_quant_options_pro.Execution.Controller.Policy.{ExecutionPolicy, Registry, lookup}
use techo_quant_options_pro.Execution.Controller.Gates.{
  require_aware, is_registered, validate_names, validate_size, validate_aware, validate_times,
  validate_risk, validate_plan,
}
use techo_quant_options_pro.Exec.{ok}
use techo_quant_options_pro.Exec.Outcome.{raise_if-ok, then_check-ok}

-- The size of the order is inside the policy, and its security is the registered one.
pub record IsSized (policy : ExecutionPolicy) (registry : Registry) (plan : TradePlan)
    : Type 0 where
  pub registered : lookup plan.symbol registry ≡ some plan.security_id
  pub positive : 0 < plan.quantity
  pub within : plan.quantity ≤ policy.max_order_quantity
  pub price_finite : is_finite plan.limit_price ≡ true
  pub price_positive : less_eq plan.limit_price (integer (pos 0)) ≡ false
  pub loss_finite : is_finite plan.maximum_loss ≡ true
  pub loss_positive : less (integer (pos 0)) plan.maximum_loss ≡ true
  pub loss_within : less_eq plan.maximum_loss policy.max_plan_loss ≡ true
  pub notional :
      less policy.max_order_notional (Decimal.mul plan.limit_price (integer (pos plan.quantity)))
      ≡ false

-- The data is fresh, and the plan and its contract are still valid.
pub record IsTimely (policy : ExecutionPolicy) (plan : TradePlan) (now : DateTime) : Type 0 where
  pub fresh : now.instant ≤ plan.data_time.instant + policy.max_data_age
  pub not_future : plan.data_time.instant ≤ now.instant + policy.future_clock_skew
  pub signal_not_future : plan.signal_time.instant ≤ now.instant + policy.future_clock_skew
  pub valid : now.instant < plan.valid_until.instant
  pub unexpired : now.instant + policy.min_expiry_buffer < plan.contract_expiry.instant

pub record IsClear (plan : TradePlan) (l : Ledger) : Type 0 where
  pub no_event : plan.event_risk_active ≡ some false
  pub expiry_clear : plan.expiry_risk_clear ≡ true
  pub no_position : any (holds_security plan.security_id) l.positions ≡ false

pub record IsNamed (plan : TradePlan) : Type 0 where
  pub signal : is_blank plan.signal_id ≡ false
  pub correlation : is_blank plan.correlation_id ≡ false
  pub symbol : is_blank plan.symbol ≡ false
  pub security : is_blank plan.security_id ≡ false
  pub version : is_blank plan.strategy_version ≡ false

pub record IsAware (plan : TradePlan) : Type 0 where
  pub signal : plan.signal_time.aware ≡ true
  pub data_at : plan.data_time.aware ≡ true
  pub valid : plan.valid_until.aware ≡ true
  pub expiry : plan.contract_expiry.aware ≡ true

pub record IsAdmissible (policy : ExecutionPolicy) (registry : Registry) (plan : TradePlan)
    (now : DateTime) (l : Ledger) : Type 0 where
  pub named : IsNamed plan
  pub sized : IsSized policy registry plan
  pub aware : IsAware plan
  pub timely : IsTimely policy plan now
  pub clear : IsClear plan l

is_registered_lem : (o : Option String) (id : String) → is_registered o id ≡ true → o ≡ some id
is_registered_lem none id h = cc
is_registered_lem (some s) id h = ap some (str_eq→eq s id h)

validate_names-ok : (plan : TradePlan) → validate_names plan ≡ ok tt → IsNamed plan
unfolding validate_names
validate_names-ok plan h = ground arith

validate_aware-ok : (plan : TradePlan) → validate_aware plan ≡ ok tt → IsAware plan
unfolding validate_aware require_aware
validate_aware-ok plan h = ground arith

validate_size-ok :
    (policy : ExecutionPolicy) (registry : Registry) (plan : TradePlan)
    → validate_size policy registry plan ≡ ok tt
    → IsSized policy registry plan
unfolding validate_size
validate_size-ok policy registry plan h =
    ground (arith, is_registered_lem (lookup plan.symbol registry) plan.security_id)

validate_times-ok :
    (policy : ExecutionPolicy) (plan : TradePlan) (now : DateTime)
    → validate_times policy plan now ≡ ok tt
    → (now.instant ≤ plan.data_time.instant + policy.max_data_age)
      × (plan.data_time.instant ≤ now.instant + policy.future_clock_skew)
      × (plan.signal_time.instant ≤ now.instant + policy.future_clock_skew)
      × (now.instant < plan.valid_until.instant)
unfolding validate_times
validate_times-ok policy plan now h = ground arith

no_open_position :
    (id : String) (l : Ledger)
    → is_some (open_position_for_security id l) ≡ false
    → any (holds_security id) l.positions ≡ false
no_open_position id l h = go l.positions h
  where
    go :
        (ps : List PositionRow)
        → is_some (stored_position (find (holds_security id) ps)) ≡ false
        → any (holds_security id) ps ≡ false
    go [] h = refl
    go (p ∷ ps) h = ground (arith, go ps)

risk_checks :
    (policy : ExecutionPolicy) (plan : TradePlan) (now : DateTime) (l : Ledger)
    → validate_risk policy plan now l ≡ ok tt
    → (plan.event_risk_active ≡ some false)
      × (plan.expiry_risk_clear ≡ true)
      × (now.instant + policy.min_expiry_buffer < plan.contract_expiry.instant)
      × (is_some (open_position_for_security plan.security_id l) ≡ false)
unfolding validate_risk
risk_checks policy plan now l h = ground arith

validate_risk-ok :
    (policy : ExecutionPolicy) (plan : TradePlan) (now : DateTime) (l : Ledger)
    → validate_risk policy plan now l ≡ ok tt
    → IsClear plan l × (now.instant + policy.min_expiry_buffer < plan.contract_expiry.instant)
unfolding validate_risk
validate_risk-ok policy plan now l h =
    let checks = risk_checks policy plan now l h in
    (
      record {
        no_event = checks.0;
        expiry_clear = checks.1;
        no_position = no_open_position plan.security_id l checks.3;
      },
      checks.2,
    )

names_pass : (plan : TradePlan) → IsNamed plan → validate_names plan ≡ ok tt
unfolding validate_names
names_pass plan h = rw (h.signal, h.correlation, h.symbol, h.security, h.version)

aware_pass : (plan : TradePlan) → IsAware plan → validate_aware plan ≡ ok tt
unfolding validate_aware require_aware
aware_pass plan h = rw (h.signal, h.data_at, h.valid, h.expiry)

size_pass :
    (policy : ExecutionPolicy) (registry : Registry) (plan : TradePlan)
    → IsSized policy registry plan
    → validate_size policy registry plan ≡ ok tt
unfolding validate_size
size_pass policy registry plan h = ground (arith, eq→str_eq plan.security_id plan.security_id refl)

times_pass :
    (policy : ExecutionPolicy) (plan : TradePlan) (now : DateTime)
    → IsTimely policy plan now
    → validate_times policy plan now ≡ ok tt
unfolding validate_times
times_pass policy plan now h = ground arith

position_absent :
    (id : String) (l : Ledger)
    → any (holds_security id) l.positions ≡ false
    → is_some (open_position_for_security id l) ≡ false
position_absent id l h =
    ap (λ r. is_some (stored_position r)) (find-any (holds_security id) l.positions h)

risk_pass :
    (policy : ExecutionPolicy) (plan : TradePlan) (now : DateTime) (l : Ledger)
    → IsClear plan l
    → IsTimely policy plan now
    → validate_risk policy plan now l ≡ ok tt
unfolding validate_risk
risk_pass policy plan now l h t = ground (arith, position_absent plan.security_id l h.no_position)

-- The gates let a plan through exactly when its signal is new and it is admissible: named,
-- registered, inside every limit, aware, fresh, valid, clear of risk, and its security not held.
pub validate_plan_iff :
    (policy : ExecutionPolicy) (registry : Registry) (plan : TradePlan) (now : DateTime)
    (l : Ledger)
    → (validate_plan policy registry plan now true l ≡ ok tt)
      ↔ ((signal_exists plan.signal_id l ≡ false) × IsAdmissible policy registry plan now l)
unfolding validate_plan
validate_plan_iff policy registry plan now l = (sound, complete)
  where
    sound :
        validate_plan policy registry plan now true l ≡ ok tt
        → (signal_exists plan.signal_id l ≡ false) × IsAdmissible policy registry plan now l
    sound h =
        let (new, h1) = then_check-ok _ _ h in
        let (names, h2) = then_check-ok (validate_names plan) _ h1 in
        let (size, h3) = then_check-ok (validate_size policy registry plan) _ h2 in
        let (aware, h4) = then_check-ok (validate_aware plan) _ h3 in
        let (times, risk) = then_check-ok (validate_times policy plan now) _ h4 in
        let (fresh, not_future, signal_not_future, valid) =
          validate_times-ok policy plan now times in
        let (clear, unexpired) = validate_risk-ok policy plan now l risk in
        (
          raise_if-ok _ ErrorKind.duplicate_signal "signal has already been processed" new,
          record {
            named = validate_names-ok plan names;
            sized = validate_size-ok policy registry plan size;
            aware = validate_aware-ok plan aware;
            timely = record {
              fresh = fresh;
              not_future = not_future;
              signal_not_future = signal_not_future;
              valid = valid;
              unexpired = unexpired;
            };
            clear = clear;
          },
        )

    complete :
        (signal_exists plan.signal_id l ≡ false) × IsAdmissible policy registry plan now l
        → validate_plan policy registry plan now true l ≡ ok tt
    complete (new, h) = rw (
      new,
      names_pass plan h.named,
      size_pass policy registry plan h.sized,
      aware_pass plan h.aware,
      times_pass policy plan now h.timely,
      risk_pass policy plan now l h.clear h.timely,
    )
