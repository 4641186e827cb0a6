-- ===== src/Domain/Overrides.antt =====
-- `ManualOverride` of domain/models.py: a decision input that an operator supersedes for a time.
use techo_quant_options_pro.Prelude.{
  String, Bool, true, false, not, Option, none, some, List, [], ◌∷◌, any, str_eq, is_some,
}
use techo_quant_options_pro.Text.{is_blank}
use techo_quant_options_pro.Time.{DateTime, not_after}
use techo_quant_options_pro.Execution.Errors.{ErrorKind}
use techo_quant_options_pro.Exec.{Result, ok, raised, raise_if, ◌then_check◌}

pub record ManualOverride (A : Type 0) : Type 0 where
  pub field_name : String
  pub imported_value : A
  pub override_value : Option A
  pub overridden_by : Option String
  pub overridden_at : Option DateTime
  pub reason : Option String
  pub expires_at : Option DateTime

abbrev pub manual_override_fields : List String
manual_override_fields =
    "context.operating_mode" ∷ "context.trading_style" ∷ "context.account_capital"
    ∷ "context.risk_per_trade" ∷ "context.maximum_premium_allocation" ∷ "context.event_risk_active"
    ∷ "context.price_action_confirmed" ∷ "context.signal_candle_high" ∷ "context.signal_candle_low"
    ∷ "context.expected_holding_hours" ∷ "technicals.reference_volatility" ∷ []

abbrev refuse : Bool → String → Result (Unit {0})
refuse test message = raise_if test ErrorKind.value_error message

abbrev is_absent : Option String → Bool
is_absent none = true
is_absent (some s) = is_blank s

abbrev is_naive : Option DateTime → Bool
is_naive none = true
is_naive (some t) = not t.aware

abbrev is_before_override : Option DateTime → DateTime → Bool
is_before_override none t = false
is_before_override (some overridden_at) t = not_after t overridden_at

abbrev is_expired : Option DateTime → DateTime → Bool
is_expired none now = false
is_expired (some t) now = not_after t now

module _ {A : Type 0} where
  abbrev pub is_active : ManualOverride A → Bool
  is_active o = is_some o.override_value

  abbrev expiry_checks : ManualOverride A → Option DateTime → Result (Unit {0})
  expiry_checks o none = ok tt
  expiry_checks o (some t) =
      refuse (not t.aware) "manual-override expiry must be timezone-aware"
      then_check refuse (not (is_active o)) "an inactive manual override cannot have an expiry"
      then_check refuse (is_before_override o.overridden_at t)
          "manual-override expiry must be after its override timestamp"

  unfoldable pub validate_override : ManualOverride A → Result (Unit {0})
  validate_override o =
      refuse (not (any (str_eq o.field_name) manual_override_fields))
        "unsupported manual-override field"
      then_check refuse (is_absent o.overridden_by) "manual override requires a non-empty actor"
      then_check refuse (is_absent o.reason) "manual override requires a non-empty reason"
      then_check refuse (is_naive o.overridden_at)
          "manual override requires a timezone-aware override timestamp"
      then_check expiry_checks o o.expires_at

  abbrev in_force : A → Bool → A → A
  in_force imported true value = imported
  in_force imported false value = value

  abbrev effective_of : ManualOverride A → DateTime → Option A → Result A
  effective_of o now none = ok o.imported_value
  effective_of o now (some value) = elim now.aware [
    | false ↦ raised ErrorKind.value_error "manual-override evaluation time must be timezone-aware"
    | true ↦ ok (in_force o.imported_value (is_expired o.expires_at now) value)
  ]

  -- `effective_value` at a given time.
  unfoldable pub effective_value : ManualOverride A → DateTime → Result A
  effective_value o now = effective_of o now o.override_value
