-- ===== src/Execution/Controller/Policy.antt =====
-- `ExecutionPolicy` and the instrument registry of execution/controller.py.
use techo_quant_options_pro.Prelude.{
  ℕ, String, Bool, false, ◌||◌, not, Option, none, some, List, [], ◌∷◌, ◌==◌, pos, str_eq,
  if◌then◌else◌,
}
use techo_quant_options_pro.Decimal.{Decimal, integer, is_finite, less_eq}
use techo_quant_options_pro.Text.{strip, is_blank}
use techo_quant_options_pro.Execution.Errors.{ErrorKind}
use techo_quant_options_pro.Execution.Models.{ExecutionMode}
use techo_quant_options_pro.Exec.{Result, ok, raised, raise_if, ◌then_check◌}

-- The three waits are finite and not negative, as `__post_init__` demands.
pub record ExecutionPolicy : Type 0 where
  pub mode : ExecutionMode
  pub max_data_age : ℕ
  pub future_clock_skew : ℕ
  pub min_expiry_buffer : ℕ
  pub max_order_quantity : ℕ
  pub max_order_notional : Decimal
  pub max_plan_loss : Decimal
  pub max_daily_loss : Decimal
  pub max_consecutive_losses : ℕ
  pub live_enabled : Bool

abbrev not_finite_positive : Decimal → Bool
not_finite_positive value = not (is_finite value) || less_eq value (integer (pos 0))

-- `__post_init__`
unfoldable pub validate_policy : ExecutionPolicy → Result (Unit {0})
validate_policy p =
    raise_if (p.max_order_quantity == 0 || p.max_consecutive_losses == 0) ErrorKind.value_error
      "quantity and consecutive-loss limits must be positive"
    then_check raise_if (not_finite_positive p.max_order_notional) ErrorKind.value_error
        "max_order_notional must be finite and positive"
    then_check raise_if (not_finite_positive p.max_plan_loss) ErrorKind.value_error
        "max_plan_loss must be finite and positive"
    then_check raise_if (not_finite_positive p.max_daily_loss) ErrorKind.value_error
        "max_daily_loss must be finite and positive"

-- The verified map from symbols to security IDs.
abbrev pub Registry : Type 0
Registry = List (String × String)

unfoldable pub lookup : String → Registry → Option String
lookup symbol [] = none
lookup symbol ((s, id) ∷ rest) = if str_eq s symbol then some id else lookup symbol rest

abbrev conflicts : Option String → String → Bool
conflicts none id = false
conflicts (some known) id = not (str_eq known id)

-- The loop of `replace_instrument_registry` over the map's items; `normalized` holds what was
-- read so far. A repeated symbol has its security ID already.
normalize : Registry → Registry → Result Registry
unfolding lookup
normalize normalized [] = ok normalized
normalize normalized ((raw_symbol, raw_security_id) ∷ rest) =
    let continue_with = normalize ((strip raw_symbol, strip raw_security_id) ∷ normalized) rest in
    if is_blank raw_symbol
    then raised ErrorKind.value_error "instrument-registry symbols must be non-empty strings"
    else if is_blank raw_security_id
    then raised ErrorKind.value_error "instrument-registry security IDs must be non-empty strings"
    else if conflicts (lookup (strip raw_symbol) normalized) (strip raw_security_id)
    then raised ErrorKind.value_error "instrument registry contains a conflicting symbol"
    else continue_with

unfoldable pub replace_instrument_registry : Registry → Result Registry
unfolding normalize
replace_instrument_registry instruments = normalize [] instruments
