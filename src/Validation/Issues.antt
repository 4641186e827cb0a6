-- ===== src/Validation/Issues.antt =====
-- Issues, reports, and the helpers of the validator.
use techo_quant_options_pro.Prelude.{
  ℕ, String, Bool, true, false, not, ◌&&◌, Option, none, some, List, [], ◌∷◌, any, select, str_eq,
  ℤ, pos, leb_ℤ,
}
use techo_quant_options_pro.Decimal.{Decimal, integer, is_finite, less}
use techo_quant_options_pro.Text.{is_digest}
use techo_quant_options_pro.Time.{DateTime}
use techo_quant_options_pro.Domain.Enums.{ValidationSeverity}
use techo_quant_options_pro.Domain.Models.{PreviousOptionSnapshot, Hashing}
use techo_quant_options_pro.Strategy.Config.{StrategyConfig}

-- A field by its name, or the field of an item of a list.
pub data IssuePath : Type 0 where
  field : String → IssuePath
  item : String → ℕ → String → IssuePath

pub record ValidationIssue : Type 0 where
  pub code : String
  pub severity : ValidationSeverity
  pub path : IssuePath

pub record ValidationReport : Type 0 where
  pub issues : List ValidationIssue
  pub snapshot_id : String
  pub snapshot_hash : String

abbrev pub is_error : ValidationIssue → Bool
is_error i = elim i.severity [
  | ValidationSeverity.error ↦ true
  | ValidationSeverity.warning ↦ false
]

abbrev pub accepted : ValidationReport → Bool
accepted r = not (any is_error r.issues)

abbrev pub errors : ValidationReport → List ValidationIssue
errors r = select is_error r.issues

abbrev pub warnings : ValidationReport → List ValidationIssue
warnings r = select (λ i. not (is_error i)) r.issues

abbrev pub has_code : String → ValidationReport → Bool
has_code code r = any (λ i. str_eq i.code code) r.issues

abbrev pub error_if : Bool → String → IssuePath → List ValidationIssue
error_if true code path =
    record { code = code; severity = ValidationSeverity.error; path = path } ∷ []
error_if false code path = []

abbrev pub warning_if : Bool → String → IssuePath → List ValidationIssue
warning_if true code path =
    record { code = code; severity = ValidationSeverity.warning; path = path } ∷ []
warning_if false code path = []

-- `_require_aware`
abbrev pub require_aware : DateTime → IssuePath → List ValidationIssue
require_aware value path = error_if (not value.aware) "NAIVE_TIMESTAMP" path

-- `_is_positive_decimal`
abbrev pub is_positive : Option Decimal → Bool
is_positive none = false
is_positive (some value) = is_finite value && less (integer (pos 0)) value

-- `_is_sha256`
abbrev pub is_sha256 : Option String → Bool
is_sha256 none = false
is_sha256 (some s) = is_digest s

abbrev pub same_ℤ : ℤ → ℤ → Bool
same_ℤ a b = leb_ℤ a b && leb_ℤ b a

-- What the loader of an earlier snapshot answers: one or none, or an exception.
pub data Loaded : Type 0 where
  answered : Option PreviousOptionSnapshot → Loaded
  crashed : Loaded

-- The validator: its configuration, the loader of earlier snapshots, the hashes, and `str.upper`.
pub record Validator : Type 0 where
  pub config : StrategyConfig
  pub loader : Option (String → Loaded)
  pub hash : Hashing
  pub upper : String → String
