-- ===== src/Validation/Reference.antt =====
-- `_validate_change_oi_reference` of ingestion/validation.py: the change of open interest is
-- recomputed from the earlier snapshot that it names. Loaded snapshots are kept for the other
-- quotes.
use techo_quant_options_pro.Prelude.{
  ℕ, String, Bool, true, not, ◌&&◌, ◌||◌, Option, none, some, List, [], ◌∷◌, ◌++◌, select, find,
  str_eq, ℤ, pos, leb_ℤ, ◌-ℤ◌, if◌then◌else◌,
}
use techo_quant_options_pro.Decimal.{finite, is_finite, less, less_eq}
use techo_quant_options_pro.Float
use techo_quant_options_pro.Float.{Float, of_decimal, absolute, same_value}
use techo_quant_options_pro.Text.{is_empty}
use techo_quant_options_pro.Time.{same_instant}
use techo_quant_options_pro.Domain.Enums.{DataSource, same_source, same_option_type}
use techo_quant_options_pro.Domain.Models.{
  AtomicSnapshot, OptionQuote, PreviousOptionSnapshot, same_decimal, same_time,
}
use techo_quant_options_pro.Domain.Clock.{seconds_between}
use techo_quant_options_pro.Strategy.Config.{nought}
use techo_quant_options_pro.Validation.Issues.{ValidationIssue, Validator, Loaded, error_if, same_ℤ}
use techo_quant_options_pro.Validation.Quote.{at_quote}

-- The dict of the snapshots loaded so far; the key that was added last comes first.
abbrev pub Cache : Type 0
Cache = List (String × Option PreviousOptionSnapshot)

abbrev pub at_source : String → ℕ → List ValidationIssue
at_source code n = error_if true code (at_quote n "change_oi_source_snapshot_id")

abbrev pub is_same_leg : OptionQuote → OptionQuote → Bool
is_same_leg q prior =
    str_eq prior.security_id q.security_id
    && same_decimal prior.strike q.strike
    && same_option_type prior.option_type q.option_type
    && same_time prior.expiry q.expiry

-- `abs(declared - interval) > 1e-9`, or not finite, or absent.
abbrev is_other_interval : Option Float → Float → Bool
is_other_interval none interval = true
is_other_interval (some declared) interval =
    not (is_finite declared)
    || less (of_decimal (finite (pos 1) 9)) (absolute (Float.sub declared interval))

abbrev pub is_other_delta : Option ℤ → Option ℤ → Option ℤ → Bool
is_other_delta (some change) (some now) (some before) = not (same_ℤ change (now -ℤ before))
is_other_delta _ _ _ = true

unfoldable pub interval_mismatch :
    AtomicSnapshot → OptionQuote → PreviousOptionSnapshot → OptionQuote → Bool
interval_mismatch s q previous prior =
    let source_interval = seconds_between s.source_timestamp previous.source_timestamp in
    let leg_interval = seconds_between q.observed_at prior.observed_at in
    not (same_instant s.source_timestamp q.observed_at)
    || not (same_instant previous.source_timestamp prior.observed_at)
    || less_eq source_interval nought
    || not (same_value leg_interval source_interval)
    || is_other_interval q.change_oi_interval_seconds leg_interval

unfoldable pub prior_leg_issues :
    AtomicSnapshot → OptionQuote → PreviousOptionSnapshot → ℕ → OptionQuote → List ValidationIssue
prior_leg_issues s q previous n prior =
    if not (
      s.source_timestamp.aware && q.observed_at.aware && previous.source_timestamp.aware
      && prior.observed_at.aware)
    then error_if true "CHANGE_OI_TIMESTAMP_INVALID" (at_quote n "change_oi_interval_seconds")
    else error_if (interval_mismatch s q previous prior) "CHANGE_OI_INTERVAL_MISMATCH"
        (at_quote n "change_oi_interval_seconds")
      ++ error_if (is_other_delta q.change_open_interest q.open_interest prior.open_interest)
          "CHANGE_OI_DELTA_MISMATCH" (at_quote n "change_open_interest")

-- Exactly one leg of the earlier snapshot matches.
abbrev pub legs_issues :
    AtomicSnapshot
    → OptionQuote
    → PreviousOptionSnapshot
    → ℕ
    → List OptionQuote
    → List ValidationIssue
legs_issues s q previous n (prior ∷ []) = prior_leg_issues s q previous n prior
legs_issues s q previous n _ = at_source "CHANGE_OI_PRIOR_LEG_MISMATCH" n

abbrev pub is_mismatched : Validator → AtomicSnapshot → String → PreviousOptionSnapshot → Bool
is_mismatched v s id previous =
    not (str_eq previous.snapshot_id id)
    || not (same_source previous.source DataSource.dhan_rest)
    || not (str_eq previous.contract_key (v.hash.contract_key s.contract))
    || leb_ℤ s.sequence previous.sequence

unfoldable pub previous_issues :
    Validator
    → AtomicSnapshot
    → OptionQuote
    → String
    → ℕ
    → Option PreviousOptionSnapshot
    → List ValidationIssue
previous_issues v s q id n none = at_source "CHANGE_OI_REFERENCE_NOT_ACCEPTED" n
previous_issues v s q id n (some previous) =
    if is_mismatched v s id previous
    then at_source "CHANGE_OI_REFERENCE_MISMATCH" n
    else legs_issues s q previous n (select (is_same_leg q) previous.option_chain)

-- What the cache or the loader has for an ID: `none` is a loader that crashed just now.
abbrev pub after_load :
    Validator
    → AtomicSnapshot
    → OptionQuote
    → String
    → ℕ
    → Cache
    → Loaded
    → List ValidationIssue × Cache
after_load v s q id n loaded Loaded.crashed =
    (at_source "CHANGE_OI_REFERENCE_LOAD_FAILED" n, (id, none) ∷ loaded)
after_load v s q id n loaded (Loaded.answered o) = (previous_issues v s q id n o, (id, o) ∷ loaded)

abbrev pub with_cache :
    Validator
    → AtomicSnapshot
    → OptionQuote
    → String
    → ℕ
    → Cache
    → (String → Loaded)
    → Option (String × Option PreviousOptionSnapshot)
    → List ValidationIssue × Cache
with_cache v s q id n loaded load none = after_load v s q id n loaded (load id)
with_cache v s q id n loaded load (some entry) = (previous_issues v s q id n entry.1, loaded)

abbrev pub with_loader :
    Validator
    → AtomicSnapshot
    → OptionQuote
    → String
    → ℕ
    → Cache
    → Option (String → Loaded)
    → List ValidationIssue × Cache
with_loader v s q id n loaded none = (at_source "CHANGE_OI_REFERENCE_UNAVAILABLE" n, loaded)
with_loader v s q id n loaded (some load) =
    with_cache v s q id n loaded load
      (find (λ (e : String × Option PreviousOptionSnapshot). str_eq e.0 id) loaded)

abbrev pub with_reference :
    Validator
    → AtomicSnapshot
    → OptionQuote
    → ℕ
    → Cache
    → Option String
    → List ValidationIssue × Cache
with_reference v s q n loaded none = ([], loaded)
with_reference v s q n loaded (some id) =
    if is_empty id || not (same_source s.source DataSource.dhan_rest)
    then ([], loaded)
    else with_loader v s q id n loaded v.loader

abbrev pub with_change :
    Validator → AtomicSnapshot → OptionQuote → ℕ → Cache → Option ℤ → List ValidationIssue × Cache
with_change v s q n loaded none = ([], loaded)
with_change v s q n loaded (some change) =
    with_reference v s q n loaded q.change_oi_source_snapshot_id

unfoldable pub validate_change_oi_reference :
    Validator → AtomicSnapshot → OptionQuote → ℕ → Cache → List ValidationIssue × Cache
validate_change_oi_reference v s q n loaded = with_change v s q n loaded q.change_open_interest
