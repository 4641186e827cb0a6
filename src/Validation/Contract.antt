-- ===== src/Validation/Contract.antt =====
-- `_validate_contract` and `_validate_future_record` of ingestion/validation.py.
use techo_quant_options_pro.Prelude.{
  ℕ, suc, String, Bool, true, false, not, ◌&&◌, ◌||◌, Option, none, some, List, [], ◌∷◌, ◌++◌, any,
  str_eq, ℤ, pos, leb_ℤ, if◌then◌else◌,
}
use techo_quant_options_pro.Decimal.{Decimal, less, less_eq}
use techo_quant_options_pro.Float.{Float}
use techo_quant_options_pro.Text.{is_blank, is_empty, is_digest, starts_with}
use techo_quant_options_pro.Time.{DateTime, before}
use techo_quant_options_pro.Domain.Enums.{
  Exchange, MarketKind, PricingModel, OptionType, same_exchange,
}
use techo_quant_options_pro.Domain.Models.{
  AtomicSnapshot, ContractSpec, InstrumentMasterRecord, InstrumentMasterProvenance, OptionKey,
  canonical_key, same_key, same_decimal, same_time,
}
use techo_quant_options_pro.Domain.Clock.{seconds_between}
use techo_quant_options_pro.Strategy.Config.{StrategyConfig, nought}
use techo_quant_options_pro.Validation.Issues.{
  ValidationIssue, IssuePath, Validator, error_if, warning_if, require_aware, is_positive, same_ℤ,
}
use techo_quant_options_pro.Validation.Envelope.{is_future}
use techo_quant_options_pro.Validation.State.{is_commodity}

abbrev remaining_of : ContractSpec → DateTime → Float
remaining_of k now = seconds_between k.option_expiry now

abbrev expiry_issues : StrategyConfig → Float → List ValidationIssue
expiry_issues c remaining =
    if less_eq remaining nought
    then error_if true "INVALID_EXPIRY" (IssuePath.field "contract.option_expiry")
    else warning_if (less_eq remaining c.extreme_expiry_seconds) "EXTREME_EXPIRY_RISK"
        (IssuePath.field "contract.option_expiry")

unfoldable pub validate_expiry : StrategyConfig → ContractSpec → DateTime → List ValidationIssue
validate_expiry c k now =
    require_aware k.option_expiry (IssuePath.field "contract.option_expiry")
    ++ (if k.option_expiry.aware then expiry_issues c (remaining_of k now) else [])

unfoldable pub validate_spec : ContractSpec → List ValidationIssue
validate_spec k =
    error_if (leb_ℤ k.lot_size (pos 0)) "INVALID_CONTRACT_SPEC"
      (IssuePath.field "contract.lot_size")
    ++ (error_if (not (is_positive (some k.strike_interval))) "INVALID_CONTRACT_SPEC"
          (IssuePath.field "contract.strike_interval")
        ++ error_if (not (is_positive (some k.tick_size))) "INVALID_CONTRACT_SPEC"
            (IssuePath.field "contract.tick_size"))

abbrev master_age_issues :
    StrategyConfig → InstrumentMasterProvenance → DateTime → List ValidationIssue
master_age_issues c m now =
    if less c.instrument_master_max_age_seconds (seconds_between now m.fetched_at)
    then error_if true "STALE_CONTRACT_MASTER" (IssuePath.field "contract.master.fetched_at")
    else error_if (is_future c now m.fetched_at) "FUTURE_DATED_CONTRACT_MASTER"
        (IssuePath.field "contract.master.fetched_at")

unfoldable pub validate_master :
    StrategyConfig → InstrumentMasterProvenance → DateTime → List ValidationIssue
validate_master c m now =
    error_if
      (is_blank m.batch_id
        || is_blank m.provider
        || is_blank m.source_url
        || is_blank m.schema_version)
      "UNVERIFIED_CONTRACT" (IssuePath.field "contract.master")
    ++ (error_if (not (is_digest m.content_hash)) "INVALID_MASTER_HASH"
          (IssuePath.field "contract.master.content_hash")
        ++ (error_if (leb_ℤ m.row_count (pos 0)) "EMPTY_CONTRACT_MASTER"
              (IssuePath.field "contract.master.row_count")
            ++ (require_aware m.fetched_at (IssuePath.field "contract.master.fetched_at")
                ++ (if m.fetched_at.aware then master_age_issues c m now else []))))

abbrev pub expected_segment : Exchange → String
expected_segment Exchange.nse = "NSE_FNO"
expected_segment Exchange.bse = "BSE_FNO"
expected_segment Exchange.mcx = "MCX_COMM"

abbrev pub is_mcx : Exchange → Bool
is_mcx e = same_exchange e Exchange.mcx

abbrev is_black_76 : PricingModel → Bool
is_black_76 PricingModel.black_76 = true
is_black_76 PricingModel.black_scholes = false

-- A commodity trades on the MCX by Black-76, and nothing else does.
unfoldable pub validate_kind : ContractSpec → List ValidationIssue
validate_kind k =
    if is_commodity k.market_kind
    then error_if (not (is_mcx k.underlying.exchange)) "MARKET_EXCHANGE_MISMATCH"
        (IssuePath.field "contract.underlying.exchange")
      ++ error_if (not (is_black_76 k.pricing_model)) "WRONG_PRICING_MODEL"
          (IssuePath.field "contract.pricing_model")
    else error_if (is_mcx k.underlying.exchange) "MARKET_EXCHANGE_MISMATCH"
        (IssuePath.field "contract.underlying.exchange")
      ++ error_if (is_black_76 k.pricing_model) "WRONG_PRICING_MODEL"
          (IssuePath.field "contract.pricing_model")

-- A provider ID that is absent or empty.
abbrev usable_id : Option String → Option String
usable_id none = none
usable_id (some s) = if is_empty s then none else some s

abbrev agrees : Option String → String → Bool
agrees none s = false
agrees (some t) s = str_eq t s

-- Every record has this ID.
abbrev all_agree : String → List InstrumentMasterRecord → Bool
all_agree s [] = true
all_agree s (r ∷ rs) = agrees (usable_id r.underlying_security_id) s && all_agree s rs

abbrev family_of : Option String → List InstrumentMasterRecord → Option String
family_of none rs = none
family_of (some s) rs = if all_agree s rs then some s else none

-- The one ID that all the option records share, none of them lacking it.
unfoldable pub derivative_underlying_id : List InstrumentMasterRecord → Option String
derivative_underlying_id [] = none
derivative_underlying_id (r ∷ rs) = family_of (usable_id r.underlying_security_id) rs

abbrev equals : Option String → Option String → Bool
equals none b = false
equals (some a) none = false
equals (some a) (some b) = str_eq a b

-- Stocks map to the quoted security; the others to the family of the options.
abbrev pub underlying_matches : ContractSpec → Option String → Option String → Bool
underlying_matches k family id = elim k.market_kind [
  | MarketKind.index ↦ equals family id
  | MarketKind.commodity ↦ equals family id
  | MarketKind.stock ↦ equals (some k.underlying.security_id) id
]

abbrev futures_expiry_issues : ContractSpec → Option DateTime → List ValidationIssue
futures_expiry_issues k none =
    error_if true "FUTURES_EXPIRY_MISSING" (IssuePath.field "contract.futures.expiry")
futures_expiry_issues k (some t) =
    require_aware t (IssuePath.field "contract.futures.expiry")
    ++ error_if (t.aware && k.option_expiry.aware && before t k.option_expiry)
        "FUTURES_EXPIRY_MISMATCH" (IssuePath.field "contract.futures.expiry")

abbrev same_lot : Option ℤ → ℤ → Bool
same_lot none n = false
same_lot (some m) n = same_ℤ m n

unfoldable pub validate_future_record :
    Validator → ContractSpec → Option String → InstrumentMasterRecord → List ValidationIssue
validate_future_record v k family f =
    error_if
      (not (same_exchange f.instrument.exchange k.underlying.exchange)
        || not (str_eq (v.upper f.instrument.segment) (expected_segment k.underlying.exchange))
        || not (starts_with (v.upper f.instrument_type) "FUT"))
      "FUTURES_MASTER_IDENTITY_MISMATCH" (IssuePath.field "contract.futures")
    ++ (error_if
          (is_commodity k.market_kind
            && not (str_eq (canonical_key f.instrument) (canonical_key k.underlying)))
          "MCX_FUTURES_MAPPING_MISMATCH" (IssuePath.field "contract.futures.instrument")
        ++ (error_if (not (underlying_matches k family f.underlying_security_id))
              "FUTURES_UNDERLYING_MISMATCH"
              (IssuePath.field "contract.futures.underlying_security_id")
            ++ (futures_expiry_issues k f.expiry
                ++ error_if (not (same_lot f.lot_size k.lot_size)) "FUTURES_MASTER_SPEC_MISMATCH"
                    (IssuePath.field "contract.futures"))))

abbrev future_issues :
    Validator → ContractSpec → Option String → Option InstrumentMasterRecord → List ValidationIssue
future_issues v k family none =
    error_if true "FUTURES_MAPPING_MISSING" (IssuePath.field "contract.futures")
future_issues v k family (some f) = validate_future_record v k family f

abbrev pub key_of : Option Decimal → Option OptionType → Option OptionKey
key_of (some strike) (some t) = some (strike, t)
key_of _ _ = none

abbrev pub record_key : InstrumentMasterRecord → Option OptionKey
record_key r = key_of r.strike r.option_type

abbrev same_expiry : Option DateTime → DateTime → Bool
same_expiry none t = false
same_expiry (some u) t = same_time u t

abbrev same_tick : Option Decimal → Decimal → Bool
same_tick none d = false
same_tick (some e) d = same_decimal e d

abbrev at_item : ℕ → String → IssuePath
at_item n name = IssuePath.item "contract.option_contracts" n name

-- The checks of one option record with a strike and a side.
unfoldable pub option_record_issues :
    Validator
    → ContractSpec
    → Option String
    → ℕ
    → InstrumentMasterRecord
    → Bool
    → OptionKey
    → List ValidationIssue
option_record_issues v k family n r seen key =
    error_if (not (is_positive (some key.0))) "INVALID_OPTION_MASTER_STRIKE" (at_item n "strike")
    ++ (error_if seen "DUPLICATE_OPTION_MASTER_RECORD" (at_item n "")
        ++ (error_if
              (not (same_exchange r.instrument.exchange k.underlying.exchange)
                || not
                    (str_eq (v.upper r.instrument.segment) (expected_segment k.underlying.exchange))
                || not (underlying_matches k family r.underlying_security_id))
              "OPTION_MASTER_IDENTITY_MISMATCH" (at_item n "")
            ++ (error_if (not (same_expiry r.expiry k.option_expiry))
                  "OPTION_MASTER_EXPIRY_MISMATCH" (at_item n "expiry")
                ++ error_if
                    (not (same_lot r.lot_size k.lot_size && same_tick r.tick_size k.tick_size))
                    "OPTION_MASTER_SPEC_MISMATCH" (at_item n ""))))

-- The keys and the security IDs of the records so far.
abbrev Seen : Type 0
Seen = List OptionKey × List String

abbrev was_seen : Seen → OptionKey → String → Bool
was_seen (keys, ids) key id = any (same_key key) keys || any (str_eq id) ids

abbrev record_issues :
    Validator
    → ContractSpec
    → Option String
    → ℕ
    → InstrumentMasterRecord
    → Seen
    → Option OptionKey
    → List ValidationIssue
record_issues v k family n r seen none = error_if true "INVALID_OPTION_MASTER_RECORD" (at_item n "")
record_issues v k family n r seen (some key) =
    option_record_issues v k family n r (was_seen seen key r.instrument.security_id) key

abbrev see : Option OptionKey → String → Seen → Seen
see none id seen = seen
see (some key) id (keys, ids) = (key ∷ keys, id ∷ ids)

unfoldable pub option_contracts_issues :
    Validator
    → ContractSpec
    → Option String
    → ℕ
    → Seen
    → List InstrumentMasterRecord
    → List ValidationIssue
unfolding option_record_issues
option_contracts_issues v k family n seen [] = []
option_contracts_issues v k family n seen (r ∷ rs) =
    record_issues v k family n r seen (record_key r)
    ++ option_contracts_issues v k family (suc n) (see (record_key r) r.instrument.security_id seen)
        rs

unfoldable pub validate_contract : Validator → AtomicSnapshot → DateTime → List ValidationIssue
validate_contract v s now =
    let k = s.contract in
    let family = derivative_underlying_id k.option_contracts in
    validate_expiry v.config k now
    ++ (validate_spec k
        ++ (validate_master v.config k.master now
            ++ (validate_kind k
                ++ (future_issues v k family k.futures
                    ++ option_contracts_issues v k family 0 ([], []) k.option_contracts))))
