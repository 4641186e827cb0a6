-- ===== src/Validation/Chain.antt =====
-- `_validate_chain` of ingestion/validation.py: each quote against the contract master and the
-- other quotes, then the five strikes around the money.
use techo_quant_options_pro.Prelude.{
  ℕ, suc, String, Bool, true, false, not, ◌&&◌, Option, none, some, List, [], ◌∷◌, ◌++◌, any, map,
  length, str_eq, ltb, ℤ, pos, negsuc, if◌then◌else◌,
}
use techo_quant_options_pro.Decimal
use techo_quant_options_pro.Decimal.{Decimal, integer, less, less_eq}
use techo_quant_options_pro.Text.{is_empty}
use techo_quant_options_pro.Exec.{Result, ok, raised}
use techo_quant_options_pro.Domain.Enums.{OptionType}
use techo_quant_options_pro.Domain.Models.{
  AtomicSnapshot, ContractSpec, InstrumentMasterRecord, OptionQuote, OptionKey, quote_key, same_key,
  same_decimal, same_time, pricing_underlying,
}
use techo_quant_options_pro.Strategy.Decision.{nearest_atm}
use techo_quant_options_pro.Validation.Issues.{
  ValidationIssue, IssuePath, Validator, error_if, is_positive,
}
use techo_quant_options_pro.Validation.Contract.{record_key}
use techo_quant_options_pro.Validation.Quote.{at_quote, validate_quote}
use techo_quant_options_pro.Validation.Reference.{Cache, validate_change_oi_reference}

abbrev pub has_key : OptionKey → Option OptionKey → Bool
has_key key none = false
has_key key (some k) = same_key key k

-- `master_by_key.get(key)`: of two records with one key, the later one.
abbrev later :
    OptionKey
    → InstrumentMasterRecord
    → Option InstrumentMasterRecord
    → Option InstrumentMasterRecord
later key r (some found) = some found
later key r none = if has_key key (record_key r) then some r else none

unfoldable pub master_record :
    OptionKey → List InstrumentMasterRecord → Option InstrumentMasterRecord
master_record key [] = none
master_record key (r ∷ rs) = later key r (master_record key rs)

abbrev pub id_issues : ℕ → List String → String → List ValidationIssue
id_issues n ids id =
    if is_empty id
    then error_if true "SECURITY_ID_MISSING" (at_quote n "security_id")
    else error_if (any (str_eq id) ids) "DUPLICATE_SECURITY_ID" (at_quote n "security_id")

abbrev pub mapping_issues : ℕ → String → Option InstrumentMasterRecord → List ValidationIssue
mapping_issues n id none = error_if true "OPTION_NOT_IN_CONTRACT_MASTER" (at_quote n "")
mapping_issues n id (some r) =
    error_if (not (str_eq r.instrument.security_id id)) "OPTION_SECURITY_ID_MISMATCH"
      (at_quote n "security_id")

abbrev pub names : Option String → String → Bool
names none id = false
names (some t) id = str_eq t id

-- One pass of the loop, without what the loaded reference says.
unfoldable pub quote_issues :
    Validator
    → AtomicSnapshot
    → ℕ
    → List OptionKey
    → List String
    → OptionQuote
    → List ValidationIssue
    → List ValidationIssue
quote_issues v s n keys ids q reference =
    error_if (any (same_key (quote_key q)) keys) "DUPLICATE_STRIKE_SIDE" (at_quote n "")
    ++ (id_issues n ids q.security_id
        ++ (mapping_issues n q.security_id (master_record (quote_key q) s.contract.option_contracts)
            ++ (error_if (not (same_time q.expiry s.contract.option_expiry)) "MIXED_EXPIRY"
                  (at_quote n "expiry")
                ++ (validate_quote v.config q s.source n
                    ++ (reference
                        ++ error_if (names q.change_oi_source_snapshot_id s.snapshot_id)
                            "SELF_REFERENTIAL_CHANGE_OI"
                            (at_quote n "change_oi_source_snapshot_id"))))))

unfoldable pub quotes_issues :
    Validator
    → AtomicSnapshot
    → ℕ
    → List OptionKey
    → List String
    → Cache
    → List OptionQuote
    → List ValidationIssue
quotes_issues v s n keys ids loaded [] = []
quotes_issues v s n keys ids loaded (q ∷ quotes) =
    let (reference, loaded') = validate_change_oi_reference v s q n loaded in
    quote_issues v s n keys ids q reference
    ++ quotes_issues v s (suc n) (quote_key q ∷ keys) (q.security_id ∷ ids) loaded' quotes

-- The different positive strikes; their order does not matter to what uses them.
abbrev pub strikes_of : List OptionQuote → List Decimal
strikes_of [] = []
strikes_of (q ∷ quotes) =
    let rest = strikes_of quotes in
    if is_positive (some q.strike) && not (any (same_decimal q.strike) rest)
    then q.strike ∷ rest
    else rest

-- `atm + Decimal(offset) * interval` for the offsets -2 to 2.
abbrev pub shifted : Decimal → Decimal → ℤ → Decimal
shifted atm interval offset = Decimal.add atm (Decimal.mul (integer offset) interval)

abbrev pub five_strikes : Decimal → Decimal → List Decimal
five_strikes atm interval =
    map (shifted atm interval) (negsuc 1 ∷ negsuc 0 ∷ pos 0 ∷ pos 1 ∷ pos 2 ∷ [])

abbrev pub both_sides : List Decimal → List OptionKey
both_sides [] = []
both_sides (k ∷ ks) = (k, OptionType.call) ∷ (k, OptionType.put) ∷ both_sides ks

abbrev pub is_listed : List Decimal → Decimal → Bool
is_listed strikes k = any (same_decimal k) strikes

abbrev pub is_mapped : List InstrumentMasterRecord → OptionKey → Bool
is_mapped records key = any (λ (r : InstrumentMasterRecord). has_key key (record_key r)) records

abbrev pub is_quoted : List OptionQuote → OptionKey → Bool
is_quoted quotes key = any (λ (q : OptionQuote). same_key key (quote_key q)) quotes

abbrev some_fail {ℓ} : {A : Type ℓ} → (A → Bool) → List A → Bool
some_fail p xs = any (λ x. not (p x)) xs

unfoldable pub topology_issues :
    ContractSpec → List OptionQuote → List Decimal → Decimal → List ValidationIssue
topology_issues k quotes strikes atm =
    let expected = five_strikes atm k.strike_interval in
    error_if (some_fail (is_listed strikes) expected) "FIVE_STRIKE_TOPOLOGY_INVALID"
      (IssuePath.field "option_chain")
    ++ (error_if (some_fail (is_mapped k.option_contracts) (both_sides expected))
          "FIVE_STRIKE_MASTER_MAPPING_MISSING" (IssuePath.field "contract.option_contracts")
        ++ error_if (some_fail (is_quoted quotes) (both_sides expected)) "FIVE_STRIKE_LEG_MISSING"
            (IssuePath.field "option_chain"))

-- `nearest_atm` is called with a positive price and five strikes, where it does not raise.
abbrev pub around_issues :
    ContractSpec → List OptionQuote → List Decimal → Result Decimal → List ValidationIssue
around_issues k quotes strikes (raised kind message) = []
around_issues k quotes strikes (ok atm) =
    if not (is_positive (some k.strike_interval)) then [] else topology_issues k quotes strikes atm

abbrev pub strikes_issues :
    ContractSpec → List OptionQuote → List Decimal → Option Decimal → List ValidationIssue
strikes_issues k quotes strikes none = []
strikes_issues k quotes strikes (some underlying) =
    if not (is_positive (some underlying))
    then []
    else if ltb (length strikes) 5
    then error_if true "FIVE_STRIKES_UNAVAILABLE" (IssuePath.field "option_chain")
    else around_issues k quotes strikes (nearest_atm underlying strikes)

abbrev pub chain_issues : Validator → AtomicSnapshot → List OptionQuote → List ValidationIssue
chain_issues v s [] = error_if true "OPTION_CHAIN_MISSING" (IssuePath.field "option_chain")
chain_issues v s (q ∷ quotes) =
    quotes_issues v s 0 [] [] [] (q ∷ quotes)
    ++ strikes_issues s.contract (q ∷ quotes) (strikes_of (q ∷ quotes))
        (pricing_underlying s.market s.contract.market_kind)

unfoldable pub validate_chain : Validator → AtomicSnapshot → List ValidationIssue
validate_chain v s = chain_issues v s s.option_chain
