-- ===== src/Validation/Envelope.antt =====
-- `_validate_envelope` and `_validate_component_coherence` of ingestion/validation.py.
use techo_quant_options_pro.Prelude.{
  ℕ, suc, String, Bool, true, false, not, ◌&&◌, Option, none, some, List, [], ◌∷◌, ◌++◌, str_eq,
  pos, ltb_ℤ, if◌then◌else◌,
}
use techo_quant_options_pro.Decimal.{less, negate}
use techo_quant_options_pro.Float.{Float}
use techo_quant_options_pro.Time.{DateTime, before}
use techo_quant_options_pro.Domain.Enums.{DataSource, same_source}
use techo_quant_options_pro.Domain.Models.{
  AtomicSnapshot, OptionQuote, ComponentHashes, same_hashes, component_hashes,
}
use techo_quant_options_pro.Domain.Clock.{seconds_between}
use techo_quant_options_pro.Strategy.Config.{StrategyConfig}
use techo_quant_options_pro.Validation.Issues.{
  ValidationIssue, IssuePath, Validator, error_if, warning_if, require_aware, is_sha256,
}

abbrev age_of : DateTime → DateTime → Float
age_of now t = seconds_between now t

abbrev pub is_stale : StrategyConfig → DateTime → DateTime → Bool
is_stale c now t = less c.live_max_age_seconds (age_of now t)

abbrev pub is_future : StrategyConfig → DateTime → DateTime → Bool
is_future c now t = less (age_of now t) (negate c.future_clock_skew_seconds)

abbrev hashes_match : Option ComponentHashes → ComponentHashes → Bool
hashes_match none expected = false
hashes_match (some observed) expected = same_hashes observed expected

abbrev text_is : Option String → Option String → Bool
text_is none none = true
text_is (some a) (some b) = str_eq a b
text_is _ _ = false

-- The payload, a digest, the digest of that payload, and the digest of the raw payload.
abbrev payload_checked : Validator → Option String → Option String → Option String → Bool
payload_checked v (some payload) (some digest) raw_hash =
    is_sha256 (some digest)
    && str_eq (v.hash.of_text payload) digest
    && text_is (some digest) raw_hash
payload_checked v _ _ raw_hash = false

abbrev is_dhan : DataSource → Bool
is_dhan source = same_source source DataSource.dhan_rest

unfoldable pub validate_envelope : Validator → AtomicSnapshot → DateTime → List ValidationIssue
validate_envelope v s now =
    let c = v.config in
    let aware = s.source_timestamp.aware in
    error_if (ltb_ℤ s.sequence (pos 0)) "INVALID_SEQUENCE" (IssuePath.field "sequence")
    ++ (error_if (not (str_eq s.strategy_version c.version)) "STRATEGY_VERSION_MISMATCH"
          (IssuePath.field "strategy_version")
        ++ (require_aware s.source_timestamp (IssuePath.field "source_timestamp")
            ++ (require_aware s.received_at (IssuePath.field "received_at")
                ++ (error_if (aware && is_stale c now s.source_timestamp) "STALE_DATA"
                      (IssuePath.field "source_timestamp")
                    ++ (error_if (aware && is_future c now s.source_timestamp) "FUTURE_DATED_DATA"
                          (IssuePath.field "source_timestamp")
                        ++ (error_if
                              (aware
                                && s.received_at.aware
                                && is_future c s.received_at s.source_timestamp)
                              "RECEIVED_BEFORE_SOURCE" (IssuePath.field "received_at")
                            ++ (warning_if (not (is_sha256 s.metadata.raw_payload_hash))
                                  "RAW_HASH_MISSING" (IssuePath.field "metadata.raw_payload_hash")
                                ++ (error_if
                                      (not (
                                        hashes_match s.metadata.normalized_component_hashes
                                          (component_hashes v.hash s)))
                                      "COMPONENT_HASH_MISMATCH"
                                      (IssuePath.field "metadata.normalized_component_hashes")
                                    ++ error_if
                                        (is_dhan s.source
                                          && not (
                                              payload_checked v s.metadata.raw_option_payload
                                                s.metadata.raw_option_hash
                                                s.metadata.raw_payload_hash))
                                        "RAW_COMPONENT_PROVENANCE_INVALID"
                                        (IssuePath.field
                                          "metadata.raw_component_payloads.option_chain")))))))))

-- The loop over the components' times.
unfoldable pub component_issues :
    StrategyConfig → DateTime → List (IssuePath × DateTime) → List ValidationIssue
component_issues c now [] = []
component_issues c now ((path, t) ∷ rest) =
    (if t.aware && is_stale c now t
      then error_if true "STALE_COMPONENT" path
      else error_if (t.aware && is_future c now t) "FUTURE_DATED_COMPONENT" path)
    ++ component_issues c now rest

abbrev pub quote_times : ℕ → List OptionQuote → List (IssuePath × DateTime)
quote_times n [] = []
quote_times n (q ∷ quotes) =
    (IssuePath.item "option_chain" n "observed_at", q.observed_at) ∷ quote_times (suc n) quotes

abbrev pub component_times : AtomicSnapshot → List (IssuePath × DateTime)
component_times s =
    (IssuePath.field "source_timestamp", s.source_timestamp)
    ∷ (IssuePath.field "market.observed_at", s.market.observed_at)
    ∷ (IssuePath.field "technicals.observed_at", s.technicals.observed_at)
    ∷ quote_times 0 s.option_chain

abbrev aware_times : List (IssuePath × DateTime) → List DateTime
aware_times [] = []
aware_times ((path, t) ∷ rest) =
    let others = aware_times rest in if t.aware then t ∷ others else others

-- `max` and `min` of a list with this first value.
abbrev latest : DateTime → List DateTime → DateTime
latest t [] = t
latest t (u ∷ ts) = latest (if before t u then u else t) ts

abbrev earliest : DateTime → List DateTime → DateTime
earliest t [] = t
earliest t (u ∷ ts) = earliest (if before u t then u else t) ts

abbrev skew_issues : StrategyConfig → List DateTime → List ValidationIssue
skew_issues c [] = []
skew_issues c (t ∷ ts) =
    error_if (less c.component_skew_seconds (seconds_between (latest t ts) (earliest t ts)))
      "ATOMIC_SNAPSHOT_SKEW" (IssuePath.field "snapshot")

unfoldable pub validate_component_coherence :
    Validator → AtomicSnapshot → DateTime → List ValidationIssue
unfolding component_issues
validate_component_coherence v s now =
    component_issues v.config now (component_times s)
    ++ skew_issues v.config (aware_times (component_times s))
