-- ===== src/Validation/Tests.antt =====
-- The validator on the concrete snapshot, and the theorems at it.
use techo_quant_options_pro.Prelude.{true, ◌≡◌, refl, ◌*ℤ◌, ◌-ℤ◌, All}
use techo_quant_options_pro.Decimal
use techo_quant_options_pro.Decimal.{is_finite, less, less_eq, negate}
use techo_quant_options_pro.Float
use techo_quant_options_pro.Float.{of_decimal, round_ratio, absolute}
use techo_quant_options_pro.Text.{is_digest, is_empty, is_blank, strip, starts_with}
use techo_quant_options_pro.Domain.Clock.{seconds_between}
use techo_quant_options_pro.Domain.Models.{spread_ratio}
use techo_quant_options_pro.Strategy.Decision.{nearest_atm, nearest_from}
use techo_quant_options_pro.Validation.Issues.{accepted}
use techo_quant_options_pro.Validation.Envelope.{
  validate_envelope, validate_component_coherence, component_issues,
}
use techo_quant_options_pro.Validation.Contract.{
  validate_contract, validate_expiry, validate_spec, validate_master, validate_kind,
  derivative_underlying_id, validate_future_record, option_record_issues, option_contracts_issues,
}
use techo_quant_options_pro.Validation.State.{
  validate_market, validate_technicals, validate_context,
}
use techo_quant_options_pro.Validation.Quote.{change_oi_issues, validate_quote}
use techo_quant_options_pro.Validation.Reference.{
  interval_mismatch, prior_leg_issues, previous_issues, validate_change_oi_reference,
}
use techo_quant_options_pro.Validation.Chain.{
  master_record, quote_issues, quotes_issues, topology_issues, validate_chain,
}
use techo_quant_options_pro.Validation.Snapshot.{validate, snapshot_issues}
use techo_quant_options_pro.Validation.Sound.Fresh.{IsCurrent, accepted-IsCurrent}
use techo_quant_options_pro.Validation.Sound.Strikes.{IsChain, accepted-IsChain}
use techo_quant_options_pro.Validation.Sound.Changes.{IsChangeChecked, accepted-IsChangeChecked}
use techo_quant_options_pro.Validation.Fixtures.{validator, snapshot, second}

pub clean_report : accepted (validate validator snapshot (second 100001)) ≡ true
unfolding ◌*ℤ◌ ◌-ℤ◌ is_finite less less_eq negate Decimal.add Decimal.sub Decimal.mul Decimal.divide
    of_decimal round_ratio absolute Float.sub is_digest is_empty is_blank strip starts_with
    seconds_between spread_ratio nearest_atm nearest_from validate_envelope
    validate_component_coherence component_issues validate_contract validate_expiry validate_spec
    validate_master validate_kind derivative_underlying_id validate_future_record
    option_record_issues option_contracts_issues validate_market validate_technicals
    validate_context change_oi_issues validate_quote interval_mismatch prior_leg_issues
    previous_issues validate_change_oi_reference master_record quote_issues quotes_issues
    topology_issues validate_chain validate snapshot_issues
clean_report = refl

accepted-IsCurrent_example : IsCurrent validator snapshot (second 100001)
accepted-IsCurrent_example = accepted-IsCurrent validator snapshot (second 100001) clean_report

accepted-IsChain_example : IsChain validator snapshot
accepted-IsChain_example = accepted-IsChain validator snapshot (second 100001) clean_report

accepted-IsChangeChecked_example : All (IsChangeChecked validator snapshot) snapshot.option_chain
accepted-IsChangeChecked_example =
    accepted-IsChangeChecked validator snapshot (second 100001) clean_report
