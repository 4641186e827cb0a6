-- ===== src/Validation/Snapshot.antt =====
-- `SnapshotValidator.validate` of ingestion/validation.py.
use techo_quant_options_pro.Prelude.{List, ◌++◌, if◌then◌else◌}
use techo_quant_options_pro.Time.{DateTime}
use techo_quant_options_pro.Domain.Models.{AtomicSnapshot}
use techo_quant_options_pro.Validation.Issues.{
  ValidationIssue, ValidationReport, IssuePath, Validator, require_aware,
}
use techo_quant_options_pro.Validation.Envelope.{validate_envelope, validate_component_coherence}
use techo_quant_options_pro.Validation.Contract.{validate_contract}
use techo_quant_options_pro.Validation.State.{
  validate_market, validate_technicals, validate_context,
}
use techo_quant_options_pro.Validation.Chain.{validate_chain}

-- The checks in their order.
unfoldable pub snapshot_issues : Validator → AtomicSnapshot → DateTime → List ValidationIssue
snapshot_issues v s now =
    validate_envelope v s now
    ++ (validate_contract v s now
        ++ (validate_market s
            ++ (validate_technicals s
                ++ (validate_context v s
                    ++ (validate_chain v s ++ validate_component_coherence v s now)))))

unfoldable pub validate : Validator → AtomicSnapshot → DateTime → ValidationReport
validate v s now = record {
  issues =
      if now.aware
      then snapshot_issues v s now
      else require_aware now (IssuePath.field "evaluation_time");
  snapshot_id = s.snapshot_id;
  snapshot_hash = v.hash.of_snapshot s;
}
