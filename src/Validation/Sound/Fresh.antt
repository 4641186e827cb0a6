-- ===== src/Validation/Sound/Fresh.antt =====
-- What an accepted report says of the times of a snapshot.
use techo_quant_options_pro.Prelude.{true, false, List, [], ◌∷◌, ◌≡◌, str_eq, All, any}
use techo_quant_options_pro.Decimal.{less, less_eq}
use techo_quant_options_pro.Time.{DateTime}
use techo_quant_options_pro.Domain.Models.{AtomicSnapshot, ContractSpec, InstrumentMasterProvenance}
use techo_quant_options_pro.Domain.Clock.{seconds_between}
use techo_quant_options_pro.Strategy.Config.{StrategyConfig, nought}
use techo_quant_options_pro.Validation.Issues.{Validator, IssuePath, is_error, accepted}
use techo_quant_options_pro.Validation.Sound.{clean}
use techo_quant_options_pro.Validation.Envelope.{
  validate_envelope, validate_component_coherence, component_issues, component_times, is_stale,
  is_future,
}
use techo_quant_options_pro.Validation.Contract.{
  validate_contract, validate_expiry, validate_master,
}
use techo_quant_options_pro.Validation.State.{
  validate_market, validate_technicals, validate_context,
}
use techo_quant_options_pro.Validation.Chain.{validate_chain}
use techo_quant_options_pro.Validation.Snapshot.{validate, snapshot_issues}

-- Not older than the maximal age, and not later than the clock's skew allows.
pub record IsFresh (c : StrategyConfig) (now t : DateTime) : Type 0 where
  pub young : t.aware ≡ true → is_stale c now t ≡ false
  pub past : t.aware ≡ true → is_future c now t ≡ false

components_IsFresh :
    (c : StrategyConfig) (now : DateTime) (times : List (IssuePath × DateTime))
    → any is_error (component_issues c now times) ≡ false
    → All (λ (e : IssuePath × DateTime). IsFresh c now e.1) times
unfolding component_issues
components_IsFresh c now [] h = tt
components_IsFresh c now ((path, t) ∷ rest) h = (
  record { young = λ a. grind clean; past = λ a. grind clean },
  components_IsFresh c now rest (grind clean),
)

-- The snapshot is of this version of the strategy and of this moment.
pub record IsCurrent (v : Validator) (s : AtomicSnapshot) (now : DateTime) : Type 0 where
  pub clock : now.aware ≡ true
  pub version : str_eq s.strategy_version v.config.version ≡ true
  pub source_aware : s.source_timestamp.aware ≡ true
  pub received_aware : s.received_at.aware ≡ true
  pub received_after : is_future v.config s.received_at s.source_timestamp ≡ false
  pub components : All (λ (e : IssuePath × DateTime). IsFresh v.config now e.1) (component_times s)
  pub expiry_aware : s.contract.option_expiry.aware ≡ true
  pub unexpired : less_eq (seconds_between s.contract.option_expiry now) nought ≡ false
  pub master_aware : s.contract.master.fetched_at.aware ≡ true
  pub master_young :
      less v.config.instrument_master_max_age_seconds
        (seconds_between now s.contract.master.fetched_at)
      ≡ false
  pub master_past : is_future v.config now s.contract.master.fetched_at ≡ false

-- The errors of the five groups of checks, none of which has one.
pub record IsWhole (v : Validator) (s : AtomicSnapshot) (now : DateTime) : Type 0 where
  pub clock : now.aware ≡ true
  pub envelope : any is_error (validate_envelope v s now) ≡ false
  pub contract : any is_error (validate_contract v s now) ≡ false
  pub market : any is_error (validate_market s) ≡ false
  pub technicals : any is_error (validate_technicals s) ≡ false
  pub context : any is_error (validate_context v s) ≡ false
  pub chain : any is_error (validate_chain v s) ≡ false
  pub coherence : any is_error (validate_component_coherence v s now) ≡ false

pub accepted-IsWhole :
    (v : Validator) (s : AtomicSnapshot) (now : DateTime)
    → accepted (validate v s now) ≡ true
    → IsWhole v s now
unfolding validate snapshot_issues
accepted-IsWhole v s now h = grind clean

coherence_parts :
    (v : Validator) (s : AtomicSnapshot) (now : DateTime)
    → any is_error (validate_component_coherence v s now) ≡ false
    → any is_error (component_issues v.config now (component_times s)) ≡ false
unfolding validate_component_coherence
coherence_parts v s now h = grind clean

contract_parts :
    (v : Validator) (s : AtomicSnapshot) (now : DateTime)
    → any is_error (validate_contract v s now) ≡ false
    → (any is_error (validate_expiry v.config s.contract now) ≡ false)
      × (any is_error (validate_master v.config s.contract.master now) ≡ false)
unfolding validate_contract
contract_parts v s now h = grind clean

expiry_parts :
    (c : StrategyConfig) (k : ContractSpec) (now : DateTime)
    → any is_error (validate_expiry c k now) ≡ false
    → (k.option_expiry.aware ≡ true)
      × (less_eq (seconds_between k.option_expiry now) nought ≡ false)
unfolding validate_expiry
expiry_parts c k now h = grind clean

master_aware_part :
    (c : StrategyConfig) (m : InstrumentMasterProvenance) (now : DateTime)
    → any is_error (validate_master c m now) ≡ false
    → m.fetched_at.aware ≡ true
unfolding validate_master
master_aware_part c m now h = grind clean

master_parts :
    (c : StrategyConfig) (m : InstrumentMasterProvenance) (now : DateTime)
    → any is_error (validate_master c m now) ≡ false
    → m.fetched_at.aware ≡ true
    → (less c.instrument_master_max_age_seconds (seconds_between now m.fetched_at) ≡ false)
      × (is_future c now m.fetched_at ≡ false)
unfolding validate_master
master_parts c m now h a = grind clean

envelope_parts :
    (v : Validator) (s : AtomicSnapshot) (now : DateTime)
    → any is_error (validate_envelope v s now) ≡ false
    → (str_eq s.strategy_version v.config.version ≡ true)
      × (s.source_timestamp.aware ≡ true)
      × (s.received_at.aware ≡ true)
unfolding validate_envelope
envelope_parts v s now h = grind clean

received_part :
    (v : Validator) (s : AtomicSnapshot) (now : DateTime)
    → any is_error (validate_envelope v s now) ≡ false
    → s.source_timestamp.aware ≡ true
    → s.received_at.aware ≡ true
    → is_future v.config s.received_at s.source_timestamp ≡ false
unfolding validate_envelope
received_part v s now h a b = grind clean

-- A report is accepted only at an aware time, for a snapshot of the validator's strategy version
-- with aware source and receipt times, none of whose components is older than the maximal age or
-- later than the clock skew, whose option expiry lies ahead, and whose contract master is neither
-- stale nor future-dated.
pub accepted-IsCurrent :
    (v : Validator) (s : AtomicSnapshot) (now : DateTime)
    → accepted (validate v s now) ≡ true
    → IsCurrent v s now
accepted-IsCurrent v s now h =
    let w = accepted-IsWhole v s now h in
    let (expiry, master) = contract_parts v s now w.contract in
    let (expiry_aware, unexpired) = expiry_parts v.config s.contract now expiry in
    let m = s.contract.master in
    let a = master_aware_part v.config m now master in
    let (young, past) = master_parts v.config m now master a in
    let (version, source_aware, received_aware) = envelope_parts v s now w.envelope in
    record {
      clock = w.clock;
      version = version;
      source_aware = source_aware;
      received_aware = received_aware;
      received_after = received_part v s now w.envelope source_aware received_aware;
      components =
          components_IsFresh v.config now (component_times s) (coherence_parts v s now w.coherence);
      expiry_aware = expiry_aware;
      unexpired = unexpired;
      master_aware = a;
      master_young = young;
      master_past = past;
    }
