-- ===== src/Automation/History.antt =====
-- `SignalHistoryRepository` of automation/history.py: a table with a row for each evaluation.
use Prim.Native.String.{◌++◌ as text_append}
use techo_quant_options_pro.Prelude.{
  ℕ, ◌*◌, true, String, Bool, not, List, [], ◌∷◌, ◌++◌, any, length, str_eq, ℤ, pos, if◌then◌else◌,
}
use techo_quant_options_pro.Decimal.{integer, floor}
use techo_quant_options_pro.Float
use techo_quant_options_pro.Float.{Float}
use techo_quant_options_pro.Time.{DateTime}
use techo_quant_options_pro.Execution.Errors.{ErrorKind}
use techo_quant_options_pro.Exec.{ok, raised, Exec}
use techo_quant_options_pro.Domain.Clock.{seconds_between}
use techo_quant_options_pro.Signals.Models.{SignalPipelineResult}

-- The columns that are parts of the result are read off it.
pub record Evaluation : Type 0 where
  pub evaluation_id : String
  pub generated_at_us : ℤ
  pub result : SignalPipelineResult

abbrev pub History : Type 0
History = List Evaluation

abbrev unix_epoch : DateTime
unix_epoch = record { instant = 62135596800 * 1000000; aware = true }

-- `int(utc.timestamp() * 1_000_000)` for a time from 1970 on; the part of a microsecond that the
-- float loses is dropped.
abbrev epoch_microseconds : DateTime → ℤ
epoch_microseconds t = floor (Float.mul (seconds_between t unix_epoch) (integer (pos 1000000)))

abbrev pub has_id : String → Evaluation → Bool
has_id id e = str_eq e.evaluation_id id

-- `INSERT OR IGNORE`: a row with this primary key stays as it is.
abbrev pub insert_or_ignore : Evaluation → History → History
insert_or_ignore e h = if any (has_id e.evaluation_id) h then h else h ++ (e ∷ [])

abbrev pub evaluation_of : (SignalPipelineResult → String) → SignalPipelineResult → Evaluation
evaluation_of hash result = record {
  evaluation_id = text_append "evaluation:" (hash result);
  generated_at_us = epoch_microseconds result.generated_at;
  result = result;
}

-- The hash of a result is a parameter.
unfoldable pub record_evaluation :
    (SignalPipelineResult → String) → SignalPipelineResult → Exec History String
record_evaluation hash result h =
    if not result.generated_at.aware
    then (raised ErrorKind.value_error "signal history requires a timezone-aware generated time", h)
    else (
      ok (evaluation_of hash result).evaluation_id,
      insert_or_ignore (evaluation_of hash result) h,
    )

abbrev pub count : History → ℕ
count h = length h
