-- ===== src/Execution/StoredTests.antt =====
-- A plan that is stored and loaded, with conversions that know its values.
use techo_quant_options_pro.Prelude.{
  ℕ, String, Bool, true, false, ◌≡◌, refl, str_eq, ◌==◌, ◌*◌, pos, ◌*ℤ◌, if◌then◌else◌,
}
use techo_quant_options_pro.Decimal.{Decimal, finite, integer, less}
use techo_quant_options_pro.Time.{DateTime}
use techo_quant_options_pro.Execution.Errors.{ErrorKind}
use techo_quant_options_pro.Execution.Fixtures.{at, plan}
use techo_quant_options_pro.Execution.Models.Stored.{
  JsonValue, Conversions, IsReadBack, plan_to_dict, plan_from_dict, stored_plan,
}
use techo_quant_options_pro.Exec.{Result, ok, raised}

abbrev price_text : Decimal → String
price_text d = if less d (integer (pos 1000)) then "100.50" else "2000"

abbrev price_of : String → Result Decimal
price_of s =
    if str_eq s "100.50"
    then ok (finite (pos 10050) 2)
    else if str_eq s "2000"
    then ok (integer (pos 2000))
    else raised ErrorKind.invalid_operation ""

abbrev clock_text : DateTime → String
clock_text t =
    if t.instant == 99990 * 1000000
    then "a"
    else if t.instant == 99995 * 1000000
    then "b"
    else if t.instant == 100060 * 1000000
    then "c"
    else "d"

abbrev clock_of : String → Result DateTime
clock_of s =
    if str_eq s "a"
    then ok (at 99990)
    else if str_eq s "b"
    then ok (at 99995)
    else if str_eq s "c"
    then ok (at 100060)
    else if str_eq s "d"
    then ok (at 200000)
    else raised ErrorKind.value_error ""

abbrev string_of : JsonValue → String
string_of (JsonValue.text s) = s
string_of _ = ""

abbrev whole_of : JsonValue → Result ℕ
whole_of (JsonValue.number n) = ok n
whole_of _ = raised ErrorKind.value_error ""

abbrev truth_of : JsonValue → Bool
truth_of (JsonValue.flag b) = b
truth_of JsonValue.null = false
truth_of _ = true

abbrev conversions : Conversions
conversions = record {
  decimal_text = price_text;
  decimal_of = price_of;
  time_text = clock_text;
  time_of = clock_of;
  text_of = string_of;
  int_of = whole_of;
  bool_of = truth_of;
}

reads_back : IsReadBack conversions (plan "s-1")
unfolding less ◌*ℤ◌
reads_back = record {
  strings = λ s. refl;
  numbers = refl;
  flags = λ b. refl;
  price = refl;
  loss = refl;
  signal_time = refl;
  data_time = refl;
  valid_until = refl;
  contract_expiry = refl;
}

stored_plan_example :
    plan_from_dict conversions (plan_to_dict conversions (plan "s-1")) ≡ ok (plan "s-1")
stored_plan_example = stored_plan conversions (plan "s-1") reads_back
