-- ===== src/Validation/Sound.antt =====
-- What the checks of a report without an error come to: the conditions of the errors are false.
use techo_quant_options_pro.Prelude.{String, Bool, true, false, any-append, any, ◌≡◌, refl, arith}
use techo_quant_options_pro.Validation.Issues.{IssuePath, is_error, error_if, warning_if}
pub mod Fresh
pub mod Legs
pub mod Strikes
pub mod Recomputed
pub mod Changes

pub any-error_if :
    (b : Bool) (code : String) (path : IssuePath) → any is_error (error_if b code path) ≡ b
any-error_if true code path = refl
any-error_if false code path = refl

pub any-warning_if :
    (b : Bool) (code : String) (path : IssuePath) → any is_error (warning_if b code path) ≡ false
any-warning_if true code path = refl
any-warning_if false code path = refl

pub ruleset clean = (arith, any-append, any-error_if, any-warning_if)
