-- ===== src/Execution/Controller/Refusals/Rules.antt =====
-- Rules for which actions raise `ExecutionBlockedError` of execution/errors.py.
use techo_quant_options_pro.Prelude.{String, Bool, true, false, ◌≡◌, refl, arith, if◌then◌else◌}
use techo_quant_options_pro.Time.{DateTime}
use techo_quant_options_pro.Execution.Errors.{ErrorKind}
use techo_quant_options_pro.Execution.Ledger.Rows.{timestamp}
use techo_quant_options_pro.Exec.{
  Result, ok, raised, Exec, raise_if, settle, continue, pure, raise, lift, gets, modify,
  transaction, ◌>>=◌, ◌then_check◌,
}

abbrev pub is_blocked : ErrorKind → Bool
is_blocked ErrorKind.execution_blocked = true
is_blocked _ = false

-- The call returned, or raised another error.
abbrev pub Unblocked : {A : Type 0} → Result A → Type 0
Unblocked (ok a) = Unit
Unblocked (raised k m) = is_blocked k ≡ false

pub record NeverBlocks {S A : Type 0} (m : Exec S A) : Type 0 where
  pub at : (s : S) → Unblocked (m s).0

module _ {S A : Type 0} where
  pub NeverBlocks-pure : (a : A) → NeverBlocks {S = S} (pure a)
  NeverBlocks-pure a = record { at = λ s. tt }

  pub NeverBlocks-lift : (r : Result A) → Unblocked r → NeverBlocks {S = S} (lift r)
  NeverBlocks-lift r h = record { at = λ s. h }

  pub NeverBlocks-raise :
      (k : ErrorKind) (m : String) → is_blocked k ≡ false → NeverBlocks {S = S} (raise {A = A} k m)
  NeverBlocks-raise k m h = record { at = λ s. h }

  pub NeverBlocks-gets : (f : S → A) → NeverBlocks (gets f)
  NeverBlocks-gets f = record { at = λ s. tt }

  pub NeverBlocks-if :
      (b : Bool) (m n : Exec S A) → NeverBlocks m → NeverBlocks n → NeverBlocks (if b then m else n)
  NeverBlocks-if true m n hm hn = hm
  NeverBlocks-if false m n hm hn = hn

  settled : (r : Result A) (s s' : S) → Unblocked r → Unblocked (settle r s s').0
  settled (ok a) s s' h = h
  settled (raised k m) s s' h = h

  pub NeverBlocks-transaction : (m : Exec S A) → NeverBlocks m → NeverBlocks (transaction m)
  unfolding transaction
  NeverBlocks-transaction m h = record { at = λ s. settled (m s).0 s (m s).1 (h.at s) }

module _ {S A B : Type 0} where
  continued :
      (r : Result A) (f : A → Exec S B) (s : S)
      → Unblocked r
      → ((a : A) → NeverBlocks (f a))
      → Unblocked (continue r f s).0
  continued (ok a) f s h k = (k a).at s
  continued (raised e m) f s h k = h

  pub NeverBlocks-bind :
      (m : Exec S A) (f : A → Exec S B)
      → NeverBlocks m
      → ((a : A) → NeverBlocks (f a))
      → NeverBlocks (m >>= f)
  NeverBlocks-bind m f h k = record { at = λ s. continued (m s).0 f (m s).1 (h.at s) k }

pub NeverBlocks-modify : {S : Type 0} (f : S → S) → NeverBlocks (modify f)
NeverBlocks-modify f = record { at = λ s. tt }

pub Unblocked-raise_if :
    (b : Bool) (k : ErrorKind) (m : String) → is_blocked k ≡ false → Unblocked (raise_if b k m)
Unblocked-raise_if true k m h = h
Unblocked-raise_if false k m h = tt

pub Unblocked-then_check :
    (r q : Result (Unit {0})) → Unblocked r → Unblocked q → Unblocked (r then_check q)
Unblocked-then_check (ok a) q h k = k
Unblocked-then_check (raised e m) q h k = h

pub timestamp-Unblocked : (t : DateTime) → Unblocked (timestamp t)
timestamp-Unblocked t = ground arith

pub ruleset block_rules = (
  refl, NeverBlocks-pure, NeverBlocks-lift, NeverBlocks-raise, NeverBlocks-gets, NeverBlocks-if,
  NeverBlocks-transaction, NeverBlocks-bind, NeverBlocks-modify, Unblocked-raise_if,
  Unblocked-then_check, timestamp-Unblocked,
)
