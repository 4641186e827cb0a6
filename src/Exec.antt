-- ===== src/Exec.antt =====
-- Methods that change an object and may raise: state passing, where the state comes back beside
-- an exception too, since what was written stays written.
pub mod Triple
pub mod Outcome
pub mod Results
use techo_quant_options_pro.Prelude.{String, Bool, true, false}
use techo_quant_options_pro.Execution.Errors.{ErrorKind}

pub data Result {ℓ} (A : Type ℓ) : Type ℓ where
  ok : A → Result A
  raised : ErrorKind → String → Result A

abbrev pub Exec {ℓ} : Type ℓ → Type ℓ → Type ℓ
Exec S A = S → Result A × S

-- A pure check: it passes, or raises the exception of this kind with this message.
abbrev pub raise_if : Bool → ErrorKind → String → Result (Unit {0})
raise_if true kind message = raised kind message
raise_if false kind message = ok tt

-- Checks in sequence: the first that raises ends it.
infixr 5 ◌then_check◌
abbrev pub ◌then_check◌ : Result (Unit {0}) → Result (Unit {0}) → Result (Unit {0})
ok _ then_check rest = rest
raised kind message then_check rest = raised kind message

module _ {ℓ} {S A : Type ℓ} where
  abbrev pub pure : A → Exec S A
  pure a s = (ok a, s)

  abbrev pub raise : ErrorKind → String → Exec S A
  raise kind message s = (raised kind message, s)

  abbrev pub lift : Result A → Exec S A
  lift r s = (r, s)

  abbrev pub gets : (S → A) → Exec S A
  gets f s = (ok (f s), s)

  -- `with self._transaction()`: an exception rolls the state back and goes on.
  abbrev pub settle : Result A → S → S → Result A × S
  settle (ok a) old new = (ok a, new)
  settle (raised kind message) old new = (raised kind message, old)

  unfoldable pub transaction : Exec S A → Exec S A
  transaction m s = let (r, s') = m s in settle r s s'

abbrev pub modify {ℓ} : {S : Type ℓ} → (S → S) → S → Result (Unit {0}) × S
modify f s = (ok tt, f s)

abbrev pub continue {ℓ} : {S A B : Type ℓ} → Result A → (A → Exec S B) → S → Result B × S
continue (ok a) f s = f a s
continue (raised kind message) f s = (raised kind message, s)

infixl 5 ◌>>=◌ ◌>>◌
abbrev pub ◌>>=◌ {ℓ} : {S A B : Type ℓ} → Exec S A → (A → Exec S B) → Exec S B
◌>>=◌ m f s = let (r, s') = m s in continue r f s'

abbrev pub ◌>>◌ {ℓ} : {S A B : Type ℓ} → Exec S A → Exec S B → Exec S B
m >> n = m >>= λ _. n
