-- ===== src/Exec/Outcome.antt =====
-- What an action that returns, or that raises, tells of its parts.
use techo_quant_options_pro.Prelude.{String, Bool, true, false, ◌≡◌, ◌∙◌, refl, sym, ap}
use techo_quant_options_pro.Execution.Errors.{ErrorKind}
use techo_quant_options_pro.Exec.{
  Result, ok, raised, Exec, raise_if, settle, continue, transaction, ◌>>=◌, ◌then_check◌,
}

pub data Outcome {ℓ} {A : Type ℓ} (r : Result A) : Type ℓ where
  returned : (a : A) → r ≡ ok a → Outcome r
  failed : (k : ErrorKind) (message : String) → r ≡ raised k message → Outcome r

pub outcome {ℓ} : {A : Type ℓ} (r : Result A) → Outcome r
outcome (ok a) = Outcome.returned a refl
outcome (raised k m) = Outcome.failed k m refl

-- The call raised.
abbrev pub IsRaised {ℓ} : {A : Type ℓ} → Result A → Type 0
IsRaised (ok a) = ⊥
IsRaised (raised k m) = Unit

module _ {ℓ} {S A B : Type ℓ} where
  continue-ok :
      (r : Result A) (f : A → Exec S B) (s : S) (b : B)
      → (continue r f s).0 ≡ ok b
      → (a : A) × (r ≡ ok a) × (continue r f s ≡ f a s)
  continue-ok (ok a) f s b h = (a, refl, refl)
  continue-ok (raised k m) f s b h = cc

  -- A block that returns has a first step that returned, and goes on from there.
  pub bind-ok :
      (m : Exec S A) (f : A → Exec S B) (s : S) (b : B)
      → ((m >>= f) s).0 ≡ ok b
      → (a : A) × ((m s).0 ≡ ok a) × ((m >>= f) s ≡ f a (m s).1)
  bind-ok m f s b h = continue-ok (m s).0 f (m s).1 b h

  -- The steps of a block, one at a time.
  pub bind_returned :
      (m : Exec S A) (f : A → Exec S B) (s : S) (a : A) → (m s).0 ≡ ok a → (m >>= f) s ≡ f a (m s).1
  bind_returned m f s a e = ap (λ r. continue r f (m s).1) e

  pub bind_raised :
      (m : Exec S A) (f : A → Exec S B) (s : S) (k : ErrorKind) (message : String)
      → (m s).0 ≡ raised k message
      → (m >>= f) s ≡ (raised k message, (m s).1)
  bind_raised m f s k message e = ap (λ r. continue r f (m s).1) e

module _ {ℓ} {S A : Type ℓ} where
  settle-ok :
      (r : Result A) (old new : S) (a : A)
      → (settle r old new).0 ≡ ok a
      → (r ≡ ok a) × (settle r old new ≡ (r, new))
  settle-ok (ok b) old new a h = (h, refl)
  settle-ok (raised k m) old new a h = cc

  -- A transaction that returns has committed.
  pub transaction-ok :
      (m : Exec S A) (s : S) (a : A)
      → (transaction m s).0 ≡ ok a
      → ((m s).0 ≡ ok a) × (transaction m s ≡ m s)
  unfolding transaction
  transaction-ok m s a h = settle-ok (m s).0 s (m s).1 a h

  settle_raised :
      (r : Result A) (old new : S) → IsRaised (settle r old new).0 → (settle r old new).1 ≡ old
  settle_raised (ok a) old new h = absurd h
  settle_raised (raised k m) old new h = refl

  -- A transaction that raises has changed nothing.
  pub transaction_raised :
      (m : Exec S A) (s : S) → IsRaised (transaction m s).0 → (transaction m s).1 ≡ s
  unfolding transaction
  transaction_raised m s h = settle_raised (m s).0 s (m s).1 h

pub raise_if-ok :
    (b : Bool) (k : ErrorKind) (message : String) {u : Unit {0}}
    → raise_if b k message ≡ ok u
    → b ≡ false
raise_if-ok true k message h = cc
raise_if-ok false k message h = refl

pub then_check-ok :
    (r q : Result (Unit {0})) {u : Unit {0}} → (r then_check q) ≡ ok u → (r ≡ ok tt) × (q ≡ ok tt)
then_check-ok (ok a) q h = (refl, h)
then_check-ok (raised k m) q h = cc

module _ {ℓ} {S A B : Type ℓ} where
  -- One step of a block that returns: what the first part does when it returns, then the rest.
  pub bind_step :
      (m : Exec S A) (f : A → Exec S B) (s t : S) (a : A) (b : B)
      → ((u : A) → (m s).0 ≡ ok u → m s ≡ (ok a, t))
      → ((m >>= f) s).0 ≡ ok b
      → ((m >>= f) s ≡ f a t) × ((f a t).0 ≡ ok b)
  bind_step m f s t a b spec h =
      let (u, first, rest) = bind-ok m f s b h in
      let step = ap (λ (r : Result A × S). continue r.0 f r.1) (spec u first) in
      (step, ap (λ (r : Result B × S). r.0) (sym step) ∙ h)

result_or {ℓ} : {A : Type ℓ} → A → Result A → A
result_or d (ok a) = a
result_or d (raised k m) = d

pub ok_injective {ℓ} : {A : Type ℓ} {a b : A} → ok a ≡ ok b → a ≡ b
unfolding result_or
ok_injective {a} e = ap (result_or a) e
