-- ===== src/Exec/Triple.antt =====
-- Contracts of actions: from a state with `P`, an action that returns ends in `Q`, and one that
-- raises ends in `E`.
use techo_quant_options_pro.Prelude.{String, Bool, true, false, ◌≡◌, refl, if◌then◌else◌}
use techo_quant_options_pro.Execution.Errors.{ErrorKind}
use techo_quant_options_pro.Exec.{
  Result, ok, raised, Exec, pure, raise, lift, gets, modify, settle, continue, transaction, ◌>>=◌,
}

abbrev pub Ends {ℓ} : {S A : Type ℓ} → (S → Type ℓ) → (S → Type ℓ) → Result A × S → Type ℓ
Ends Q E (ok _, s) = Q s
Ends Q E (raised _ _, s) = E s

pub record Triple {ℓ} {S A : Type ℓ} (P : S → Type ℓ) (m : Exec S A) (Q E : S → Type ℓ)
    : Type ℓ where
  pub at : (s : S) → P s → Ends Q E (m s)

-- `m` keeps `P`, whether it returns or raises.
abbrev pub Maintains {ℓ} : {S A : Type ℓ} → (S → Type ℓ) → Exec S A → Type ℓ
Maintains P m = Triple P m P P

settle_ends {ℓ} :
    {S A : Type ℓ} (P Q E : S → Type ℓ) (r : Result A × S) (s : S)
    → P s
    → Ends Q E r
    → Ends Q P (settle r.0 s r.1)
settle_ends P Q E (ok a, s') s p h = h
settle_ends P Q E (raised k message, s') s p h = p

ends_weaken {ℓ} :
    {S A : Type ℓ} (Q E Q' E' : S → Type ℓ) (r : Result A × S)
    → ((s : S) → Q s → Q' s)
    → ((s : S) → E s → E' s)
    → Ends Q E r
    → Ends Q' E' r
ends_weaken Q E Q' E' (ok a, s) f g h = f s h
ends_weaken Q E Q' E' (raised k message, s) f g h = g s h

module _ {ℓ} {S A : Type ℓ} {P Q E : S → Type ℓ} where
  pub Triple-if :
      (b : Bool) (m n : Exec S A)
      → (b ≡ true → Triple P m Q E)
      → (b ≡ false → Triple P n Q E)
      → Triple P (if b then m else n) Q E
  Triple-if true m n km kn = km refl
  Triple-if false m n km kn = kn refl

  -- What an action that raises has written is undone.
  pub Triple-transaction : (m : Exec S A) → Triple P m Q E → Triple P (transaction m) Q P
  unfolding transaction
  Triple-transaction m t = record { at = λ s h. settle_ends P Q E (m s) s h (t.at s h) }

  pub Triple-weaken :
      {P' Q' E' : S → Type ℓ} (m : Exec S A)
      → ((s : S) → P' s → P s)
      → ((s : S) → Q s → Q' s)
      → ((s : S) → E s → E' s)
      → Triple P m Q E
      → Triple P' m Q' E'
  Triple-weaken {Q'} {E'} m before after error t = record {
    at = λ s h. ends_weaken Q E Q' E' (m s) after error (t.at s (before s h));
  }

module _ {ℓ} {S A B : Type ℓ} {R Q E : S → Type ℓ} where
  bind_ends :
      (f : A → Exec S B) (r : Result A) (s : S)
      → ((a : A) → Triple R (f a) Q E)
      → Ends R E (r, s)
      → Ends Q E (continue r f s)
  bind_ends f (ok a) s k h = (k a).at s h
  bind_ends f (raised e message) s k h = h

  pub Triple-bind :
      {P : S → Type ℓ} (m : Exec S A) (f : A → Exec S B)
      → Triple P m R E
      → ((a : A) → Triple R (f a) Q E)
      → Triple P (m >>= f) Q E
  Triple-bind m f t k = record { at = λ s h. bind_ends f (m s).0 (m s).1 k (t.at s h) }

pub ends_same {ℓ} : {S A : Type ℓ} (P : S → Type ℓ) (r : Result A × S) → Ends P P r → P r.1
ends_same P (ok a, s) h = h
ends_same P (raised k m, s) h = h

-- A contract at a call that returned.
pub ends_ok {ℓ} :
    {S A : Type ℓ} (Q E : S → Type ℓ) (r : Result A × S) {a : A} → Ends Q E r → r.0 ≡ ok a → Q r.1
ends_ok Q E (ok a, s) h e = h
ends_ok Q E (raised k m, s) h e = cc

-- The rules for one predicate that everything keeps.
module _ {ℓ} {S A : Type ℓ} {P : S → Type ℓ} where
  pub Maintains-pure : (a : A) → Maintains P (pure a)
  Maintains-pure a = record { at = λ s h. h }

  pub Maintains-raise : (k : ErrorKind) (message : String) → Maintains P (raise {A = A} k message)
  Maintains-raise k message = record { at = λ s h. h }

  pub Maintains-lift : (r : Result A) → Maintains P (lift r)
  Maintains-lift (ok a) = record { at = λ s h. h }
  Maintains-lift (raised k message) = record { at = λ s h. h }

  pub Maintains-gets : (f : S → A) → Maintains P (gets f)
  Maintains-gets f = record { at = λ s h. h }

  pub Maintains-if :
      (b : Bool) (m n : Exec S A) → Maintains P m → Maintains P n → Maintains P (if b then m else n)
  Maintains-if true m n km kn = km
  Maintains-if false m n km kn = kn

  pub Maintains-transaction : (m : Exec S A) → Maintains P m → Maintains P (transaction m)
  Maintains-transaction m t = Triple-transaction m t

stays {ℓ} : {S A : Type ℓ} (P : S → Type ℓ) (r : Result A) (s : S) → P s → Ends P P (r, s)
stays P (ok a) s h = h
stays P (raised k m) s h = h

-- An action that only reads.
pub Maintains-reads {ℓ} :
    {S A : Type ℓ} {P : S → Type ℓ} (r : S → Result A) → Maintains P (λ s. (r s, s))
Maintains-reads {P} r = record { at = λ s h. stays P (r s) s h }

module _ {ℓ} {S A B : Type ℓ} {P : S → Type ℓ} where
  pub Maintains-bind :
      (m : Exec S A) (f : A → Exec S B)
      → Maintains P m
      → ((a : A) → Maintains P (f a))
      → Maintains P (m >>= f)
  Maintains-bind m f t k = Triple-bind m f t k

pub ruleset maintains_rules = (
  Maintains-pure, Maintains-raise, Maintains-lift, Maintains-gets, Maintains-if,
  Maintains-transaction, Maintains-bind,
)

module _ {S : Type 0} {P Q : S → Type 0} where
  pub Triple-modify : (f : S → S) → ((s : S) → P s → Q (f s)) → Triple P (modify f) Q Q
  Triple-modify f k = record { at = k }

  -- A write behind a test, as each insert of the ledger is.
  pub Triple-guarded :
      (test : S → Bool) (k : ErrorKind) (message : String) (f : S → S)
      → ((s : S) → P s → test s ≡ false → Q (f s))
      → Triple P (λ s. if test s then (raised k message, s) else (ok tt, f s)) Q P
  Triple-guarded test k message f write = record { at = λ s h. go s h (test s) refl }
    where
      go :
          (s : S)
          → P s
          → (b : Bool) → test s ≡ b
          → Ends Q P (if b then (raised k message, s) else (ok tt, f s))
      go s h true e = h
      go s h false e = write s h e

const_ends :
    {S A C : Type 0} (Q E : S → Type 0) (c : C) (r : Result A × S)
    → Ends Q E r
    → Ends (λ s. Q s × C) (λ s. E s × C) r
const_ends Q E c (ok a, s) h = (h, c)
const_ends Q E c (raised k m, s) h = (h, c)

-- A fact that is not about the state stays.
pub Triple-const :
    {S A C : Type 0} {P Q E : S → Type 0} (m : Exec S A)
    → Triple P m Q E
    → Triple (λ s. P s × C) m (λ s. Q s × C) (λ s. E s × C)
Triple-const {Q} {E} m t = record { at = λ s h. const_ends Q E h.1 (m s) (t.at s h.0) }
