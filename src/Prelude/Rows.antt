-- ===== src/Prelude/Rows.antt =====
-- Tables as lists of rows: keys that stay distinct, and facts that an update keeps.
use mathlib.Core.Path.{◌≡◌, refl}
use mathlib.Core.Bool.{Bool, true, false, ◌||◌, not}
use mathlib.Core.List.{List, [], ◌∷◌}
use mathlib.Core.Option.{none}
use mathlib.Core.Logic.{inl, inr}
use native.Mathlib.Omega.{arith}
use Prim.Native.String.{String}
use text.Mathlib.Text.{◌==◌ as str_eq}
use techo_quant_options_pro.Prelude.Tests.{Bool-cases}
use techo_quant_options_pro.Prelude.Lists.{any, find, update_where, All}

pub or_false : (a b : Bool) → (a || b) ≡ false → (a ≡ false) × (b ≡ false)
or_false true b h = ground arith
or_false false b h = (refl, h)

pub true_of_not : (a : Bool) → not a ≡ false → a ≡ true
true_of_not true h = refl
true_of_not false h = ground arith

pub any_or {ℓ} :
    {A : Type ℓ} (p q : A → Bool) (xs : List A)
    → any (λ x. p x || q x) xs ≡ false
    → (any p xs ≡ false) × (any q xs ≡ false)
any_or p q [] h = (refl, refl)
any_or p q (x ∷ xs) h =
    let (head, rest) = or_false (p x || q x) (any (λ y. p y || q y) xs) h in
    let (a, b) = or_false (p x) (q x) head in
    let (more_a, more_b) = any_or p q xs rest in
    (ground (arith, a, more_a), ground (arith, b, more_b))

module _ {A : Type 0} (key : A → String) where
  -- No two rows have the same key.
  abbrev pub Distinct : List A → Type 0
  Distinct [] = Unit
  Distinct (x ∷ xs) = (any (λ y. str_eq (key y) (key x)) xs ≡ false) × Distinct xs

module _ {A : Type 0} (p : A → Bool) (f : A → A) where
  pub any-update_where :
      (q : A → Bool)
      → ((x : A) → q (f x) ≡ q x)
      → (xs : List A) → any q (update_where p f xs) ≡ any q xs
  any-update_where q same [] = refl
  any-update_where q same (x ∷ xs) = ground (arith, same x, any-update_where q same xs)

  pub Distinct-update_where :
      (key : A → String)
      → ((x : A) → key (f x) ≡ key x)
      → (xs : List A) → Distinct key xs
      → Distinct key (update_where p f xs)
  Distinct-update_where key same [] h = tt
  Distinct-update_where key same (x ∷ xs) h = elim (Bool-cases (p x)) [
    | inl e ↦
        rw (e, same x, any-update_where (λ y. str_eq (key y) (key x)) (λ y. rw (same y)) xs)
          (h.0, Distinct-update_where key same xs h.1)
    | inr e ↦
        rw (e, any-update_where (λ y. str_eq (key y) (key x)) (λ y. rw (same y)) xs)
          (h.0, Distinct-update_where key same xs h.1)
  ]

  -- A fact that the write keeps or brings about.
  pub All-update_where :
      (P : A → Type 0)
      → ((x : A) → P x → P (f x))
      → (xs : List A) → All P xs
      → All P (update_where p f xs)
  All-update_where P keep [] h = tt
  All-update_where P keep (x ∷ xs) h = elim (Bool-cases (p x)) [
    | inl e ↦ rw e (keep x h.0, All-update_where P keep xs h.1)
    | inr e ↦ rw e (h.0, All-update_where P keep xs h.1)
  ]

module _ {A : Type 0} {P Q : A → Type 0} where
  pub All-map : ((x : A) → P x → Q x) → (xs : List A) → All P xs → All Q xs
  All-map f [] h = tt
  All-map f (x ∷ xs) h = (f x h.0, All-map f xs h.1)

module _ {A : Type 0} (q : A → Bool) where
  pub any-cons : (x : A) (xs : List A) → any q xs ≡ true → any q (x ∷ xs) ≡ true
  any-cons x xs h = ground arith

  pub find-any : (xs : List A) → any q xs ≡ false → find q xs ≡ none
  find-any [] h = refl
  find-any (x ∷ xs) h = ground (arith, find-any xs)
