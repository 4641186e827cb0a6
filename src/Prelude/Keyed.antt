-- ===== src/Prelude/Keyed.antt =====
-- Lists whose rows have distinct keys, as a dict: rows added at the end, replaced and removed.
use Prim.Native.Nat.{suc}
use Prim.Native.String.{String}
use mathlib.Core.Path.{◌≡◌, ◌∙◌, refl, sym, ap}
use mathlib.Core.Bool.{Bool, true, false, not}
use mathlib.Core.List.{List, [], ◌∷◌, ◌++◌}
use mathlib.Core.Option.{some}
use mathlib.Core.Logic.{inl, inr}
use native.Mathlib.Omega.{arith}
use text.Mathlib.Text.{◌==◌ as str_eq}
use text.Mathlib.TextEquality.{eq_iff}
use techo_quant_options_pro.Prelude.Tests.{Bool-cases, if◌then◌else◌}
use techo_quant_options_pro.Prelude.Lists.{any, any-append, find, select, update_where, All, length}
use techo_quant_options_pro.Prelude.Rows.{Distinct, or_false}

module _ {A : Type 0} (P : A → Type 0) where
  pub All-append : (xs ys : List A) → All P xs → All P ys → All P (xs ++ ys)
  All-append [] ys h k = k
  All-append (x ∷ xs) ys h k = (h.0, All-append xs ys h.1 k)

  pub All-select : (p : A → Bool) (xs : List A) → All P xs → All P (select p xs)
  All-select p [] h = tt
  All-select p (x ∷ xs) h = ground (arith, All-select p xs h.1)

  pub All-replaced :
      (p : A → Bool) (new : A) (xs : List A)
      → All P xs
      → P new
      → All P (update_where p (λ _. new) xs)
  All-replaced p new [] h k = tt
  All-replaced p new (x ∷ xs) h k = ground (arith, All-replaced p new xs h.1 k)

  -- What `find` returns is a row of the list.
  pub All-find : (p : A → Bool) (xs : List A) (x : A) → All P xs → find p xs ≡ some x → P x
  All-find p [] x h e = cc
  All-find p (y ∷ xs) x h e = ground (arith, All-find p xs x)

-- What `find` returns passes the test.
pub find_passes :
    {A : Type 0} (p : A → Bool) (xs : List A) (x : A) → find p xs ≡ some x → p x ≡ true
find_passes p [] x e = cc
find_passes p (y ∷ xs) x e = ground (arith, find_passes p xs x)

-- A fact of a conditional, from its branches.
pub if_cases :
    {A : Type 0} (P : A → Type 0) (b : Bool) {x y : A}
    → (b ≡ true → P x)
    → (b ≡ false → P y)
    → P (if b then x else y)
if_cases P true f g = f refl
if_cases P false f g = g refl

module _ {A : Type 0} (q p : A → Bool) where
  pub any-select : (xs : List A) → any q xs ≡ false → any q (select p xs) ≡ false
  any-select [] h = refl
  any-select (x ∷ xs) h = ground (arith, any-select xs)

  -- A row is replaced by one on which the test answers alike.
  pub any-replaced :
      (new : A)
      → ((x : A) → p x ≡ true → q x ≡ q new)
      → (xs : List A) → any q (update_where p (λ _. new) xs) ≡ any q xs
  any-replaced new same [] = refl
  any-replaced new same (x ∷ xs) = elim (Bool-cases (p x)) [
    | inl e ↦ rw (e, same x e, any-replaced new same xs)
    | inr e ↦ rw (e, any-replaced new same xs)
  ]

pub length-update_where :
    {A : Type 0} (p : A → Bool) (f : A → A) (xs : List A) → length (update_where p f xs) ≡ length xs
length-update_where p f [] = refl
length-update_where p f (x ∷ xs) = omega (arith, length-update_where p f xs)

length-select_all :
    {A : Type 0} (q : A → Bool) (xs : List A)
    → any q xs ≡ false
    → length (select (λ x. not (q x)) xs) ≡ length xs
length-select_all q [] h = refl
length-select_all q (x ∷ xs) h = ground (arith, length-select_all q xs)

pub str_eq-sym : (a b : String) → str_eq a b ≡ false → str_eq b a ≡ false
str_eq-sym a b h = elim (Bool-cases (str_eq b a)) [
  | inr e ↦ e
  | inl e ↦ absurd (apart (sym ((eq_iff a b).1 (sym ((eq_iff b a).0 e))) ∙ h))
]
  where
    apart : true ≡ false → ⊥
    apart e = cc

module _ {A : Type 0} (key : A → String) where
  abbrev has_key : String → A → Bool
  has_key id x = str_eq (key x) id

  pub Distinct-at_end :
      (xs : List A) (x : A)
      → Distinct key xs
      → any (has_key (key x)) xs ≡ false
      → Distinct key (xs ++ (x ∷ []))
  Distinct-at_end [] x d h = (refl, tt)
  Distinct-at_end (y ∷ xs) x d h =
      let (first, rest) = or_false (str_eq (key y) (key x)) (any (has_key (key x)) xs) h in
      (
        any-append (has_key (key y)) xs (x ∷ []) ∙ rw (d.0, str_eq-sym (key y) (key x) first),
        Distinct-at_end xs x d.1 rest,
      )

  pub Distinct-select : (p : A → Bool) (xs : List A) → Distinct key xs → Distinct key (select p xs)
  Distinct-select p [] d = tt
  Distinct-select p (x ∷ xs) d =
      ground (arith, Distinct-select p xs d.1, any-select (has_key (key x)) p xs d.0)

  pub Distinct-replaced :
      (new : A) (xs : List A)
      → Distinct key xs
      → Distinct key (update_where (has_key (key new)) (λ _. new) xs)
  Distinct-replaced new [] d = tt
  Distinct-replaced new (x ∷ xs) d = (apart, Distinct-replaced new xs d.1)
    where
      same : (k : String) (y : A) → has_key (key new) y ≡ true → has_key k y ≡ has_key k new
      same k y e = ap (λ s. str_eq s k) ((eq_iff (key y) (key new)).0 e)

      chosen : key (if has_key (key new) x then new else x) ≡ key x
      chosen = elim (Bool-cases (has_key (key new) x)) [
        | inl e ↦ rw e (sym ((eq_iff (key x) (key new)).0 e))
        | inr e ↦ rw e
      ]

      apart :
          any
            (has_key (key (if has_key (key new) x then new else x)))
            (update_where (has_key (key new)) (λ _. new) xs)
          ≡ false
      apart =
          rw chosen (any-replaced (has_key (key x)) (has_key (key new)) new (same (key x)) xs ∙ d.0)

  -- Taking out the row with a key that is there takes out one row.
  pub length-removed :
      (id : String) (xs : List A) (x : A)
      → Distinct key xs
      → find (has_key id) xs ≡ some x
      → length xs ≡ suc (length (select (λ y. not (has_key id y)) xs))
  length-removed id [] x d h = cc
  length-removed id (y ∷ xs) x d h = elim (Bool-cases (has_key id y)) [
    | inl e ↦ rw e (
        ap suc (
          sym (
            length-select_all (has_key id) xs
              (ap (λ k. any (has_key k) xs) (sym ((eq_iff (key y) id).0 e)) ∙ d.0))))
    | inr e ↦ ground (arith, length-removed id xs x d.1)
  ]
