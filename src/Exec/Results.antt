-- ===== src/Exec/Results.antt =====
-- Do blocks of results without a state.
use techo_quant_options_pro.Prelude.{List, [], ◌∷◌, ◌≡◌, refl, arith, subst, All}
use techo_quant_options_pro.Exec.Outcome.{ok_injective}
use techo_quant_options_pro.Exec.{Result, ok, raised}

infixl 5 ◌>>=◌ ◌>>◌
unfoldable pub ◌>>=◌ {ℓ κ} : {A : Type ℓ} {B : Type κ} → Result A → (A → Result B) → Result B
ok a >>= f = f a
raised kind message >>= f = raised kind message

unfoldable pub ◌>>◌ {ℓ κ} : {A : Type ℓ} {B : Type κ} → Result A → Result B → Result B
ok a >> next = next
raised kind message >> next = raised kind message

-- The call at each item, in order, up to the first that raises.
abbrev pub map_results {ℓ κ} : {A : Type ℓ} {B : Type κ} → (A → Result B) → List A → Result (List B)
map_results f [] = ok []
map_results f (x ∷ xs) = f x >>= λ y. map_results f xs >>= λ ys. ok (y ∷ ys)

-- What a do block that answers tells of its first step.
pub bind_ok {ℓ} :
    {A B : Type ℓ} (m : Result A) (f : A → Result B) (b : B)
    → (m >>= f) ≡ ok b
    → (a : A) × (m ≡ ok a) × (f a ≡ ok b)
unfolding ◌>>=◌
bind_ok (ok a) f b h = (a, refl, h)
bind_ok (raised kind message) f b h = ground arith

pub next_ok {ℓ} :
    {A B : Type ℓ} (m : Result A) (n : Result B) (b : B)
    → (m >> n) ≡ ok b
    → (a : A) × (m ≡ ok a) × (n ≡ ok b)
unfolding ◌>>◌
next_ok (ok a) n b h = (a, refl, h)
next_ok (raised kind message) n b h = ground arith

pub map_results-All :
    {A B : Type 0} (f : A → Result B) (P : B → Type 0)
    → ((a : A) (b : B) → f a ≡ ok b → P b)
    → (xs : List A) (ys : List B) → map_results f xs ≡ ok ys
    → All P ys
map_results-All f P each [] ys h = subst (All P) (ok_injective h) tt
map_results-All f P each (x ∷ xs) ys h =
    let (y, first, h1) = bind_ok (f x) _ ys h in
    let (zs, rest, h2) = bind_ok (map_results f xs) _ ys h1 in
    subst (All P) (ok_injective h2) (each x y first, map_results-All f P each xs zs rest)
