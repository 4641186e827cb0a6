-- ===== src/Validation/Sound/Changes.antt =====
-- What an accepted report says of the changes of open interest.
use techo_quant_options_pro.Prelude.{
  ℕ, suc, String, Bool, true, false, not, ◌||◌, Option, none, some, List, [], ◌∷◌, ◌≡◌, ◌∙◌, refl,
  sym, ap, subst, arith, All, any, find, str_eq, ℤ, Bool-cases, or_false, inl, inr,
}
use mathlib.Core.Option.{some-injective}
use techo_quant_options_pro.Text.{str_eq→eq, is_empty}
use techo_quant_options_pro.Domain.Enums.{DataSource, same_source}
use techo_quant_options_pro.Domain.Models.{
  AtomicSnapshot, OptionQuote, PreviousOptionSnapshot, OptionKey, quote_key,
}
use techo_quant_options_pro.Strategy.Config.{StrategyConfig}
use techo_quant_options_pro.Time.{DateTime}
use techo_quant_options_pro.Validation.Issues.{
  ValidationIssue, Validator, Loaded, is_error, accepted,
}
use techo_quant_options_pro.Validation.Quote.{is_absent_text, change_oi_issues, validate_quote}
use techo_quant_options_pro.Validation.Chain.{quotes_issues}
use techo_quant_options_pro.Validation.Snapshot.{validate}
use techo_quant_options_pro.Validation.Sound.Fresh.{accepted-IsWhole}
use techo_quant_options_pro.Validation.Sound.Legs.{quote-parts}
use techo_quant_options_pro.Validation.Sound.Strikes.{chain-parts, validate_chain-parts}
use techo_quant_options_pro.Validation.Reference.{
  Cache, after_load, with_cache, with_loader, with_reference, with_change,
  validate_change_oi_reference,
}
use techo_quant_options_pro.Validation.Sound.{clean}
use techo_quant_options_pro.Validation.Sound.Recomputed.{IsRecomputed, recomputed}

-- A snapshot in the cache is what the loader answered for its ID.
abbrev IsAnswer : Validator → String × Option PreviousOptionSnapshot → Type 0
IsAnswer v e =
    (p : PreviousOptionSnapshot)
    → e.1 ≡ some p
    → (load : String → Loaded) × (v.loader ≡ some load) × (load e.0 ≡ Loaded.answered (some p))

abbrev pub IsFaithful : Validator → Cache → Type 0
IsFaithful v loaded = All (IsAnswer v) loaded

-- The cache stays faithful, and a quote without an error is recomputed.
abbrev IsSound : Validator → AtomicSnapshot → OptionQuote → List ValidationIssue × Cache → Type 0
IsSound v s q r = IsFaithful v r.1 × (any is_error r.0 ≡ false → IsRecomputed v s q)

find-All :
    {A : Type 0} (P : A → Type 0) (p : A → Bool) (xs : List A) (x : A)
    → find p xs ≡ some x
    → All P xs
    → P x × (p x ≡ true)
find-All P p [] x e all = ground arith
find-All P p (y ∷ ys) x e all = elim (Bool-cases (p y)) [
  | inl yes_y ↦
      let same = some-injective _ _ (rw yes_y at e) in
      (subst P same all.0, subst (λ z. p z ≡ true) same yes_y)
  | inr no_y ↦ find-All P p ys x (rw no_y at e) all.1
]

after_load-IsSound :
    (v : Validator) (s : AtomicSnapshot) (q : OptionQuote) (id : String) (n : ℕ) (loaded : Cache)
    (load : String → Loaded) (answer : Loaded)
    → q.change_oi_source_snapshot_id ≡ some id
    → v.loader ≡ some load
    → load id ≡ answer
    → IsFaithful v loaded
    → IsSound v s q (after_load v s q id n loaded answer)
after_load-IsSound v s q id n loaded load Loaded.crashed named loader e f =
    ((λ p absurd. ground arith, f), λ h. ground arith)
after_load-IsSound v s q id n loaded load (Loaded.answered o) named loader e f = (
  (λ p same. (load, loader, e ∙ ap Loaded.answered same), f),
  λ h. recomputed v s q n id load o named loader (λ p same. e ∙ ap Loaded.answered same) h,
)

with_cache-IsSound :
    (v : Validator) (s : AtomicSnapshot) (q : OptionQuote) (id : String) (n : ℕ) (loaded : Cache)
    (load : String → Loaded) (found : Option (String × Option PreviousOptionSnapshot))
    → q.change_oi_source_snapshot_id ≡ some id
    → v.loader ≡ some load
    → find (λ (e : String × Option PreviousOptionSnapshot). str_eq e.0 id) loaded ≡ found
    → IsFaithful v loaded
    → IsSound v s q (with_cache v s q id n loaded load found)
with_cache-IsSound v s q id n loaded load none named loader e f =
    after_load-IsSound v s q id n loaded load (load id) named loader refl f
with_cache-IsSound v s q id n loaded load (some entry) named loader e f =
    let (answer, same_id) =
      find-All (IsAnswer v) (λ (e : String × Option PreviousOptionSnapshot). str_eq e.0 id) loaded
        entry e f in
    (
      f,
      λ h.
          recomputed v s q n id load entry.1 named loader
            (λ p same.
              let (load', loader', answered) = answer p same in
              subst (λ l. l id ≡ Loaded.answered (some p))
                (some-injective _ _ (sym loader' ∙ loader))
                (subst (λ t. load' t ≡ Loaded.answered (some p)) (str_eq→eq entry.0 id same_id)
                  answered))
            h,
    )

with_loader-IsSound :
    (v : Validator) (s : AtomicSnapshot) (q : OptionQuote) (id : String) (n : ℕ) (loaded : Cache)
    (loader : Option (String → Loaded))
    → q.change_oi_source_snapshot_id ≡ some id
    → v.loader ≡ loader
    → IsFaithful v loaded
    → IsSound v s q (with_loader v s q id n loaded loader)
with_loader-IsSound v s q id n loaded none named e f = (f, λ h. ground arith)
with_loader-IsSound v s q id n loaded (some load) named e f =
    with_cache-IsSound v s q id n loaded load
      (find (λ (e : String × Option PreviousOptionSnapshot). str_eq e.0 id) loaded) named e refl f

with_reference-IsFaithful :
    (v : Validator) (s : AtomicSnapshot) (q : OptionQuote) (n : ℕ) (loaded : Cache)
    (o : Option String)
    → q.change_oi_source_snapshot_id ≡ o
    → IsFaithful v loaded
    → IsFaithful v (with_reference v s q n loaded o).1
with_reference-IsFaithful v s q n loaded none named f = f
with_reference-IsFaithful v s q n loaded (some id) named f =
    elim (Bool-cases (is_empty id || not (same_source s.source DataSource.dhan_rest))) [
      | inl e ↦ rw e f
      | inr e ↦ rw e (with_loader-IsSound v s q id n loaded v.loader named refl f).0
    ]

with_reference-IsRecomputed :
    (v : Validator) (s : AtomicSnapshot) (q : OptionQuote) (n : ℕ) (loaded : Cache)
    (o : Option String)
    → q.change_oi_source_snapshot_id ≡ o
    → is_absent_text o ≡ false
    → same_source s.source DataSource.dhan_rest ≡ true
    → IsFaithful v loaded
    → any is_error (with_reference v s q n loaded o).0 ≡ false
    → IsRecomputed v s q
with_reference-IsRecomputed v s q n loaded none named present dhan f h = ground arith
with_reference-IsRecomputed v s q n loaded (some id) named present dhan f h =
    (with_loader-IsSound v s q id n loaded v.loader named refl f).1 (ground (arith, h))

change_oi-parts :
    (c : StrategyConfig) (q : OptionQuote) (source : DataSource) (n : ℕ) (change : ℤ)
    → any is_error (change_oi_issues c q source n (some change)) ≡ false
    → (same_source source DataSource.dhan_rest ≡ true)
      × (is_absent_text q.change_oi_source_snapshot_id ≡ false)
unfolding change_oi_issues
change_oi-parts c q source n change h = grind clean

quote-change :
    (c : StrategyConfig) (q : OptionQuote) (source : DataSource) (n : ℕ)
    → any is_error (validate_quote c q source n) ≡ false
    → any is_error (change_oi_issues c q source n q.change_open_interest) ≡ false
unfolding validate_quote
quote-change c q source n h = grind clean

-- A quote that declares a change of open interest is recomputed.
abbrev pub IsChangeChecked : Validator → AtomicSnapshot → OptionQuote → Type 0
IsChangeChecked v s q = (change : ℤ) → q.change_open_interest ≡ some change → IsRecomputed v s q

with_change-IsSound :
    (v : Validator) (s : AtomicSnapshot) (q : OptionQuote) (n : ℕ) (loaded : Cache) (o : Option ℤ)
    → any is_error (change_oi_issues v.config q s.source n o) ≡ false
    → any is_error (with_change v s q n loaded o).0 ≡ false
    → IsFaithful v loaded
    → IsFaithful v (with_change v s q n loaded o).1
      × ((change : ℤ) → o ≡ some change → IsRecomputed v s q)
with_change-IsSound v s q n loaded none h clean_reference f = (f, λ change absurd. ground arith)
with_change-IsSound v s q n loaded (some change) h clean_reference f =
    let (dhan, present) = change_oi-parts v.config q s.source n change h in
    (
      with_reference-IsFaithful v s q n loaded q.change_oi_source_snapshot_id refl f,
      λ change' same.
          with_reference-IsRecomputed v s q n loaded q.change_oi_source_snapshot_id refl present
            dhan f clean_reference,
    )

reference_IsSound :
    (v : Validator) (s : AtomicSnapshot) (q : OptionQuote) (n : ℕ) (loaded : Cache)
    → any is_error (change_oi_issues v.config q s.source n q.change_open_interest) ≡ false
    → any is_error (validate_change_oi_reference v s q n loaded).0 ≡ false
    → IsFaithful v loaded
    → IsFaithful v (validate_change_oi_reference v s q n loaded).1 × IsChangeChecked v s q
unfolding validate_change_oi_reference
reference_IsSound v s q n loaded h r f =
    with_change-IsSound v s q n loaded q.change_open_interest h r f

quotes_IsChangeChecked :
    (v : Validator) (s : AtomicSnapshot) (n : ℕ) (keys : List OptionKey) (ids : List String)
    (loaded : Cache) (quotes : List OptionQuote)
    → any is_error (quotes_issues v s n keys ids loaded quotes) ≡ false
    → IsFaithful v loaded
    → All (IsChangeChecked v s) quotes
unfolding quotes_issues
quotes_IsChangeChecked v s n keys ids loaded [] h f = tt
quotes_IsChangeChecked v s n keys ids loaded (q ∷ quotes) h f =
    let (reference, loaded') = validate_change_oi_reference v s q n loaded in
    let (head, rest) = or_false _ _ (simp clean at h) in
    let (key, id, mapping, expiry, quote, loading, not_itself) =
      quote-parts v s n keys ids q reference head in
    let (f', checked) =
      reference_IsSound v s q n loaded (quote-change v.config q s.source n quote) loading f in
    (
      checked,
      quotes_IsChangeChecked v s (suc n) (quote_key q ∷ keys) (q.security_id ∷ ids) loaded' quotes
          rest f',
    )

-- In an accepted report's chain, a quote that declares a change of open interest names a snapshot
-- that the loader answers with, whether it was loaded for this quote or for an earlier one: an
-- earlier one of the same contract, with exactly one leg of this option, from which the change and
-- its interval come out again.
pub accepted-IsChangeChecked :
    (v : Validator) (s : AtomicSnapshot) (now : DateTime)
    → accepted (validate v s now) ≡ true
    → All (IsChangeChecked v s) s.option_chain
accepted-IsChangeChecked v s now h =
    let w = accepted-IsWhole v s now h in
    let (nonempty, quotes, strikes) =
      chain-parts v s s.option_chain (validate_chain-parts v s w.chain) in
    quotes_IsChangeChecked v s 0 [] [] [] s.option_chain quotes tt
