-- ===== src/Validation/Sound/Legs.antt =====
-- What an accepted report says of the legs of the option chain.
use techo_quant_options_pro.Prelude.{
  ℕ, suc, String, Bool, true, false, ◌&&◌, some, List, [], ◌∷◌, ◌≡◌, refl, arith, str_eq, All, any,
  Option-cases, or_false, true_of_not, any_or, Distinct, inl, inr,
}
use techo_quant_options_pro.Text.{is_empty}
use techo_quant_options_pro.Domain.Models.{
  AtomicSnapshot, InstrumentMasterRecord, OptionQuote, OptionKey, quote_key, same_key, same_time,
}
use techo_quant_options_pro.Domain.Enums.{DataSource}
use techo_quant_options_pro.Strategy.Config.{StrategyConfig}
use techo_quant_options_pro.Validation.Issues.{ValidationIssue, Validator, is_error, is_positive}
use techo_quant_options_pro.Validation.State.{is_reversed}
use techo_quant_options_pro.Validation.Contract.{record_key}
use techo_quant_options_pro.Validation.Quote.{validate_quote}
use techo_quant_options_pro.Validation.Reference.{Cache, validate_change_oi_reference}
use techo_quant_options_pro.Validation.Chain.{
  has_key, master_record, id_issues, mapping_issues, names, quote_issues, quotes_issues,
}
use techo_quant_options_pro.Validation.Sound.{clean}

-- The prices and the volatility are positive, and the ask is not below the bid.
pub record IsPriced (q : OptionQuote) : Type 0 where
  pub strike : is_positive (some q.strike) ≡ true
  pub bid : is_positive q.bid ≡ true
  pub ask : is_positive q.ask ≡ true
  pub ltp : is_positive q.ltp ≡ true
  pub ordered : is_reversed q.ask q.bid ≡ false
  pub volatility : is_positive q.implied_volatility ≡ true

quote-IsPriced :
    (c : StrategyConfig) (q : OptionQuote) (source : DataSource) (n : ℕ)
    → any is_error (validate_quote c q source n) ≡ false
    → IsPriced q
unfolding validate_quote
quote-IsPriced c q source n h = grind clean

-- A record of the contract master has the quote's strike, side and security ID.
abbrev pub is_record_of : OptionQuote → InstrumentMasterRecord → Bool
is_record_of q r =
    has_key (quote_key q) (record_key r) && str_eq r.instrument.security_id q.security_id

record-is_record_of :
    (q : OptionQuote) (rs : List InstrumentMasterRecord) (r : InstrumentMasterRecord)
    → master_record (quote_key q) rs ≡ some r
    → str_eq r.instrument.security_id q.security_id ≡ true
    → any (is_record_of q) rs ≡ true
unfolding master_record
record-is_record_of q [] r h e = ground arith
record-is_record_of q (x ∷ xs) r h e = elim (Option-cases (master_record (quote_key q) xs)) [
  | inl none_later ↦ ground (arith, none_later, h)
  | inr (later, found) ↦
      ground (arith, found, h, record-is_record_of q xs r (ground (arith, found, h)) e)
]

mapping-is_record_of :
    (q : OptionQuote) (n : ℕ) (rs : List InstrumentMasterRecord)
    → any is_error (mapping_issues n q.security_id (master_record (quote_key q) rs)) ≡ false
    → any (is_record_of q) rs ≡ true
mapping-is_record_of q n rs h = elim (Option-cases (master_record (quote_key q) rs)) [
  | inl e ↦ ground (arith, e, h)
  | inr (r, e) ↦ record-is_record_of q rs r e (ground (arith, e, h))
]

-- A priced leg of the contract's master and expiry.
pub record IsLeg (v : Validator) (s : AtomicSnapshot) (q : OptionQuote) : Type 0 where
  pub identified : is_empty q.security_id ≡ false
  pub mapped : any (is_record_of q) s.contract.option_contracts ≡ true
  pub expiry : same_time q.expiry s.contract.option_expiry ≡ true
  pub priced : IsPriced q
  pub not_itself : names q.change_oi_source_snapshot_id s.snapshot_id ≡ false

pub quote-parts :
    (v : Validator) (s : AtomicSnapshot) (n : ℕ) (keys : List OptionKey) (ids : List String)
    (q : OptionQuote) (reference : List ValidationIssue)
    → any is_error (quote_issues v s n keys ids q reference) ≡ false
    → (any (same_key (quote_key q)) keys ≡ false)
      × (any is_error (id_issues n ids q.security_id) ≡ false)
      × (any is_error (
            mapping_issues n q.security_id
              (master_record (quote_key q) s.contract.option_contracts))
          ≡ false)
      × (same_time q.expiry s.contract.option_expiry ≡ true)
      × (any is_error (validate_quote v.config q s.source n) ≡ false)
      × (any is_error reference ≡ false)
      × (names q.change_oi_source_snapshot_id s.snapshot_id ≡ false)
unfolding quote_issues
quote-parts v s n keys ids q reference h =
    let (key, e1) = or_false _ _ (simp clean at h) in
    let (id, e2) = or_false _ _ e1 in
    let (mapping, e3) = or_false _ _ e2 in
    let (expiry, e4) = or_false _ _ e3 in
    let (quote, e5) = or_false _ _ e4 in
    let (loaded, not_itself) = or_false _ _ e5 in
    (key, id, mapping, true_of_not _ expiry, quote, loaded, not_itself)

id-parts :
    (n : ℕ) (ids : List String) (id : String)
    → any is_error (id_issues n ids id) ≡ false
    → (is_empty id ≡ false) × (any (str_eq id) ids ≡ false)
id-parts n ids id h = grind clean

pub quotes_IsLeg :
    (v : Validator) (s : AtomicSnapshot) (n : ℕ) (keys : List OptionKey) (ids : List String)
    (loaded : Cache) (quotes : List OptionQuote)
    → any is_error (quotes_issues v s n keys ids loaded quotes) ≡ false
    → All (IsLeg v s) quotes
unfolding quotes_issues
quotes_IsLeg v s n keys ids loaded [] h = tt
quotes_IsLeg v s n keys ids loaded (q ∷ quotes) h =
    let (reference, loaded') = validate_change_oi_reference v s q n loaded in
    let (head, rest) = or_false _ _ (simp clean at h) in
    let (key, id, mapping, expiry, quote, loading, not_itself) =
      quote-parts v s n keys ids q reference head in
    (
      record {
        identified = (id-parts n ids q.security_id id).0;
        mapped = mapping-is_record_of q n s.contract.option_contracts mapping;
        expiry = expiry;
        priced = quote-IsPriced v.config q s.source n quote;
        not_itself = not_itself;
      },
      quotes_IsLeg v s (suc n) (quote_key q ∷ keys) (q.security_id ∷ ids) loaded' quotes rest,
    )

-- No two legs have the same strike and side.
abbrev pub KeysDiffer : List OptionQuote → Type 0
KeysDiffer [] = Unit
KeysDiffer (q ∷ quotes) =
    (any (λ (p : OptionQuote). same_key (quote_key p) (quote_key q)) quotes ≡ false)
    × KeysDiffer quotes

-- No leg has one of these keys or IDs.
abbrev pub IsNew : List OptionKey → List String → List OptionQuote → Type 0
IsNew keys ids quotes =
    (any (λ (q : OptionQuote). any (same_key (quote_key q)) keys) quotes ≡ false)
    × (any (λ (q : OptionQuote). any (str_eq q.security_id) ids) quotes ≡ false)

pub quotes_IsNew :
    (v : Validator) (s : AtomicSnapshot) (n : ℕ) (keys : List OptionKey) (ids : List String)
    (loaded : Cache) (quotes : List OptionQuote)
    → any is_error (quotes_issues v s n keys ids loaded quotes) ≡ false
    → IsNew keys ids quotes
      × (KeysDiffer quotes × Distinct (λ (q : OptionQuote). q.security_id) quotes)
unfolding quotes_issues
quotes_IsNew v s n keys ids loaded [] h = ((refl, refl), (tt, tt))
quotes_IsNew v s n keys ids loaded (q ∷ quotes) h =
    let (reference, loaded') = validate_change_oi_reference v s q n loaded in
    let (head, rest) = or_false _ _ (simp clean at h) in
    let (key, id, mapping, expiry, quote, loading, not_itself) =
      quote-parts v s n keys ids q reference head in
    let new_id = (id-parts n ids q.security_id id).1 in
    let (new, different) =
      quotes_IsNew v s (suc n) (quote_key q ∷ keys) (q.security_id ∷ ids) loaded' quotes rest in
    let (keys_differ, new_keys) =
      any_or (λ (p : OptionQuote). same_key (quote_key p) (quote_key q))
        (λ p. any (same_key (quote_key p)) keys) quotes new.0 in
    let (ids_differ, new_ids) =
      any_or (λ (p : OptionQuote). str_eq p.security_id q.security_id)
        (λ p. any (str_eq p.security_id) ids) quotes new.1 in
    (
      (ground (arith, key, new_keys), ground (arith, new_id, new_ids)),
      ((keys_differ, different.0), (ids_differ, different.1)),
    )
