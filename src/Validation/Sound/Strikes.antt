-- ===== src/Validation/Sound/Strikes.antt =====
-- What an accepted report says of the whole option chain: its legs, and the five strikes around
-- the money.
use techo_quant_options_pro.Prelude.{
  Bool, true, false, not, Option, none, some, List, [], ◌∷◌, ◌≡◌, refl, arith, All, any, length,
  ltb, pos, any-append, or_false, true_of_not, and_right, Distinct,
}
use techo_quant_options_pro.Decimal.{Decimal, integer, is_finite, less, less_eq}
use techo_quant_options_pro.Exec.{ok}
use techo_quant_options_pro.Float.Bounds.{not_less_eq}
use techo_quant_options_pro.Domain.Models.{
  AtomicSnapshot, ContractSpec, OptionQuote, pricing_underlying,
}
use techo_quant_options_pro.Strategy.Decision.{nearest_atm, nearest_from}
use techo_quant_options_pro.Time.{DateTime}
use techo_quant_options_pro.Validation.Issues.{Validator, is_error, is_positive, accepted}
use techo_quant_options_pro.Validation.State.{validate_market}
use techo_quant_options_pro.Validation.Contract.{validate_contract, validate_spec}
use techo_quant_options_pro.Validation.Snapshot.{validate}
use techo_quant_options_pro.Validation.Chain.{
  quotes_issues, chain_issues, strikes_issues, topology_issues, validate_chain, strikes_of,
  five_strikes, both_sides, is_listed, is_mapped, is_quoted,
}
use techo_quant_options_pro.Validation.Sound.{clean}
use techo_quant_options_pro.Validation.Sound.Fresh.{accepted-IsWhole}
use techo_quant_options_pro.Validation.Sound.Legs.{IsLeg, KeysDiffer, quotes_IsLeg, quotes_IsNew}

-- A positive price, its nearest strike, and two listed strikes on each side of that one, all five
-- with a call and a put in the chain and in the contract master.
pub record IsSurrounded (s : AtomicSnapshot) : Type 0 where
  pub underlying : Decimal
  pub priced : pricing_underlying s.market s.contract.market_kind ≡ some underlying
  pub positive : is_positive (some underlying) ≡ true
  pub atm : Decimal
  pub nearest : nearest_atm underlying (strikes_of s.option_chain) ≡ ok atm
  pub listed :
      All
        (λ k. is_listed (strikes_of s.option_chain) k ≡ true)
        (five_strikes atm s.contract.strike_interval)
  pub mapped :
      All
        (λ key. is_mapped s.contract.option_contracts key ≡ true)
        (both_sides (five_strikes atm s.contract.strike_interval))
  pub quoted :
      All
        (λ key. is_quoted s.option_chain key ≡ true)
        (both_sides (five_strikes atm s.contract.strike_interval))

all_of {ℓ} :
    {A : Type ℓ} (p : A → Bool) (xs : List A)
    → any (λ x. not (p x)) xs ≡ false
    → All (λ x. p x ≡ true) xs
all_of p [] h = tt
all_of p (x ∷ xs) h =
    let (a, b) = or_false (not (p x)) (any (λ y. not (p y)) xs) h in
    (true_of_not (p x) a, all_of p xs b)

-- `nearest_atm` answers for a positive price and some strikes.
nearest_atm-ok :
    (underlying : Decimal) (strikes : List Decimal)
    → less_eq underlying (integer (pos 0)) ≡ false
    → ltb (length strikes) 5 ≡ false
    → (atm : Decimal) × (nearest_atm underlying strikes ≡ ok atm)
unfolding nearest_atm
nearest_atm-ok underlying [] p l = ground arith
nearest_atm-ok underlying (k ∷ strikes) p l = (nearest_from underlying k strikes, ground arith)

enough_strikes :
    (s : AtomicSnapshot) (underlying : Decimal)
    → is_positive (some underlying) ≡ true
    → any is_error
        (strikes_issues s.contract s.option_chain (strikes_of s.option_chain) (some underlying))
      ≡ false
    → ltb (length (strikes_of s.option_chain)) 5 ≡ false
enough_strikes s underlying p h = grind clean

around_clean :
    (s : AtomicSnapshot) (underlying atm : Decimal)
    → is_positive (some underlying) ≡ true
    → is_positive (some s.contract.strike_interval) ≡ true
    → ltb (length (strikes_of s.option_chain)) 5 ≡ false
    → nearest_atm underlying (strikes_of s.option_chain) ≡ ok atm
    → any is_error
        (strikes_issues s.contract s.option_chain (strikes_of s.option_chain) (some underlying))
      ≡ false
    → any is_error (topology_issues s.contract s.option_chain (strikes_of s.option_chain) atm)
      ≡ false
around_clean s underlying atm p i l nearest h = grind clean

IsSurrounded-topology :
    (s : AtomicSnapshot) (underlying : Decimal)
    → pricing_underlying s.market s.contract.market_kind ≡ some underlying
    → is_positive (some underlying) ≡ true
    → is_positive (some s.contract.strike_interval) ≡ true
    → any is_error
        (strikes_issues s.contract s.option_chain (strikes_of s.option_chain) (some underlying))
      ≡ false
    → IsSurrounded s
unfolding topology_issues
IsSurrounded-topology s underlying priced p i h =
    let zero_less = and_right (is_finite underlying) (less (integer (pos 0)) underlying) p in
    let enough = enough_strikes s underlying p h in
    let (atm, nearest) =
      nearest_atm-ok underlying (strikes_of s.option_chain)
        (not_less_eq (integer (pos 0)) underlying zero_less) enough in
    let around = around_clean s underlying atm p i enough nearest h in
    let (listed, rest) = or_false _ _ (simp clean at around) in
    let (mapped, quoted) = or_false _ _ rest in
    let expected = five_strikes atm s.contract.strike_interval in
    record {
      underlying = underlying;
      priced = priced;
      positive = p;
      atm = atm;
      nearest = nearest;
      listed = all_of (is_listed (strikes_of s.option_chain)) expected listed;
      mapped = all_of (is_mapped s.contract.option_contracts) (both_sides expected) mapped;
      quoted = all_of (is_quoted s.option_chain) (both_sides expected) quoted;
    }

-- The chain as a whole.
pub record IsChain (v : Validator) (s : AtomicSnapshot) : Type 0 where
  pub nonempty : ltb 0 (length s.option_chain) ≡ true
  pub legs : All (IsLeg v s) s.option_chain
  pub keys_differ : KeysDiffer s.option_chain
  pub ids_differ : Distinct (λ (q : OptionQuote). q.security_id) s.option_chain
  pub surrounded : IsSurrounded s

pub chain-parts :
    (v : Validator) (s : AtomicSnapshot) (quotes : List OptionQuote)
    → any is_error (chain_issues v s quotes) ≡ false
    → (ltb 0 (length quotes) ≡ true)
      × (any is_error (quotes_issues v s 0 [] [] [] quotes) ≡ false)
      × (any is_error (
            strikes_issues s.contract quotes
              (strikes_of quotes)
              (pricing_underlying s.market s.contract.market_kind))
          ≡ false)
chain-parts v s [] h = ground arith
chain-parts v s (q ∷ quotes) h =
    let (a, b) =
      or_false (any is_error (quotes_issues v s 0 [] [] [] (q ∷ quotes)))
        (any is_error (
          strikes_issues s.contract (q ∷ quotes) (strikes_of (q ∷ quotes))
            (pricing_underlying s.market s.contract.market_kind)))
        (simp (any-append) at h) in
    (ground arith, a, b)

pub validate_chain-parts :
    (v : Validator) (s : AtomicSnapshot)
    → any is_error (validate_chain v s) ≡ false
    → any is_error (chain_issues v s s.option_chain) ≡ false
unfolding validate_chain
validate_chain-parts v s h = h

market-positive :
    (s : AtomicSnapshot)
    → any is_error (validate_market s) ≡ false
    → is_positive (pricing_underlying s.market s.contract.market_kind) ≡ true
unfolding validate_market
market-positive s h = grind clean

spec-positive :
    (k : ContractSpec)
    → any is_error (validate_spec k) ≡ false
    → is_positive (some k.strike_interval) ≡ true
unfolding validate_spec
spec-positive k h = grind clean

contract-spec :
    (v : Validator) (s : AtomicSnapshot) (now : DateTime)
    → any is_error (validate_contract v s now) ≡ false
    → any is_error (validate_spec s.contract) ≡ false
unfolding validate_contract
contract-spec v s now h = grind clean

IsSurrounded-priced :
    (s : AtomicSnapshot) (price : Option Decimal)
    → pricing_underlying s.market s.contract.market_kind ≡ price
    → is_positive price ≡ true
    → is_positive (some s.contract.strike_interval) ≡ true
    → any is_error (strikes_issues s.contract s.option_chain (strikes_of s.option_chain) price)
      ≡ false
    → IsSurrounded s
IsSurrounded-priced s none e p i h = ground (arith, p)
IsSurrounded-priced s (some underlying) e p i h = IsSurrounded-topology s underlying e p i h

-- An accepted report's chain is not empty. Each leg is priced, has the contract's expiry, and has
-- its strike, side and security ID in the contract master; no two legs share a strike and side, or
-- a security ID; and the two strikes on each side of the one nearest to the positive price are
-- there, each with a call and a put in the chain and in the master.
pub accepted-IsChain :
    (v : Validator) (s : AtomicSnapshot) (now : DateTime)
    → accepted (validate v s now) ≡ true
    → IsChain v s
accepted-IsChain v s now h =
    let w = accepted-IsWhole v s now h in
    let (nonempty, quotes, strikes) =
      chain-parts v s s.option_chain (validate_chain-parts v s w.chain) in
    let differ = (quotes_IsNew v s 0 [] [] [] s.option_chain quotes).1 in
    record {
      nonempty = nonempty;
      legs = quotes_IsLeg v s 0 [] [] [] s.option_chain quotes;
      keys_differ = differ.0;
      ids_differ = differ.1;
      surrounded =
          IsSurrounded-priced s (pricing_underlying s.market s.contract.market_kind) refl
            (market-positive s w.market)
            (spec-positive s.contract (contract-spec v s now w.contract)) strikes;
    }
