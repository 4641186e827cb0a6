-- ===== src/Validation/Sound/Recomputed.antt =====
-- A change of open interest against one earlier snapshot.
use techo_quant_options_pro.Prelude.{
  ℕ, String, true, false, Option, none, some, List, [], ◌∷◌, ◌≡◌, refl, arith, any, select,
}
use techo_quant_options_pro.Domain.Models.{AtomicSnapshot, OptionQuote, PreviousOptionSnapshot}
use techo_quant_options_pro.Validation.Issues.{Validator, Loaded, is_error}
use techo_quant_options_pro.Validation.Reference.{
  is_same_leg, is_other_delta, interval_mismatch, prior_leg_issues, legs_issues, is_mismatched,
  previous_issues,
}
use techo_quant_options_pro.Validation.Sound.{clean}

prior_leg-parts :
    (s : AtomicSnapshot) (q : OptionQuote) (previous : PreviousOptionSnapshot) (n : ℕ)
    (prior : OptionQuote)
    → any is_error (prior_leg_issues s q previous n prior) ≡ false
    → (interval_mismatch s q previous prior ≡ false)
      × (is_other_delta q.change_open_interest q.open_interest prior.open_interest ≡ false)
unfolding prior_leg_issues
prior_leg-parts s q previous n prior h = grind clean

legs-parts :
    (s : AtomicSnapshot) (q : OptionQuote) (previous : PreviousOptionSnapshot) (n : ℕ)
    (legs : List OptionQuote)
    → any is_error (legs_issues s q previous n legs) ≡ false
    → (prior : OptionQuote) × (legs ≡ prior ∷ [])
      × (any is_error (prior_leg_issues s q previous n prior) ≡ false)
legs-parts s q previous n [] h = ground arith
legs-parts s q previous n (prior ∷ []) h = (prior, refl, h)
legs-parts s q previous n (prior ∷ _ ∷ _) h = ground arith

previous-parts :
    (v : Validator) (s : AtomicSnapshot) (q : OptionQuote) (id : String) (n : ℕ)
    (previous : PreviousOptionSnapshot)
    → any is_error (previous_issues v s q id n (some previous)) ≡ false
    → (is_mismatched v s id previous ≡ false)
      × (any is_error (legs_issues s q previous n (select (is_same_leg q) previous.option_chain))
          ≡ false)
unfolding previous_issues
previous-parts v s q id n previous h = ground arith

previous_none :
    (v : Validator) (s : AtomicSnapshot) (q : OptionQuote) (id : String) (n : ℕ)
    → any is_error (previous_issues v s q id n none) ≡ true
unfolding previous_issues
previous_none v s q id n = refl

-- The loader answers with this snapshot, and the quote agrees with it.
pub record IsRecomputed (v : Validator) (s : AtomicSnapshot) (q : OptionQuote) : Type 0 where
  pub id : String
  pub named : q.change_oi_source_snapshot_id ≡ some id
  pub load : String → Loaded
  pub loader : v.loader ≡ some load
  pub previous : PreviousOptionSnapshot
  pub answered : load id ≡ Loaded.answered (some previous)
  pub matched : is_mismatched v s id previous ≡ false
  pub prior : OptionQuote
  pub only : select (is_same_leg q) previous.option_chain ≡ prior ∷ []
  pub interval : interval_mismatch s q previous prior ≡ false
  pub delta : is_other_delta q.change_open_interest q.open_interest prior.open_interest ≡ false

pub recomputed :
    (v : Validator) (s : AtomicSnapshot) (q : OptionQuote) (n : ℕ) (id : String)
    (load : String → Loaded) (o : Option PreviousOptionSnapshot)
    → q.change_oi_source_snapshot_id ≡ some id
    → v.loader ≡ some load
    → ((p : PreviousOptionSnapshot) → o ≡ some p → load id ≡ Loaded.answered (some p))
    → any is_error (previous_issues v s q id n o) ≡ false
    → IsRecomputed v s q
recomputed v s q n id load none named loader faithful h = ground (arith, previous_none v s q id n)
recomputed v s q n id load (some previous) named loader faithful h =
    let (matched, legs) = previous-parts v s q id n previous h in
    let (prior, only, leg) =
      legs-parts s q previous n (select (is_same_leg q) previous.option_chain) legs in
    let (interval, delta) = prior_leg-parts s q previous n prior leg in
    record {
      id = id;
      named = named;
      load = load;
      loader = loader;
      previous = previous;
      answered = faithful previous refl;
      matched = matched;
      prior = prior;
      only = only;
      interval = interval;
      delta = delta;
    }
