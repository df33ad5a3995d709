-- ===== src/Rl/Outcomes/Samples.antt =====
-- The number of samples that a specification asks for.
use mathlib.Core.Option.{some-injective}
use cwm.Prelude.{
  ℕ, zero, suc, ◌*◌, ◌≤◌, ◌≡◌, ap, ◌∙◌, true, List, [], ◌∷◌, Option, some, ltb, if◌then◌else◌,
  get_elem?, le→leb, arith,
}
use cwm.Dialog.Tokenizer.{Text}
use cwm.Rl.Outcomes.{
  Spec, max_of, samples_for, enough, get_ks, infer_n_samples, validate_aggregation_spec,
}

max_of_bound : (ks : List ℕ) (i k : ℕ) → get_elem? ks i ≡ some k → k ≤ max_of ks
unfolding max_of
max_of_bound [] i k h = cc
max_of_bound (x ∷ ks) zero k h = let e = some-injective x k h in omega (arith, e)
max_of_bound (x ∷ ks) (suc i) k h = let p = max_of_bound ks i k h in omega (arith, p)

samples_bound : (m : ℕ) → m ≤ (if ltb 1 m then 2 * m else 1)
samples_bound m = ground arith

-- If every number of the specification can be read, then a number of samples is inferred with which
-- the specification is valid, and no k of it is greater than that number.
pub infer_n_samples_lem :
    (parse : Text → Option ℕ) (spec : Spec) (ks : List ℕ)
    → get_ks parse spec ≡ some ks
    → (n : ℕ) × (infer_n_samples parse spec ≡ some n)
      × (validate_aggregation_spec parse spec n ≡ true)
      × ((i k : ℕ) → get_elem? ks i ≡ some k → k ≤ n)
unfolding infer_n_samples validate_aggregation_spec enough samples_for
infer_n_samples_lem parse spec ks h =
    let n = (if ltb 1 (max_of ks) then 2 * max_of ks else 1) in
    let b = samples_bound (max_of ks) in
    (
      n,
      ap samples_for h,
      ap (enough n) h ∙ le→leb (max_of ks) n b,
      λ i k e. let p = max_of_bound ks i k e in omega (arith, p, b),
    )
