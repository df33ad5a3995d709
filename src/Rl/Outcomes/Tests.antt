-- ===== src/Rl/Outcomes/Tests.antt =====
-- Values for five samples.
use cwm.Prelude.{
  ℕ, ◌-◌, ◌*◌, ◌<◌, ◌≤◌, ◌≡◌, refl, true, List, [], ◌∷◌, Option, none, some, length, get_elem?,
  arith,
}
use cwm.Prelude.Text.{codes}
use cwm.Dialog.Tokenizer.{Text}
use cwm.Rl.Outcomes.{
  Fraction, comb, misses, tries, pass_at_k, rank_sum, rank_score_at_k, Spec, get_ks,
  infer_n_samples, validate_aggregation_spec,
}
use cwm.Rl.Outcomes.Passes.{pass_at_k_lem}
use cwm.Rl.Outcomes.Ranks.{rank_score_at_k_lem}
use cwm.Rl.Outcomes.Samples.{infer_n_samples_lem}

pass_at_k_lem_example :
    (0 < (pass_at_k 5 2 3).den)
    × ((pass_at_k 5 2 3).num * comb 5 3 ≡ (pass_at_k 5 2 3).den * (comb 5 3 - comb 3 3))
pass_at_k_lem_example = pass_at_k_lem 5 2 3 (omega arith) (omega arith)

nine_tenths : pass_at_k 5 2 3 ≡ record { num = 18; den = 20 }
unfolding pass_at_k misses tries
nine_tenths = refl

abbrev ranked : List ℕ
ranked = 0 ∷ 1 ∷ 1 ∷ 0 ∷ []

rank_score_at_k_lem_example :
    (f : Fraction) × (rank_score_at_k 4 2 ranked ≡ some f) × (0 < f.den) × (f.num ≤ f.den)
rank_score_at_k_lem_example =
    rank_score_at_k_lem 4 2 ranked (omega arith) (omega arith) (omega arith)
      (omega arith, (omega arith, (omega arith, (omega arith, tt))))

half : rank_score_at_k 4 2 ranked ≡ some (record { num = 3; den = 6 })
unfolding rank_score_at_k rank_sum comb
half = refl

abbrev digit : Text → Option ℕ
digit [] = none
digit (c ∷ t) = some (c - 48)

abbrev spec : Spec
spec = (codes "pass", codes "@5" ∷ codes "mean" ∷ []) ∷ (codes "compile", codes "@1" ∷ []) ∷ []

two_ks : get_ks digit spec ≡ some (5 ∷ 1 ∷ [])
unfolding get_ks cwm.Prelude.Text.starts_with
two_ks = refl

infer_n_samples_lem_example :
    (n : ℕ) × (infer_n_samples digit spec ≡ some n)
    × (validate_aggregation_spec digit spec n ≡ true)
    × ((i k : ℕ) → get_elem? (5 ∷ 1 ∷ []) i ≡ some k → k ≤ n)
infer_n_samples_lem_example = infer_n_samples_lem digit spec (5 ∷ 1 ∷ []) two_ks
