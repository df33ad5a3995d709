-- ===== src/Evals/Majority/Tests.antt =====
-- The vote on four runs: one patch twice, another once, and a run without a patch.
use cwm.Prelude.{ℕ, ◌≡◌, ◌⊎◌, refl, true, false, List, [], ◌∷◌, none, some, length}
use cwm.Prelude.Text.{same}
use cwm.Evals.Majority.{
  Result, count_of, outcomes_of, tally_patch, tally, subsample, most_common, sum, no_patch, refused,
  selected, vote,
}
use cwm.Evals.Majority.Selected.{outcomes_for, Wins, vote_lem}

abbrev result : List ℕ → Result
result p = record { patch = p; passing = true }

abbrev four : List Result
four =
    result (1 ∷ []) ∷ result [] ∷ result (2 ∷ []) ∷ record { patch = 2 ∷ []; passing = false } ∷ []

-- One of two passed, which is not more than half.
most_frequent :
    vote none four ≡ selected (record { model_patch = 2 ∷ []; occurrences = 2; passing = false })
unfolding vote subsample tally tally_patch count_of outcomes_of same most_common sum
most_frequent = refl

first_of_equals :
    vote (some 3) four ≡ selected (record { model_patch = 1 ∷ []; occurrences = 1; passing = true })
unfolding vote subsample tally tally_patch count_of outcomes_of same most_common sum
first_of_equals = refl

-- With a limit of 0 all results are counted, and then the assertion on the limit fails.
limit_of_zero : vote (some 0) four ≡ refused
unfolding vote subsample tally tally_patch count_of outcomes_of same most_common sum
limit_of_zero = refl

vote_lem_example :
    ((vote (some 3) four ≡ no_patch)
      × ((c : ℕ) (w : List ℕ) → length (outcomes_for (some 3) four (c ∷ w)) ≡ 0))
    ⊎ ((c : ℕ) × (w : List ℕ) × Wins (some 3) four c w)
vote_lem_example = vote_lem (some 3) four (λ e. cc)
