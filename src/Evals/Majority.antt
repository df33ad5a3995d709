-- ===== src/Evals/Majority.antt =====
-- evals/scripts/swerl/tts_majority_voting.py: of the patches that the runs on one instance made,
-- the most frequent one is selected. `vote` is what `main` does for one instance, with its runs in
-- the order that the shuffle left them. The files and the reports are not modelled.
pub mod Counts
pub mod Selected
mod Tests
use cwm.Prelude.{
  ℕ, zero, suc, ◌+◌, ◌*◌, Bool, true, false, ◌&&◌, List, [], ◌∷◌, ◌++◌, Option, none, some, ltb,
  leb, if◌then◌else◌, length, take,
}
use cwm.Prelude.Dict.{get, modify}

-- A result of a run: the patch, empty if there is none, and whether it passed.
pub record Result : Type 0 where
  pub patch : List ℕ
  pub passing : Bool

-- `patch_counts` and `patch_outcomes` of the instance.
pub record Tally : Type 0 where
  pub counts : List (List ℕ × ℕ)
  pub outcomes : List (List ℕ × List Bool)

-- `counter[patch] += 1`; a Counter has 0 for a missing key.
unfoldable pub count_of : Option ℕ → ℕ
count_of none = 0
count_of (some n) = n

unfoldable pub outcomes_of : Option (List Bool) → List Bool
outcomes_of none = []
outcomes_of (some bs) = bs

-- An empty patch is skipped.
unfoldable pub tally_patch : Tally → List ℕ → Bool → Tally
unfolding count_of outcomes_of
tally_patch t [] passing = t
tally_patch t (c ∷ w) passing = record {
  counts = modify (λ o. count_of o + 1) (c ∷ w) t.counts;
  outcomes = modify (λ o. outcomes_of o ++ passing ∷ []) (c ∷ w) t.outcomes;
}

-- The loop over the results.
unfoldable pub tally : Tally → List Result → Tally
tally t [] = t
tally t (r ∷ rs) = tally (tally_patch t r.patch r.passing) rs

-- `if args.max_samples > 0 and len(results) > args.max_samples`; `none` is the default -1.
unfoldable pub subsample : Option ℕ → List Result → List Result
subsample none rs = rs
subsample (some n) rs = if ltb 0 n && ltb n (length rs) then take n rs else rs

-- `most_common(1)`: the first entry of the highest count.
unfoldable pub most_common : List ℕ × ℕ → List (List ℕ × ℕ) → List ℕ × ℕ
most_common best [] = best
most_common best (e ∷ es) = elim (ltb best.1 e.1) [
  | true ↦ most_common e es
  | false ↦ most_common best es
]

-- `sum` of Booleans.
unfoldable pub sum : List Bool → ℕ
sum [] = 0
sum (b ∷ bs) = (if b then 1 else 0) + sum bs

-- What is selected for an instance.
pub record Selection : Type 0 where
  pub model_patch : List ℕ
  pub occurrences : ℕ
  pub passing : Bool

-- An instance without a patch has no entry in `patch_counts`; `refused` is the failed assertion.
pub data Vote : Type 0 where
  no_patch refused : Vote
  selected : Selection → Vote

within : Option ℕ → ℕ → Bool
within none n = true
within (some m) n = leb n m

-- `passing` is `sum(outcomes) > len(outcomes) / 2`.
selection : Option ℕ → List (List ℕ × List Bool) → List ℕ × ℕ → Vote
unfolding within outcomes_of
selection max_samples outcomes (patch, occurrences) =
    let bs = outcomes_of (get patch outcomes) in
    if within max_samples occurrences
    then selected (record {
      model_patch = patch;
      occurrences = occurrences;
      passing = ltb (length bs) (2 * sum bs);
    })
    else refused

choose : Option ℕ → Tally → List (List ℕ × ℕ) → Vote
unfolding selection
choose max_samples t [] = no_patch
choose max_samples t (e ∷ es) = selection max_samples t.outcomes (most_common e es)

unfoldable pub vote : Option ℕ → List Result → Vote
unfolding choose
vote max_samples rs =
    let t = tally (record { counts = []; outcomes = [] }) (subsample max_samples rs) in
    choose max_samples t t.counts
