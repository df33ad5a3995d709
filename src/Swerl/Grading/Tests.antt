-- ===== src/Swerl/Grading/Tests.antt =====
-- The grading on three tests: one passed, one failed to run, one skipped.
use cwm.Prelude.{ℕ, ◌≡◌, refl, ◌↔◌, true, false, List, [], ◌∷◌, Option, none, some}
use cwm.Prelude.Text.{same}
use cwm.Swerl.Grading.{
  Name, passed, error, skipped, test_passed, test_failed, grade_cases, Gold, Report,
  get_eval_tests_report, ResolvedStatus, resolved_partial, resolved_full, get_resolution_status,
}
use cwm.Swerl.Grading.Verdict.{
  Some, HasPassed, HasFailed, passes, fails, split_of, get_resolution_status_lem,
}

abbrev statuses : List (Name × List ℕ)
statuses = (1 ∷ [], passed) ∷ (2 ∷ [], error) ∷ (3 ∷ [], skipped) ∷ []

abbrev gold_of : List Name → List Name → Gold
gold_of f2p p2p = record {
  fail_to_pass = some f2p;
  pass_to_pass = some p2p;
  fail_to_fail = none;
  pass_to_fail = none;
}

verdict : Option Report → Option ResolvedStatus
verdict none = none
verdict (some r) = some (get_resolution_status r)

one_failed :
    verdict
      (get_eval_tests_report statuses (gold_of ((1 ∷ []) ∷ (2 ∷ []) ∷ []) ((1 ∷ []) ∷ [])) false)
    ≡ some resolved_partial
unfolding verdict get_eval_tests_report get_resolution_status grade_cases test_passed test_failed
    same
one_failed = refl

-- A test that was skipped is no failure: it counts for nothing.
skipped_counts_for_nothing :
    verdict (get_eval_tests_report statuses (gold_of ((3 ∷ []) ∷ []) ((1 ∷ []) ∷ [])) false)
    ≡ some resolved_full
unfolding verdict get_eval_tests_report get_resolution_status grade_cases test_passed test_failed
    same
skipped_counts_for_nothing = refl

-- A key that is missing is an error.
no_gold_to_fail : get_eval_tests_report statuses (gold_of ((1 ∷ []) ∷ []) []) true ≡ none
unfolding get_eval_tests_report
no_gold_to_fail = refl

get_resolution_status_lem_example :
    (r : Report) × (get_eval_tests_report statuses
        (gold_of ((1 ∷ []) ∷ (2 ∷ []) ∷ []) ((3 ∷ []) ∷ []))
        false
      ≡ some r)
    × (r.fail_to_pass ≡ split_of statuses ((1 ∷ []) ∷ (2 ∷ []) ∷ []))
    × (r.pass_to_pass ≡ split_of statuses ((3 ∷ []) ∷ []))
    × ((name : Name) → (passes statuses name ≡ true) ↔ HasPassed statuses name)
    × ((name : Name) → (fails statuses name ≡ true) ↔ HasFailed statuses name)
    × ((get_resolution_status r ≡ resolved_full) ↔ (
        ¬ Some (HasFailed statuses) ((1 ∷ []) ∷ (2 ∷ []) ∷ [])
        × ¬ Some (HasFailed statuses) ((3 ∷ []) ∷ [])))
    × ((get_resolution_status r ≡ resolved_partial) ↔ (
        Some (HasFailed statuses) ((1 ∷ []) ∷ (2 ∷ []) ∷ [])
        × Some (HasPassed statuses) ((1 ∷ []) ∷ (2 ∷ []) ∷ [])
        × ¬ Some (HasFailed statuses) ((3 ∷ []) ∷ [])))
get_resolution_status_lem_example =
    get_resolution_status_lem statuses (gold_of ((1 ∷ []) ∷ (2 ∷ []) ∷ []) ((3 ∷ []) ∷ []))
      ((1 ∷ []) ∷ (2 ∷ []) ∷ []) ((3 ∷ []) ∷ []) refl refl
