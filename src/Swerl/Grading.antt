-- ===== src/Swerl/Grading.antt =====
-- cwm/rl/swerl/eval_backend/utils/grading.py: from the statuses of the tests to a verdict. A
-- status map is a dict from names to statuses, which are texts.
pub mod Verdict
mod Tests
use cwm.Prelude.{
  ℕ, ◌+◌, Bool, true, false, ◌&&◌, ◌||◌, List, [], ◌∷◌, ◌++◌, Option, none, some, ◌==◌, ltb,
  if◌then◌else◌, length,
}
use cwm.Prelude.Text.{same}
use cwm.Prelude.Dict.{get}

abbrev pub Name : Type 0
Name = List ℕ

-- The values of TestStatus.
abbrev pub passed : List ℕ
passed = 80 ∷ 65 ∷ 83 ∷ 83 ∷ 69 ∷ 68 ∷ []

abbrev pub failed : List ℕ
failed = 70 ∷ 65 ∷ 73 ∷ 76 ∷ 69 ∷ 68 ∷ []

abbrev pub skipped : List ℕ
skipped = 83 ∷ 75 ∷ 73 ∷ 80 ∷ 80 ∷ 69 ∷ 68 ∷ []

abbrev pub error : List ℕ
error = 69 ∷ 82 ∷ 82 ∷ 79 ∷ 82 ∷ []

abbrev pub xfail : List ℕ
xfail = 88 ∷ 70 ∷ 65 ∷ 73 ∷ 76 ∷ []

passed_status : Option (List ℕ) → Bool
passed_status none = false
passed_status (some s) = same s passed || same s xfail

failed_status : Option (List ℕ) → Bool
failed_status none = true
failed_status (some s) = same s failed || same s error

unfoldable pub test_passed : Name → List (Name × List ℕ) → Bool
unfolding passed_status
test_passed name sm = passed_status (get name sm)

unfoldable pub test_failed : Name → List (Name × List ℕ) → Bool
unfolding failed_status
test_failed name sm = failed_status (get name sm)

-- The lists "success" and "failure" of a kind of tests.
pub record Split : Type 0 where
  pub success : List Name
  pub failure : List Name

grade_case : List (Name × List ℕ) → Split → Name → Split
grade_case sm s name =
    if test_passed name sm
    then record s { success = s.success ++ name ∷ [] }
    else if test_failed name sm
    then record s { failure = s.failure ++ name ∷ [] }
    else s

-- The loop over the tests of a kind.
unfoldable pub grade_cases : List (Name × List ℕ) → Split → List Name → Split
unfolding grade_case
grade_cases sm s [] = s
grade_cases sm s (name ∷ names) = grade_cases sm (grade_case sm s name) names

-- The gold results; a key may be missing.
pub record Gold : Type 0 where
  pub fail_to_pass : Option (List Name)
  pub pass_to_pass : Option (List Name)
  pub fail_to_fail : Option (List Name)
  pub pass_to_fail : Option (List Name)

pub record Report : Type 0 where
  pub fail_to_pass : Split
  pub pass_to_pass : Split
  pub fail_to_fail : Split
  pub pass_to_fail : Split

abbrev pub nothing_yet : Split
nothing_yet = record { success = []; failure = [] }

-- The tests of one kind; `none` is the KeyError of a missing kind.
graded : List (Name × List ℕ) → Option (List Name) → Option Split
graded sm none = none
graded sm (some names) = some (grade_cases sm nothing_yet names)

report_of : Option Split → Option Split → Option Split → Option Split → Option Report
report_of (some a) (some b) (some c) (some d) =
    some (record { fail_to_pass = a; pass_to_pass = b; fail_to_fail = c; pass_to_fail = d })
report_of _ _ _ _ = none

unfoldable pub get_eval_tests_report : List (Name × List ℕ) → Gold → Bool → Option Report
unfolding graded report_of
get_eval_tests_report sm gold calculate_to_fail =
    report_of (graded sm gold.fail_to_pass) (graded sm gold.pass_to_pass)
      (if calculate_to_fail then graded sm gold.fail_to_fail else some nothing_yet)
      (if calculate_to_fail then graded sm gold.pass_to_fail else some nothing_yet)

-- A metric is a float, kept as the fraction that it is the value of.
pub record Fraction : Type 0 where
  pub num : ℕ
  pub den : ℕ

success_rate : Split → Fraction
success_rate s =
    let total = length s.success + length s.failure in
    if total == 0
    then record { num = 1; den = 1 }
    else record { num = length s.success; den = total }

unfoldable pub compute_fail_to_pass : Report → Fraction
unfolding success_rate
compute_fail_to_pass r = success_rate r.fail_to_pass

unfoldable pub compute_pass_to_pass : Report → Fraction
unfolding success_rate
compute_pass_to_pass r = success_rate r.pass_to_pass

pub data ResolvedStatus : Type 0 where
  resolved_no resolved_partial resolved_full : ResolvedStatus

-- `f == 1`, `f < 1 and f > 0`.
is_one : Fraction → Bool
is_one f = f.num == f.den

between : Fraction → Bool
between f = ltb f.num f.den && ltb 0 f.num

unfoldable pub get_resolution_status : Report → ResolvedStatus
unfolding is_one between compute_fail_to_pass compute_pass_to_pass
get_resolution_status r =
    let f2p = compute_fail_to_pass r in
    let p2p = compute_pass_to_pass r in
    if is_one f2p && is_one p2p
    then resolved_full
    else if between f2p && is_one p2p
    then resolved_partial
    else resolved_no
