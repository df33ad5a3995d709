-- ===== src/Swerl/Evaluation.antt =====
-- `get_logs_eval` and `get_eval_report` of cwm/rl/swerl/eval_backend/utils/grading.py: the log and the
-- gold results of an instance give its report. The log is given by its content. `str.lower` and
-- the table of the parsers of the repositories, of which most rest on regular expressions, are
-- parameters.
pub mod Resolved
mod Tests
use cwm.Prelude.{
  ℕ, zero, suc, ◌-◌, Bool, true, false, ◌&&◌, ◌||◌, not, List, [], ◌∷◌, ◌++◌, Option, none, some,
  ◌==◌, if◌then◌else◌, length, drop,
}
use cwm.Prelude.Text.{codes, same, occurs, starts_with}
use cwm.Prelude.Dict.{get}
use cwm.Swerl.Edit.{replace}
use cwm.Swerl.Grading.{
  Name, Gold, Report, ResolvedStatus, resolved_full, get_eval_tests_report, get_resolution_status,
}
use cwm.Swerl.Log.{pytest_statuses, all_statuses, parse_log}

abbrev pub StatusMap : Type 0
StatusMap = List (Name × List ℕ)

abbrev pub apply_ok_str : List ℕ
apply_ok_str = codes "+++ patch applied okay +++"

abbrev pub default_pytest_parser : List ℕ
default_pytest_parser = codes "pytest"

abbrev pub apply_patch_pass : List ℕ
apply_patch_pass = codes ">>>>> Applied Patch"

-- The texts of which none may be in the log.
abbrev pub failures : List (List ℕ)
failures =
    codes ">>>>> Patch Apply Failed"
    ∷ codes ">>>>> Reset Failed"
    ∷ codes ">>>>> Tests Errored"
    ∷ codes ">>>>> Tests Timed Out"
    ∷ codes "Failed to reset task environment"
    ∷ []

any_in : List (List ℕ) → List ℕ → Bool
any_in [] text = false
any_in (w ∷ ws) text = occurs w text || any_in ws text

-- `text.split(w)[-1]`: the text behind the last match; `tail` is what follows the matches so far,
-- and `skip` characters of a match are left.
unfoldable pub last_part : List ℕ → List ℕ → ℕ → List ℕ → List ℕ
last_part w tail skip [] = tail
last_part w tail (suc skip) (c ∷ text) = last_part w tail skip text
last_part w tail zero (c ∷ text) = elim (starts_with w (c ∷ text)) [
  | true ↦ last_part w (drop (length w) (c ∷ text)) (length w - 1) text
  | false ↦ last_part w tail zero text
]

-- `"-".join(text.split("-")[:-1])`: the text before the last dash; empty if there is no dash.
before_dash : List ℕ → Option (List ℕ)
before_dash [] = none
before_dash (c ∷ text) = elim (before_dash text) [
  | some u ↦ some (c ∷ u)
  | none ↦ if c == 45 then some [] else none
]

or_empty : Option (List ℕ) → List ℕ
or_empty none = []
or_empty (some u) = u

unfoldable pub repo_of : List ℕ → List ℕ
unfolding before_dash or_empty
repo_of instance_id = or_empty (before_dash (replace (codes "__") (codes "/") 0 instance_id))

unfoldable pub parse_pytest_logs : List ℕ → StatusMap × Bool
parse_pytest_logs logs =
    if not (occurs apply_ok_str logs) then ([], false) else (parse_log pytest_statuses logs, true)

parser_of : Option (List ℕ → StatusMap) → List ℕ → StatusMap
parser_of none = parse_log all_statuses
parser_of (some parser) = parser

-- What stands in the prediction and in the specification of the test.
pub record Instance : Type 0 where
  pub instance_id : Name
  pub model_patch : Option (List ℕ)
  pub test_parser : Option (List ℕ)
  pub fail_to_pass : List Name
  pub pass_to_pass : List Name

-- The entry of the instance; the key `none` is set for a missing patch.
pub record Entry : Type 0 where
  pub key_none : Bool
  pub patch_is_none : Bool
  pub patch_exists : Bool
  pub patch_successfully_applied : Bool
  pub resolved : Bool
  pub tests_status : Option Report

abbrev pub no_patch : Entry
no_patch = record {
  key_none = true;
  patch_is_none = false;
  patch_exists = false;
  patch_successfully_applied = false;
  resolved = false;
  tests_status = none;
}

abbrev pub not_applied : Entry
not_applied = record {
  key_none = false;
  patch_is_none = false;
  patch_exists = true;
  patch_successfully_applied = false;
  resolved = false;
  tests_status = none;
}

abbrev pub gold_of : Instance → Gold
gold_of t = record {
  fail_to_pass = some t.fail_to_pass;
  pass_to_pass = some t.pass_to_pass;
  fail_to_fail = none;
  pass_to_fail = none;
}

is_full : ResolvedStatus → Bool
is_full resolved_full = true
is_full _ = false

entry_of : Bool → Option Report → Option Entry
entry_of include none = none
entry_of include (some r) = some (record {
  key_none = false;
  patch_is_none = false;
  patch_exists = true;
  patch_successfully_applied = true;
  resolved = is_full (get_resolution_status r);
  tests_status = if include then some r else none;
})

-- The report after the log is read; `none` is an exception.
report_on : Bool → Instance → Option (StatusMap × Bool) → Option Entry
report_on include t none = none
report_on include t (some (sm, false)) = some not_applied
report_on include t (some (sm, true)) =
    entry_of include (get_eval_tests_report sm (gold_of t) false)

module _ (lower : List ℕ → List ℕ) (parsers : List (Name × (List ℕ → StatusMap))) where
  -- The log of an instance with the parsers of the repositories.
  unfoldable pub swegym_logs : List ℕ → Name → StatusMap × Bool
  unfolding any_in parser_of
  swegym_logs content instance_id =
      if any_in failures content || not (occurs (codes "applied patch") (lower content))
      then ([], false)
      else (
        parser_of (get (repo_of instance_id) parsers)
            (last_part (apply_patch_pass ++ codes " (pred)") content 0 content),
        true,
      )

  -- `none` is the RuntimeError of an unknown parser.
  unfoldable pub get_logs_eval : List ℕ → Name → Option (List ℕ) → Option (StatusMap × Bool)
  get_logs_eval content instance_id none = some (swegym_logs content instance_id)
  get_logs_eval content instance_id (some parser) =
      if same parser default_pytest_parser then some (parse_pytest_logs content) else none

  report_patch : Bool → Instance → List ℕ → Option (List ℕ) → Option Entry
  unfolding report_on
  report_patch include t content none = some no_patch
  report_patch include t content (some patch) =
      report_on include t (get_logs_eval content t.instance_id t.test_parser)

  unfoldable pub get_eval_report : Bool → Instance → List ℕ → Option Entry
  unfolding report_patch entry_of is_full
  get_eval_report include t content = report_patch include t content t.model_patch
