-- ===== src/Swerl/Evaluation/Tests.antt =====
-- An instance whose log has one test that passed last and one that failed.
use mathlib.Core.List.{List, [], ◌∷◌}
use cwm.Prelude.{ℕ, ◌≡◌, refl, ◌↔◌, true, false, Option, none, some, map}
use cwm.Prelude.Text.{codes, occurs}
use cwm.Swerl.Grading.Verdict.{Some, HasFailed}
use cwm.Swerl.Log.Lines.{lines_text}
use cwm.Swerl.Log.Parsed.{line_text, results}
use cwm.Swerl.Log.Tests.{log_lines, log_readable, log_lines_free}
use cwm.Swerl.Evaluation.{
  apply_ok_str, default_pytest_parser, Instance, Entry, no_patch, not_applied, repo_of, last_part,
  swegym_logs, get_logs_eval, get_eval_report,
}
use cwm.Swerl.Evaluation.Resolved.{get_eval_report_lem}

abbrev sample : Instance
sample = record {
  instance_id = codes "o__r-1";
  model_patch = some (codes "p");
  test_parser = some default_pytest_parser;
  fail_to_pass = codes "b.py::u" ∷ [];
  pass_to_pass = codes "a.py::t" ∷ [];
}

abbrev keep : List ℕ → List ℕ
keep t = t

applied : occurs apply_ok_str (lines_text (map line_text log_lines)) ≡ true
unfolding occurs cwm.Prelude.Text.starts_with line_text
applied = refl

get_eval_report_lem_example :
    (e : Entry) × (get_eval_report keep [] false sample (lines_text (map line_text log_lines))
      ≡ some e)
    × ((e.resolved ≡ true) ↔ (
        ¬ Some (HasFailed (results log_lines [])) (codes "b.py::u" ∷ [])
        × ¬ Some (HasFailed (results log_lines [])) (codes "a.py::t" ∷ [])))
get_eval_report_lem_example =
    get_eval_report_lem keep [] false sample (codes "p") log_lines refl refl log_readable
      log_lines_free applied

repo_of_run : repo_of (codes "scikit-learn__scikit-learn-12421") ≡ codes "scikit-learn/scikit-learn"
unfolding repo_of cwm.Swerl.Edit.replace cwm.Prelude.Text.starts_with
repo_of_run = refl

last_part_run : last_part (codes "ab") (codes "xabyabz") 0 (codes "xabyabz") ≡ codes "z"
unfolding last_part cwm.Prelude.Text.starts_with
last_part_run = refl

no_patch_run :
    get_eval_report keep [] false (record sample { model_patch = none }) [] ≡ some no_patch
unfolding get_eval_report
no_patch_run = refl

not_applied_run : get_eval_report keep [] false sample (codes "FAILED a") ≡ some not_applied
unfolding get_eval_report get_logs_eval cwm.Swerl.Evaluation.parse_pytest_logs occurs
    cwm.Prelude.Text.starts_with cwm.Prelude.Text.same
not_applied_run = refl
