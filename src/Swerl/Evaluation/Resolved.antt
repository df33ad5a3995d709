-- ===== src/Swerl/Evaluation/Resolved.antt =====
-- When an instance is resolved.
use cwm.Prelude.{
  ℕ, ◌≡◌, refl, ap, sym, ◌∙◌, ◌↔◌, Bool, true, false, List, [], ◌∷◌, Option, none, some, map,
  if◌then◌else◌,
}
use cwm.Prelude.Text.{occurs}
use cwm.Swerl.Grading.{
  Name, ResolvedStatus, resolved_no, resolved_partial, resolved_full, get_resolution_status,
}
use cwm.Swerl.Grading.Verdict.{Some, HasFailed, get_resolution_status_lem}
use cwm.Swerl.Log.{pytest_statuses, has_status}
use cwm.Swerl.Log.Lines.{AllFree, is_newline, lines_text}
use cwm.Swerl.Log.Parsed.{Line, line_text, results, AllReadable, parse_log_lem}
use cwm.Swerl.Evaluation.{
  StatusMap, apply_ok_str, default_pytest_parser, Instance, Entry, gold_of, is_full, entry_of,
  report_on, parse_pytest_logs, get_logs_eval, get_eval_report, report_patch,
}

is_full_iff : (s : ResolvedStatus) → (is_full s ≡ true) ↔ (s ≡ resolved_full)
unfolding is_full
is_full_iff resolved_no = (λ e. cc, λ e. cc)
is_full_iff resolved_partial = (λ e. cc, λ e. cc)
is_full_iff resolved_full = (λ e. refl, λ e. refl)

no_status : has_status pytest_statuses [] ≡ false
unfolding has_status cwm.Prelude.Text.starts_with
no_status = refl

pytest_name : cwm.Prelude.Text.same default_pytest_parser default_pytest_parser ≡ true
unfolding cwm.Prelude.Text.same
pytest_name = refl

report_on-full :
    (include : Bool) (t : Instance) (sm : StatusMap)
    → (e : Entry) × (report_on include t (some (sm, true)) ≡ some e)
      × ((e.resolved ≡ true)
          ↔ (¬ Some (HasFailed sm) t.fail_to_pass × ¬ Some (HasFailed sm) t.pass_to_pass))
unfolding report_on entry_of
report_on-full include t sm =
    let (r, f, _, _, _, _, (full, full'), _) =
      get_resolution_status_lem sm (gold_of t) t.fail_to_pass t.pass_to_pass refl refl in
    let (i, i') = is_full_iff (get_resolution_status r) in
    (_, ap (entry_of include) f, (λ y. full (i y), λ c. i' (full' c)))

module _ (lower : List ℕ → List ℕ) (parsers : List (Name × (List ℕ → StatusMap))) where
  logs_pytest :
      (ls : List Line) (id : Name)
      → AllReadable pytest_statuses ls
      → AllFree is_newline (map line_text ls)
      → occurs apply_ok_str (lines_text (map line_text ls)) ≡ true
      → get_logs_eval lower parsers (lines_text (map line_text ls)) id (some default_pytest_parser)
        ≡ some (results ls [], true)
  unfolding get_logs_eval parse_pytest_logs
  logs_pytest ls id h f o =
      rw (pytest_name, o)
        (ap (λ m. some (m, true)) (parse_log_lem pytest_statuses ls h f no_status))

  -- For an instance with a patch and the parser "pytest", a log that is made of readable lines and
  -- says somewhere that the patch was applied gives an entry, which is marked as resolved exactly
  -- if no test of FAIL_TO_PASS and none of PASS_TO_PASS failed: a test failed if it has no result
  -- line, or if the status of the last result line of its name is FAILED or ERROR.
  pub get_eval_report_lem :
      (include : Bool) (t : Instance) (patch : List ℕ) (ls : List Line)
      → t.model_patch ≡ some patch
      → t.test_parser ≡ some default_pytest_parser
      → AllReadable pytest_statuses ls
      → AllFree is_newline (map line_text ls)
      → occurs apply_ok_str (lines_text (map line_text ls)) ≡ true
      → (e : Entry) × (get_eval_report lower parsers include t (lines_text (map line_text ls))
          ≡ some e)
        × ((e.resolved ≡ true) ↔ (
            ¬ Some (HasFailed (results ls [])) t.fail_to_pass
            × ¬ Some (HasFailed (results ls [])) t.pass_to_pass))
  unfolding get_eval_report report_patch
  get_eval_report_lem include t patch ls p q h f o =
      let (e, r, i) = report_on-full include t (results ls []) in
      let text = lines_text (map line_text ls) in
      let at = report_on include t in
      (
        e,
        ap (report_patch lower parsers include t text) p
            ∙ ap (λ q. at (get_logs_eval lower parsers text t.instance_id q)) q
            ∙ ap at (logs_pytest ls t.instance_id h f o)
            ∙ r,
        i,
      )
