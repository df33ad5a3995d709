-- ===== src/Swerl/Tools/Tests.antt =====
-- A call of a tool, and the submission of a patch.
use cwm.Prelude.{◌≡◌, refl, ◌↔◌, true, false, List, [], ◌∷◌, ◌++◌, Option, none, some}
use cwm.Prelude.Text.{codes, same, starts_with}
use cwm.Dialog.Tokenizer.{Text, strip}
use cwm.Swerl.Tools.{
  calls, parse_tool_calls, decimal, BashResult, unknown, no_such_tool, succeeded, submit_diff_file,
  default_tools, apply_tool,
}
use cwm.Swerl.Tools.Calls.{IsCall, parse_tool_calls_lem, submit_diff_file_lem}

abbrev answer : Text
answer = codes "<tool: bash>\nls\n</tool>"

abbrev find_it : Text → List (Text × Text)
find_it t = (codes "bash", codes "ls") ∷ []

parse_tool_calls_lem_example :
    (parse_tool_calls find_it answer ≡ calls ((codes "bash", codes "ls") ∷ [])) ↔ (
      (name : Text) × (input : Text) × (Path
        (List (Text × Text))
        ((codes "bash", codes "ls") ∷ [])
        ((name, input) ∷ []))
      × IsCall (find_it answer) answer name input)
parse_tool_calls_lem_example = parse_tool_calls_lem find_it answer ((codes "bash", codes "ls") ∷ [])

-- A shell that prints the same for every command.
abbrev prints : Text → Unit {0} → Text → Unit {0} × Option BashResult
prints out b command = (b, some (record { error = none; output = out; exit_code = 0 }))

handed_in :
    (submit_diff_file (prints (codes "diff a")) tt (codes " p ")).1
    ≡ some (record { output = codes "diff a"; success = true })
unfolding submit_diff_file succeeded strip cwm.Swerl.Log.is_space same starts_with
handed_in = refl

submit_diff_file_lem_example :
    (out : BashResult) × ((prints (codes "diff a") tt (codes "cat " ++ strip (codes " p "))).1
      ≡ some out)
    × (succeeded out ≡ true)
    × (same (strip (codes "diff a")) [] ≡ false)
    × (starts_with (codes "diff") (codes "diff a") ≡ true)
    × (codes "diff a" ≡ out.output)
submit_diff_file_lem_example =
    submit_diff_file_lem (prints (codes "diff a")) tt (codes " p ")
      (record { output = codes "diff a"; success = true }) handed_in refl

numbers : decimal 1205 ≡ codes "1205"
unfolding decimal
numbers = refl

no_tool :
    apply_tool (default_tools (prints [])) tt (codes "edit") (codes "x")
    ≡ (tt, unknown (no_such_tool (codes "Tool 'edit' not found.")))
unfolding apply_tool same
no_tool = refl
