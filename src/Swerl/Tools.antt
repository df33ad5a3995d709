-- ===== src/Swerl/Tools.antt =====
-- cwm/rl/swerl/tools.py and default_tools.py: the tool calls in an answer, and the tools. The
-- matches of the regular expression and the shell of the container are parameters.
pub mod Calls
mod Tests
use cwm.Prelude.{
  ℕ, zero, suc, ◌+◌, ◌-◌, ◌/◌, ◌%◌, Bool, true, false, ◌&&◌, ◌||◌, not, List, [], ◌∷◌, ◌++◌, Option,
  none, some, ◌==◌, ltb, if◌then◌else◌, length, map,
}
use cwm.Prelude.Text.{codes, same, starts_with}
use cwm.Prelude.Dict.{get}
use cwm.Swerl.Grading.{Name}
use cwm.Dialog.Tokenizer.{Text, strip}

-- `str(n)` for a number, with rounds for its digits.
digits : ℕ → ℕ → Text → Text
digits zero n behind = behind
digits (suc rounds) n behind = elim (ltb n 10) [
  | true ↦ (48 + n) ∷ behind
  | false ↦ digits rounds (n / 10) ((48 + n % 10) ∷ behind)
]

unfoldable pub decimal : ℕ → Text
unfolding digits
decimal n = digits (suc n) n []

-- `text.count(w)` for a text `w` that is not empty; `skip` characters of a match are left.
unfoldable pub count : Text → ℕ → Text → ℕ
count w skip [] = 0
count w (suc skip) (c ∷ text) = count w skip text
count w zero (c ∷ text) = elim (starts_with w (c ∷ text)) [
  | true ↦ suc (count w (length w - 1) text)
  | false ↦ count w 0 text
]

-- `", ".join(names)`.
join : List Text → Text
join [] = []
join (n ∷ []) = n
join (n ∷ m ∷ ns) = n ++ codes ", " ++ join (m ∷ ns)

pub data Failure : Type 0 where
  format_error no_such_tool : Text → Failure

-- A result of `parse_tool_calls`.
pub data Parsed : Type 0 where
  refused : Failure → Parsed
  calls : List (Text × Text) → Parsed

cons_call : Text → Text → Parsed → Parsed
cons_call name input (refused e) = refused e
cons_call name input (calls cs) = calls ((name, input) ∷ cs)

-- The loop over the calls, with `ensure_nonempty_args`.
check_calls : List (Text × Text) → Parsed
unfolding cons_call
check_calls [] = calls []
check_calls ((name, input) ∷ cs) =
    let rest = check_calls cs in
    if same (strip input) []
    then refused (
        format_error (
          codes "Tool '"
          ++ strip name
          ++ codes "' requires non-empty arguments, but received empty or whitespace-only input."))
    else cons_call (strip name) input rest

too_many : List (Text × Text) → Text
unfolding join
too_many cs =
    codes "Expected one tool call, but found "
    ++ decimal (length cs)
    ++ codes ": "
    ++ join (map (λ c. c.0) cs)
    ++ codes ". Ensure only one <tool:...></tool> block is present in the response."

mismatch : ℕ → ℕ → ℕ → Text
mismatch n opening closing =
    codes "Mismatch in tool tag counts: found "
    ++ decimal n
    ++ codes " tool calls via regex, but counted "
    ++ decimal opening
    ++ codes " opening tags and "
    ++ decimal closing
    ++ codes " closing tags."

-- The checks on the calls that the regular expression finds.
unfoldable pub parse_found : List (Text × Text) → Text → Parsed
unfolding too_many mismatch check_calls
parse_found found raw_output =
    let opening = count (codes "<tool:") 0 raw_output in
    let closing = count (codes "</tool>") 0 raw_output in
    if ltb 1 (length found)
    then refused (format_error (too_many found))
    else if not (length found == opening) || not (length found == closing)
    then refused (format_error (mismatch (length found) opening closing))
    else if length found == 0
    then refused (format_error (codes "No tool calls found"))
    else check_calls found

-- `parse_tool_calls`; `findall` are the matches of TOOL_CALL_REGEX.
unfoldable pub parse_tool_calls : (Text → List (Text × Text)) → Text → Parsed
parse_tool_calls findall raw_output = parse_found (findall raw_output) raw_output

pub record ToolCallResult : Type 0 where
  pub output : Text
  pub success : Bool

pub data ErrorType : Type 0 where
  exit broken_pipe timeout too_long other_error : ErrorType

-- `status` is "success" without an error type.
pub record BashResult : Type 0 where
  pub error : Option ErrorType
  pub output : Text
  pub exit_code : ℕ

fresh_session : Text
fresh_session =
    codes " A fresh session has started with the current working directory reset to default."

session_ended : ErrorType → Text
session_ended timeout = codes "The current session has terminated due to timeout."
session_ended too_long =
    codes
      ("The current session has terminated because your previous command produced too much output.")
session_ended _ = codes "The current session has terminated unexpectedly."

bash_feedback : Option ErrorType → Text → ToolCallResult
unfolding session_ended fresh_session
bash_feedback none output = record { output = output; success = true }
bash_feedback (some e) output = record {
  output = session_ended e ++ fresh_session;
  success = false;
}

unfoldable pub bash_feedback_default : BashResult → ToolCallResult
unfolding bash_feedback
bash_feedback_default r = bash_feedback r.error r.output

unfoldable pub succeeded : BashResult → Bool
succeeded r = elim r.error [ none ↦ r.exit_code == 0 | some e ↦ false ]

failed_submit : Text → Text → ToolCallResult
failed_submit path why = record {
  output = codes "Failed to submit " ++ path ++ why;
  success = false;
}

submit_result : Text → BashResult → ToolCallResult
unfolding succeeded failed_submit
submit_result path r =
    if not (succeeded r)
    then failed_submit path (codes ". Make sure it exists and is readable.")
    else record { output = r.output; success = true }

submit_diff_result : Text → BashResult → ToolCallResult
unfolding succeeded failed_submit
submit_diff_result path r =
    if not (succeeded r)
    then failed_submit path (codes ". Make sure it exists and is readable.")
    else if same (strip r.output) []
    then failed_submit path (codes ". It is an empty file.")
    else if not (starts_with (codes "diff") r.output)
    then failed_submit path (codes ". It is not a valid diff file.")
    else record { output = r.output; success = true }

-- The result of `apply_tool`: an exception of the tool is `crashed`.
pub data Applied : Type 0 where
  applied : ToolCallResult → Applied
  unknown : Failure → Applied
  crashed : Applied

-- `none` is an exception of the shell.
on_result :
    {Backend : Type 0}
    → (BashResult → ToolCallResult)
    → Backend × Option BashResult
    → Backend × Option ToolCallResult
on_result f (b, none) = (b, none)
on_result f (b, some r) = (b, some (f r))

module _ {Backend : Type 0} (run_bash : Backend → Text → Backend × Option BashResult) where
  unfoldable pub make_bash : Backend → Text → Backend × Option ToolCallResult
  unfolding on_result
  make_bash b command = on_result bash_feedback_default (run_bash b command)

  unfoldable pub submit_file : Backend → Text → Backend × Option ToolCallResult
  unfolding on_result submit_result
  submit_file b command =
      on_result (submit_result (strip command)) (run_bash b (codes "cat " ++ strip command))

  unfoldable pub submit_diff_file : Backend → Text → Backend × Option ToolCallResult
  unfolding on_result submit_diff_result
  submit_diff_file b command =
      on_result (submit_diff_result (strip command)) (run_bash b (codes "cat " ++ strip command))

  plugin_result : BashResult → ToolCallResult
  unfolding succeeded
  plugin_result r = record { output = r.output; success = succeeded r }

  -- The command goes in as a here document.
  unfoldable pub make_python_plugin : Text → Backend → Text → Backend × Option ToolCallResult
  unfolding on_result plugin_result
  make_python_plugin script_path b command = on_result plugin_result (
      run_bash b (
        codes "${PYPLUGIN_PYTHON_PATH:-python3} "
        ++ script_path
        ++ codes " <<'EOF_938176592'\n"
        ++ command
        ++ codes "\nEOF_938176592"))

  abbrev pub ToolType : Type 0
  ToolType = Backend → Text → Backend × Option ToolCallResult

  abbrev pub default_tools : List (Name × ToolType)
  default_tools = (codes "bash", make_bash) ∷ (codes "submit", submit_diff_file) ∷ []

module _ {Backend : Type 0} where
  applied_of : Backend × Option ToolCallResult → Backend × Applied
  applied_of (b, none) = (b, crashed)
  applied_of (b, some r) = (b, applied r)

  apply_found :
      Option (Backend → Text → Backend × Option ToolCallResult)
      → Backend
      → Text
      → Text
      → Backend × Applied
  unfolding applied_of
  apply_found none b tool_name tool_input =
      (b, unknown (no_such_tool (codes "Tool '" ++ tool_name ++ codes "' not found.")))
  apply_found (some tool) b tool_name tool_input = applied_of (tool b tool_input)

  unfoldable pub apply_tool :
      List (Name × (Backend → Text → Backend × Option ToolCallResult))
      → Backend
      → Text
      → Text
      → Backend × Applied
  unfolding apply_found
  apply_tool tools b tool_name tool_input = apply_found (get tool_name tools) b tool_name tool_input
