-- ===== src/Rl/SwerlTool.antt =====
-- cwm/rl/envs/envs/swerl_tool.py: the environment in which an agent works in a container, with a
-- tool call in each turn, until it hands in a patch and sums up. The container, the test run of a
-- patch and the comparison of patches are parameters. What `info` tells human readers is left out.
pub mod Step
pub mod Episode
mod Tests
use Prim.Native.Nat.{min}
use cwm.Prelude.{
  ℕ, zero, suc, ◌+◌, ◌-◌, Bool, true, false, ◌&&◌, ◌||◌, not, List, [], ◌∷◌, ◌++◌, Option, none,
  some, ◌==◌, ltb, leb, if◌then◌else◌, length, drop,
}
use cwm.Prelude.Text.{codes, occurs, same, starts_with}
use cwm.Dialog.Tokenizer.{
  Text, Encoding, Message, strip, user_message, assistant_message, tool_result, encode_message,
}
use cwm.Dialog.Truncate.{right, maybe_truncate_message}
use cwm.Swerl.Grading.{Name}
use cwm.Swerl.Tools.{Failure, format_error, no_such_tool, ToolCallResult, decimal}

-- SWERLConfig, as far as the steps read it. `threshold` is swerl_reward_threshold.
pub record Config (Real : Type 0) : Type 0 where
  pub context_size : ℕ
  pub max_user_turn_len : ℕ
  pub max_action_len : ℕ
  pub max_turns : ℕ
  pub threshold : Option Real
  pub use_execution_reward : Bool
  pub strict_format : Bool
  pub think : Bool
  pub use_think_tag : Bool
  pub backend_is_modal : Bool

-- SWERLState with the backend of its episode.
pub record State (Backend : Type 0) : Type 0 where
  pub step_id : ℕ
  pub tool_backend : Option Backend
  pub cleaned_up : Bool
  pub num_tokens : ℕ
  pub pred_patch : Option Text

-- The dict of outcomes; a missing key is `none`. `similarities` is what the comparison of patches
-- gives.
pub record Outcomes (Similar Real : Type 0) : Type 0 where
  pub pass : Option Bool
  pub similarities : Option Similar
  pub threshold : Option Real

-- `use_think_token`, `assistant_prefix`.
unfoldable pub use_think_token : {Real : Type 0} → Config Real → Bool
use_think_token cfg = cfg.think && not cfg.use_think_tag

unfoldable pub assistant_prefix : {Real : Type 0} → Config Real → Text
assistant_prefix cfg = if cfg.think && cfg.use_think_tag then codes "<think>\n" else []

unfoldable pub thinking_end_text : {Real : Type 0} → Config Real → Text
thinking_end_text cfg =
    if cfg.think && cfg.use_think_tag then codes "</think>" else codes "<|reasoning_thinking_end|>"

-- `text.split(w, 1)[-1]`: what is behind the first match; all of the text without one.
behind_first : Text → Text → Option Text
behind_first w [] = none
behind_first w (c ∷ text) = elim (starts_with w (c ∷ text)) [
  | true ↦ some (drop (length w) (c ∷ text))
  | false ↦ behind_first w text
]

or_all : Text → Option Text → Text
or_all text none = text
or_all text (some t) = t

unfoldable pub split_once : Text → Text → Text
unfolding behind_first or_all
split_once w text = or_all text (behind_first w text)

-- The text of an exception, with the name of its type.
unfoldable pub describe : Failure → Text
describe (format_error t) = codes "FormatError: " ++ t
describe (no_such_tool t) = codes "NoSuchToolError: " ++ t

unfoldable pub submission_feedback : Text → Text
submission_feedback pred_patch =
    codes "The following patch content is marked as your final submission:\n\n<submission>\n"
    ++ pred_patch
    ++ codes
        "\n</submission>\n\nReview the patch content and ensure it correctly resolves the issue. If necessary, you can continue refining the patch and submit an updated version."

unfoldable pub feedback_output : Text → Text
feedback_output feedback = codes "<output>\n" ++ feedback ++ codes "\n</output>"

-- `plus - minus` in digits.
signed : ℕ → ℕ → Text
signed plus minus =
    if ltb plus minus then codes "-" ++ decimal (minus - plus) else decimal (plus - minus)

notice : Text → Text → Text
notice turns tokens =
    codes "<budget>\n* Remaining turns: "
    ++ turns
    ++ codes "\n* Remaining tokens: "
    ++ tokens
    ++ codes "\n</budget>"

unfoldable pub budget_template : Text
unfolding notice
budget_template = notice (codes "{remaining_turns}") (codes "{remaining_tokens}")

-- `state.close()`; what the container does is not seen again.
unfoldable pub close : {Backend : Type 0} → State Backend → State Backend
close st = record st { cleaned_up = true }

-- After a tool has run: a patch that was submitted is kept.
unfoldable pub accepted : {Backend : Type 0} → State Backend → Text → ToolCallResult → State Backend
accepted st tool_name r =
    if same tool_name (codes "submit") && r.success
    then record st { pred_patch = some r.output }
    else st

unfoldable pub tool_feedback : Text → ToolCallResult → Text
tool_feedback tool_name r =
    if same tool_name (codes "submit") && r.success then submission_feedback r.output else r.output

module _ (en : Encoding) {Real : Type 0} (cfg : Config Real) where
  -- The feedback with the rest of the budget.
  unfoldable pub with_budget : {Backend : Type 0} → State Backend → Text → Text → Text
  unfolding signed notice
  with_budget st tool_name output =
      let feedback = feedback_output output in
      let estimated = length (
        encode_message en (tool_result (feedback ++ codes "\n\n" ++ budget_template) tool_name)
          true) in
      feedback
      ++ codes "\n\n"
      ++ notice (signed cfg.max_turns st.step_id)
          (signed cfg.context_size (st.num_tokens + min estimated cfg.max_user_turn_len))

-- `eval_instance`: whether the outcome is "pass". `run` is the test run of a patch in a fresh
-- container; `none` is an exception.
unfoldable pub eval_instance :
    {Backend : Type 0} → (Text → Option Bool) → Option Backend → Text → Option Bool
eval_instance run none pred_patch = none
eval_instance run (some b) pred_patch =
    if same (strip pred_patch) []
    then some false
    else if not (occurs (codes "diff") pred_patch)
    then some false
    else run pred_patch

or_first : {A : Type 0} → Option A → Option A → Option A
or_first (some a) o = some a
or_first none o = o

module _ {Similar Real : Type 0} where
  unfoldable pub failed_outcomes : Outcomes Similar Real
  failed_outcomes = record { pass = some false; similarities = none; threshold = none }

  passing : Bool → Outcomes Similar Real
  passing b = record { pass = some b; similarities = none; threshold = none }

  execution_outcomes : Option Bool → Option (Outcomes Similar Real)
  unfolding passing
  execution_outcomes none = none
  execution_outcomes (some b) = some (passing b)

  -- `get_swerl_outcomes`; an exception of the comparison counts as failed.
  unfoldable pub get_swerl_outcomes : Option Similar → Real → Outcomes Similar Real
  get_swerl_outcomes none t = record { pass = some false; similarities = none; threshold = some t }
  get_swerl_outcomes (some s) t = record { pass = none; similarities = some s; threshold = some t }

  -- `outcomes |= others`.
  merge : Outcomes Similar Real → Outcomes Similar Real → Outcomes Similar Real
  unfolding or_first
  merge a b = record {
    pass = or_first b.pass a.pass;
    similarities = or_first b.similarities a.similarities;
    threshold = or_first b.threshold a.threshold;
  }

  -- The similarities are added to an execution that did not pass.
  with_similarities : Option Similar → Real → Bool → Outcomes Similar Real
  unfolding passing merge
  with_similarities s t true = passing true
  with_similarities s t false = merge (passing false) (get_swerl_outcomes s t)

  both_outcomes : Option Similar → Real → Option Bool → Option (Outcomes Similar Real)
  unfolding with_similarities
  both_outcomes s t none = none
  both_outcomes s t (some b) = some (with_similarities s t b)

  -- `eval`, with the result of the execution and of the comparison; `none` is an exception.
  unfoldable pub eval :
      Bool → Option Real → Option Bool → Option Similar → Option (Outcomes Similar Real)
  unfolding execution_outcomes both_outcomes
  eval true none execution s = execution_outcomes execution
  eval true (some t) execution s = both_outcomes s t execution
  eval false (some t) execution s = some (get_swerl_outcomes s t)
  eval false none execution s = none
