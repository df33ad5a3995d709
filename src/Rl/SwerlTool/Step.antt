-- ===== src/Rl/SwerlTool/Step.antt =====
-- `SWERLToolEnv.step`.
pub mod Moves
pub mod Stored
pub mod Answers
pub mod Kept
use cwm.Prelude.{
  ℕ, zero, suc, ◌+◌, ◌-◌, Bool, true, false, ◌&&◌, ◌||◌, not, List, [], ◌∷◌, ◌++◌, Option, none,
  some, ◌==◌, ltb, leb, if◌then◌else◌, length,
}
use cwm.Prelude.Text.{codes, occurs}
use cwm.Dialog.Tokenizer.{
  Text, Encoding, Message, stop_tokens, cut_at_stop_tokens, decode, user_message, assistant_message,
  tool_result,
}
use cwm.Dialog.Truncate.{right, maybe_truncate_message}
use cwm.Dialog.Env.{dialog_transition}
use cwm.Swerl.Grading.{Name}
use cwm.Swerl.Tools.{
  Failure, format_error, no_such_tool, ToolCallResult, Applied, applied, unknown, crashed, Parsed,
  refused, calls, parse_tool_calls, apply_tool, count, decimal,
}
use cwm.Rl.Transition.{Float, Transition}
use cwm.Rl.SwerlTool.{
  Config, State, Outcomes, use_think_token, assistant_prefix, thinking_end_text, split_once,
  describe, tool_feedback, close, accepted, with_budget, failed_outcomes, eval_instance, eval,
}

-- How a step ends: with a transition, or with an exception.
pub data Stepped (S T : Type 0) : Type 0 where
  moved : S → T → Stepped S T
  raised : S → Stepped S T

-- What the `try` block of a step comes to, with the backend that it leaves.
pub data Tried (Backend : Type 0) : Type 0 where
  worked : Backend → Text → ToolCallResult → Tried Backend
  refused_call : Option Backend → Failure → Tried Backend
  broke : Option Backend → Tried Backend

-- The container, the test run and the comparison of patches.
pub record World (Backend Similar : Type 0) : Type 0 where
  pub findall : Text → List (Text × Text)
  pub start_backend : Option Backend
  pub tools : List (Name × (Backend → Text → Backend × Option ToolCallResult))
  pub timed_out : Backend → Bool
  pub run : Text → Option Bool
  pub similar : Text → Option Similar

module _ {Backend Similar : Type 0} (w : World Backend Similar) where
  tried_of : Text → Backend × Applied → Tried Backend
  tried_of name (b, applied r) = worked b name r
  tried_of name (b, unknown e) = refused_call (some b) e
  tried_of name (b, crashed) = broke (some b)

  -- The backend starts with the first call.
  backend_of : Bool → Option Backend → Option Backend
  backend_of modal (some b) = some b
  backend_of modal none = if modal then w.start_backend else none

  use_tool : Option Backend → Text → Text → Tried Backend
  unfolding tried_of
  use_tool none name input = broke none
  use_tool (some b) name input = tried_of name (apply_tool w.tools b name input)

  call_tool : Bool → Option Backend → Parsed → Tried Backend
  unfolding backend_of use_tool
  call_tool modal o (refused e) = refused_call o e
  call_tool modal o (calls []) = broke o
  call_tool modal o (calls ((name, input) ∷ cs)) = use_tool (backend_of modal o) name input

module _ (en : Encoding) (fl : Float) {Backend Similar : Type 0} (w : World Backend Similar)
    (cfg : Config fl.Real) (abbrev_tokens : List ℕ) where
  open fl use {Real}

  abbrev pub Step : Type 0
  Step = Stepped (State Backend) (Transition Real (Outcomes Similar Real))

  abbrev pub no_outcomes : Outcomes Similar Real
  no_outcomes = record { pass = none; similarities = none; threshold = none }

  -- An answer's thinking ends once; without thinking every answer passes.
  thought_ends : Text → ℕ
  thought_ends action_str = count (thinking_end_text cfg) 0 action_str

  answer_of : Text → Text
  answer_of action_str =
      if cfg.think then split_once (thinking_end_text cfg) action_str else action_str

  thinking_fails : Text → Bool
  unfolding thought_ends
  thinking_fails action_str = cfg.think && not (thought_ends action_str == 1)

  pub attempt : Option Backend → Text → Tried Backend
  unfolding thinking_fails thought_ends call_tool answer_of
  attempt o action_str =
      if thinking_fails action_str
      then refused_call o (
          format_error (
            codes "Expected exactly one thinking end token, got "
            ++ decimal (thought_ends action_str)))
      else call_tool w cfg.backend_is_modal o (parse_tool_calls w.findall (answer_of action_str))

  -- A transition that ends the episode.
  ending : State Backend → Option (Transition Real (Outcomes Similar Real)) → Step
  ending st none = raised st
  ending st (some tr) = moved st tr

  pub finish : State Backend → List ℕ → Outcomes Similar Real → Step
  unfolding ending
  finish st action outcomes =
      ending st
        (dialog_transition en fl no_outcomes [] (some action) false true (some outcomes) false)

  -- A transition with an observation, which counts.
  seen : State Backend → Option (Transition Real (Outcomes Similar Real)) → Step
  seen st none = raised st
  seen st (some tr) = moved (record st { num_tokens = st.num_tokens + length tr.observation }) tr

  pub go_on : State Backend → List ℕ → Option Message → Step
  unfolding seen
  go_on st action none = raised st
  go_on st action (some m) = seen st (
      dialog_transition en fl no_outcomes (m ∷ assistant_message (assistant_prefix cfg) ∷ [])
        (some action) false false (some failed_outcomes) (use_think_token cfg))

  pub truncated : Message → Option Message
  truncated m = maybe_truncate_message en cfg.max_user_turn_len abbrev_tokens right m

  -- The patch is judged after the state is closed.
  judged : State Backend → List ℕ → Option (Outcomes Similar Real) → Step
  unfolding finish
  judged st action none = raised st
  judged st action (some outcomes) = finish st action outcomes

  sum_up : State Backend → List ℕ → Text → Step
  unfolding judged
  sum_up st action pred_patch = judged st action (
      eval cfg.use_execution_reward cfg.threshold (eval_instance w.run st.tool_backend pred_patch)
        (w.similar pred_patch))

  -- Whether an answer without a tool call may be the final one.
  is_summary : Text → Bool
  unfolding thought_ends answer_of
  is_summary action_str =
      (not cfg.think || thought_ends action_str == 1)
      && (not cfg.strict_format || occurs (codes "##") (answer_of action_str))

  reject : State Backend → List ℕ → Failure → Step
  unfolding finish go_on truncated
  reject st action e =
      if cfg.strict_format
      then finish (close st) action failed_outcomes
      else go_on st action (truncated (user_message (describe e)))

  -- The FormatError or NoSuchToolError of an answer.
  pub no_call : State Backend → List ℕ → Text → Failure → Option Text → Step
  unfolding sum_up is_summary reject
  no_call st action action_str e none = reject st action e
  no_call st action action_str e (some pred_patch) =
      if is_summary action_str then sum_up (close st) action pred_patch else reject st action e

  -- Any other exception: the container may have timed out.
  pub break_off : State Backend → List ℕ → Option Backend → Step
  unfolding finish
  break_off st action none = raised st
  break_off st action (some b) =
      if w.timed_out b then finish st action failed_outcomes else raised st

  respond : State Backend → List ℕ → Text → Tried Backend → Step
  unfolding no_call break_off go_on truncated
  respond st action action_str (worked b name r) =
      let st' = accepted (record st { tool_backend = some b }) name r in
      go_on st' action
        (truncated (tool_result (with_budget en cfg st' name (tool_feedback name r)) name))
  respond st action action_str (refused_call o e) =
      no_call (record st { tool_backend = o }) action action_str e st.pred_patch
  respond st action action_str (broke o) =
      break_off (close (record st { tool_backend = o })) action o

  -- The counts of the step.
  abbrev pub counted : State Backend → List ℕ → State Backend
  counted st action = record st {
    step_id = st.step_id + 1;
    num_tokens = st.num_tokens + length action;
  }

  proceed : State Backend → List ℕ → Step
  unfolding finish respond attempt
  proceed st action =
      let action_str = decode en (cut_at_stop_tokens (stop_tokens en) true action) true in
      if ltb cfg.context_size st.num_tokens
      then finish (close st) action failed_outcomes
      else if leb cfg.max_turns st.step_id
      then finish (close st) action failed_outcomes
      else respond st action action_str (attempt st.tool_backend action_str)

  unfoldable pub step : State Backend → List ℕ → Step
  unfolding proceed
  step st action =
      if leb (length action) cfg.max_action_len
      then proceed (counted st action) action
      else raised st
