-- ===== src/Rl/MathThink.antt =====
-- cwm/rl/envs/envs/math_think_dialog.py, the class MathThinkDialogEnv: attempts at a math problem.
-- The regular expressions and the comparison of answers are parameters; `info` is left out.
pub mod Attempts
mod Tests
use cwm.Prelude.{
  ℕ, zero, suc, ◌+◌, ◌-◌, Bool, true, false, ◌&&◌, ◌||◌, not, List, [], ◌∷◌, ◌++◌, Option, none,
  some, ◌==◌, leb, if◌then◌else◌, length, get_elem?,
}
use cwm.Prelude.Text.{codes, occurs}
use cwm.Dialog.Tokenizer.{
  Text, Encoding, stop_tokens, is_member, cut_at_stop_tokens, encode, decode, user_message,
  assistant_message,
}
use cwm.Dialog.Env.{last_of, dialog_transition}
use cwm.Rl.Transition.{Float, Transition, transition_init}

pub record Settings : Type 0 where
  pub max_attempts : ℕ
  pub max_action_len : ℕ
  pub stop_think : Bool

-- DialogState with its episode; `answer_only` is the prediction type.
pub record Attempt : Type 0 where
  pub step_id : ℕ
  pub past_actions : List Text
  pub answer_only : Bool

-- The outcomes, and the defaults of a transition without an evaluation.
pub record Metrics : Type 0 where
  pub pass : Bool
  pub ours_pass : Bool
  pub math_verify_pass : Bool
  pub reasoning_found : Bool
  pub n_reasoning_tokens : ℕ
  pub answer : Option Text
  pub action_len : ℕ

abbrev pub default_outcomes : Metrics
default_outcomes = record {
  pass = false;
  ours_pass = false;
  math_verify_pass = false;
  reasoning_found = false;
  n_reasoning_tokens = 0;
  answer = none;
  action_len = 0;
}

-- The two comparisons of an answer: their results, and the normal form of the first.
pub record Compared : Type 0 where
  pub ours : Bool
  pub normalized : Option Text
  pub math_verify : Bool

-- `extract` gives reasoning and answer of a full prediction, `extract_answer` the answer alone.
pub record Checker : Type 0 where
  pub extract : Text → Option Text × Option Text
  pub extract_answer : Text → Option Text
  pub compare_values : Text → Compared

module _ (en : Encoding) (ck : Checker) where
  reasoned : Option Text → Metrics → Metrics
  reasoned none m = m
  reasoned (some r) m = record m {
    reasoning_found = true;
    n_reasoning_tokens = length (encode en r false false);
  }

  answered : Option Text → Metrics → Metrics
  answered none m = m
  answered (some a) m =
      let c = ck.compare_values a in
      record m {
        ours_pass = c.ours;
        math_verify_pass = c.math_verify;
        pass = c.ours || c.math_verify;
        answer = c.normalized;
      }

  -- `_eval_and_compute_metrics`.
  unfoldable pub eval_metrics : List ℕ → Option Text → Option Text → Metrics
  unfolding reasoned answered
  eval_metrics action reasoning answer =
      answered answer (reasoned reasoning (record default_outcomes { action_len = length action }))

module _ (en : Encoding) (fl : Float) (ck : Checker) (cfg : Settings) where
  open fl use {Real}

  abbrev pub Moved : Type 0
  Moved = Option (Attempt × Transition Real Metrics)

  with_state : Attempt → Option (Transition Real Metrics) → Moved
  with_state st none = none
  with_state st (some tr) = some (st, tr)

  -- `_stop_think_condition`; `none` is the IndexError of an empty action.
  unstopped : Option ℕ → Option Bool
  unstopped none = none
  unstopped (some t) = some (not (is_member t (stop_tokens en)))

  stop_think_condition : Attempt → List ℕ → Text → Option Bool
  unfolding unstopped
  stop_think_condition st action action_str =
      if cfg.stop_think && (not (occurs (codes "</think>") action_str) && not st.answer_only)
      then unstopped (last_of action)
      else some false

  -- `_stop_think_transition`.
  stop_think_transition : Attempt → List ℕ → Moved
  unfolding with_state
  stop_think_transition st action =
      with_state (record st { answer_only = true })
        (transition_init fl default_outcomes (record {
          action = some action;
          rewards = none;
          reward = none;
          observation = some (encode en (codes "...</think>") false false);
          terminal = false;
          context_switch = false;
          outcomes = some (record default_outcomes { action_len = length action });
        }))

  -- `none` is an IndexError.
  from_past : Option Text → Text → Option (Option Text × Option Text)
  from_past none action_str = none
  from_past (some r) action_str = some (some r, ck.extract_answer action_str)

  prediction : Attempt → Text → Option (Option Text × Option Text)
  unfolding from_past
  prediction st action_str =
      if st.answer_only
      then from_past (get_elem? st.past_actions (st.step_id - 1)) action_str
      else some (ck.extract action_str)

  conclude : Attempt → List ℕ → Metrics → Moved
  unfolding with_state
  conclude st action m =
      if leb cfg.max_attempts st.step_id || m.pass
      then with_state st
          (dialog_transition en fl default_outcomes [] (some action) false true (some m) false)
      else with_state st (
          dialog_transition en fl default_outcomes
            (user_message (codes "Your answer is incorrect. Please try again.")
              ∷ assistant_message []
              ∷ [])
            (some action) false false (some m) false)

  assess : Attempt → List ℕ → Option (Option Text × Option Text) → Moved
  unfolding conclude
  assess st action none = none
  assess st action (some (reasoning, answer)) =
      conclude st action (eval_metrics en ck action reasoning answer)

  take_turn : Attempt → List ℕ → Text → Option Bool → Moved
  unfolding stop_think_transition assess prediction
  take_turn st action action_str none = none
  take_turn st action action_str (some true) = stop_think_transition st action
  take_turn st action action_str (some false) = assess st action (prediction st action_str)

  abbrev pub said : List ℕ → Text
  said action = decode en (cut_at_stop_tokens (stop_tokens en) true action) true

  abbrev pub tried : Attempt → List ℕ → Attempt
  tried st action = record st {
    step_id = st.step_id + 1;
    past_actions = st.past_actions ++ said action ∷ [];
  }

  -- `step`; `none` is an exception.
  unfoldable pub math_step : Attempt → List ℕ → Moved
  unfolding take_turn stop_think_condition
  math_step st action =
      let st' = tried st action in
      if leb (length action) cfg.max_action_len
      then take_turn st' action (said action) (stop_think_condition st' action (said action))
      else none
