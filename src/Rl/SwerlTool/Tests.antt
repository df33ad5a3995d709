-- ===== src/Rl/SwerlTool/Tests.antt =====
-- Three turns of an agent that lists files, hands in a patch and sums up.
use cwm.Prelude.{
  ℕ, ◌+◌, ◌≤◌, ◌<◌, ◌≡◌, ◌≢◌, refl, Bool, true, false, List, [], ◌∷◌, ◌++◌, Option, none, some, map,
  length, arith, ◌==◌, if◌then◌else◌,
}
use cwm.Prelude.Text.{codes}
use cwm.Dialog.Tokenizer.{Text, Encoding}
use cwm.Swerl.Tools.{BashResult, default_tools}
use cwm.Rl.Transition.{Float, Transition}
use cwm.Rl.SwerlTool.{Config, State, Outcomes}
use cwm.Rl.SwerlTool.Step.{World, step}
use cwm.Rl.SwerlTool.Episode.{Played, running, over, play, play_ends}

abbrev naturals : Float
naturals = record { Real = ℕ; zero_point = 0; one_point = 1; minus_one = 7; add = λ a b. a + b }

-- The actions are numbers of answers.
abbrev spoken : List ℕ → Text
spoken [] = []
spoken (t ∷ ts) = if t == 10 then codes "<tool: submit>\np\n</tool>" else codes "## Done"

abbrev numbered : Encoding
numbered = record {
  encode_ordinary = λ t. [];
  encode_special = λ t. [];
  decode_bytes = spoken;
  bos_id = 0;
  eos_id = 1;
  eom_id = 2;
  eot_id = 3;
  header_start_id = 4;
  header_end_id = 5;
  thinking_start_id = 6;
}

abbrev prints : Unit {0} → Text → Unit {0} × Option BashResult
prints b command = (b, some (record { error = none; output = codes "diff a"; exit_code = 0 }))

abbrev found : Text → List (Text × Text)
found [] = []
found (c ∷ t) = if c == 60 then (codes "submit", codes "p") ∷ [] else []

abbrev container : World (Unit {0}) (Unit {0})
container = record {
  findall = found;
  start_backend = some tt;
  tools = default_tools prints;
  timed_out = λ b. false;
  run = λ p. some true;
  similar = λ p. none;
}

abbrev cfg : Config ℕ
cfg = record {
  context_size = 1000;
  max_user_turn_len = 100;
  max_action_len = 50;
  max_turns = 4;
  threshold = none;
  use_execution_reward = true;
  strict_format = true;
  think = false;
  use_think_tag = false;
  backend_is_modal = true;
}

abbrev at_start : State (Unit {0})
at_start = record {
  step_id = 0;
  tool_backend = none;
  cleaned_up = false;
  num_tokens = 20;
  pred_patch = none;
}

abbrev two_actions : List (List ℕ)
two_actions = (10 ∷ 3 ∷ []) ∷ (11 ∷ 3 ∷ []) ∷ []

play_ends_example :
    play numbered naturals container cfg [] at_start (two_actions ++ two_actions) ≢ running at_start
play_ends_example =
    play_ends numbered naturals container cfg [] at_start at_start (two_actions ++ two_actions) refl
      (omega arith) (omega arith)

has_passed : Played (State (Unit {0})) (Transition ℕ (Outcomes (Unit {0}) ℕ)) → Option Bool
has_passed (over s tr) = tr.outcomes.pass
has_passed _ = none

passes_run : has_passed (play numbered naturals container cfg [] at_start two_actions) ≡ some true
unfolding has_passed play step cwm.Swerl.Tools.parse_tool_calls cwm.Swerl.Tools.parse_found
    cwm.Swerl.Tools.count cwm.Swerl.Tools.apply_tool cwm.Swerl.Tools.submit_diff_file
    cwm.Swerl.Tools.decimal cwm.Swerl.Tools.succeeded cwm.Dialog.Tokenizer.decode
    cwm.Dialog.Tokenizer.cut_at_stop_tokens cwm.Dialog.Tokenizer.is_member
    cwm.Dialog.Tokenizer.strip cwm.Dialog.Tokenizer.encode_message
    cwm.Dialog.Tokenizer.encode_message_header cwm.Dialog.Tokenizer.encode
    cwm.Dialog.Tokenizer.encode_prompt_dialog cwm.Dialog.Tokenizer.encode_thinking
    cwm.Dialog.Tokenizer.is_assistant cwm.Prelude.Text.starts_with cwm.Prelude.Text.same
    cwm.Prelude.Text.occurs cwm.Swerl.Log.is_space cwm.Dialog.Truncate.maybe_truncate_message
    cwm.Dialog.Truncate.new_tokens cwm.Rl.SwerlTool.accepted cwm.Rl.SwerlTool.close
    cwm.Rl.SwerlTool.failed_outcomes cwm.Rl.SwerlTool.feedback_output cwm.Rl.SwerlTool.split_once
    cwm.Rl.SwerlTool.submission_feedback cwm.Rl.SwerlTool.thinking_end_text
    cwm.Rl.SwerlTool.tool_feedback cwm.Rl.SwerlTool.with_budget cwm.Rl.SwerlTool.budget_template
    cwm.Rl.SwerlTool.assistant_prefix cwm.Rl.SwerlTool.use_think_token cwm.Rl.SwerlTool.describe
    cwm.Rl.SwerlTool.eval cwm.Rl.SwerlTool.eval_instance cwm.Rl.SwerlTool.get_swerl_outcomes
    cwm.Dialog.Env.dialog_transition cwm.Dialog.Env.observation cwm.Dialog.Env.last_of
    cwm.Rl.Transition.transition_init
passes_run = refl
