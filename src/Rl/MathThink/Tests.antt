-- ===== src/Rl/MathThink/Tests.antt =====
-- An agent that is asked for the answer alone.
use cwm.Prelude.{
  ℕ, ◌+◌, ◌≡◌, refl, Bool, true, false, List, [], ◌∷◌, Option, none, map, length, ◌==◌,
  if◌then◌else◌, arith,
}
use cwm.Prelude.Text.{codes}
use cwm.Dialog.Tokenizer.{Text, Encoding}
use cwm.Rl.Transition.{Float, Transition}
use cwm.Rl.MathThink.{Settings, Attempt, Metrics, Checker, default_outcomes}
use cwm.Rl.MathThink.Attempts.{still_going, attempts_end}

abbrev naturals : Float
naturals = record { Real = ℕ; zero_point = 0; one_point = 1; minus_one = 7; add = λ a b. a + b }

abbrev letters : Encoding
letters = record {
  encode_ordinary = λ t. t;
  encode_special = λ t. t;
  decode_bytes = λ t. t;
  bos_id = 0;
  eos_id = 1;
  eom_id = 2;
  eot_id = 3;
  header_start_id = 4;
  header_end_id = 5;
  thinking_start_id = 6;
}

-- No answer is found.
abbrev finds_nothing : Checker
finds_nothing = record {
  extract = λ t. (none, none);
  extract_answer = λ t. none;
  compare_values = λ t. record { ours = false; normalized = none; math_verify = false };
}

abbrev cfg : Settings
cfg = record { max_attempts = 1; max_action_len = 9; stop_think = true }

abbrev fresh : Attempt
fresh = record { step_id = 0; past_actions = []; answer_only = false }

attempts_end_example :
    still_going letters naturals finds_nothing cfg fresh ((40 ∷ []) ∷ (41 ∷ []) ∷ []) ≡ none
attempts_end_example =
    attempts_end letters naturals finds_nothing cfg fresh ((40 ∷ []) ∷ (41 ∷ []) ∷ []) refl
      (omega arith) (omega arith)

abbrev asked : Attempt
asked = record { step_id = 1; past_actions = (40 ∷ []) ∷ []; answer_only = true }

abbrev asking : Transition ℕ Metrics
asking = record {
  action = 40 ∷ [];
  rewards = none;
  observation = codes "...</think>";
  terminal = false;
  context_switch = false;
  outcomes = record default_outcomes { action_len = 1 };
}
