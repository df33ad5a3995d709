-- ===== src/Rl/Tests.antt =====
-- Episodes with numbers for rewards, and the theorems about them.
use cwm.Prelude.{
  ℕ, ◌+◌, ◌≡◌, refl, Bool, true, false, List, [], ◌∷◌, Option, none, some, arith, length, replicate,
  length-replicate,
}
use cwm.Rl.Transition.{Float, Transition, transition_init}
use cwm.Rl.Trajectory.{
  env, agent, Trajectory, extend_last, last, trajectory_init, given, extend, append, returns_in,
  returns_of, return_to_go,
}
use cwm.Rl.Trajectory.Append.{IsValid, Appended, append_lem, length-given}
use cwm.Rl.Trajectory.Returns.{ToGo, return_to_go_lem}
use cwm.Rl.Rollout.{Env, done, reference_rollout, Keeps, Over, reference_rollout_lem}

-- Minus one is a number of its own here; no test reads it.
abbrev naturals : Float
naturals = record { Real = ℕ; zero_point = 0; one_point = 1; minus_one = 7; add = λ a b. a + b }

abbrev start_at : Transition ℕ Bool
start_at = record {
  action = [];
  rewards = some [];
  observation = 3 ∷ 4 ∷ [];
  terminal = false;
  context_switch = false;
  outcomes = false;
}

abbrev turn : Transition ℕ Bool
turn = record {
  action = 5 ∷ 6 ∷ [];
  rewards = some (0 ∷ 2 ∷ []);
  observation = 8 ∷ [];
  terminal = false;
  context_switch = true;
  outcomes = false;
}

-- Two contexts: the second begins with the observation.
abbrev two_contexts : Trajectory ℕ Bool
two_contexts = record {
  transitions = start_at ∷ turn ∷ [];
  tokens = (3 ∷ 4 ∷ 5 ∷ 6 ∷ []) ∷ (8 ∷ []) ∷ [];
  log_probs = (0 ∷ 0 ∷ 0 ∷ 0 ∷ []) ∷ (0 ∷ []) ∷ [];
  source = (env ∷ env ∷ agent ∷ agent ∷ []) ∷ (env ∷ []) ∷ [];
  rewards = (0 ∷ 0 ∷ 0 ∷ 2 ∷ []) ∷ (0 ∷ []) ∷ [];
  terminated = false;
  truncated = false;
  truncation_return = none;
}

then_append : Option (Trajectory ℕ Bool) → Option (Trajectory ℕ Bool)
then_append none = none
then_append (some t) = append naturals t turn none

appended_twice :
    then_append (append naturals (trajectory_init naturals) start_at none) ≡ some two_contexts
unfolding then_append append trajectory_init extend extend_last last given
appended_twice = refl

abbrev cut_off : Trajectory ℕ Bool
cut_off = record two_contexts { truncated = true; truncation_return = some 10 }

returns_of_cut_off :
    return_to_go naturals cut_off ≡ some ((12 ∷ 12 ∷ 12 ∷ 12 ∷ []) ∷ (10 ∷ []) ∷ [])
unfolding return_to_go returns_of returns_in
returns_of_cut_off = refl

-- The constructor takes an empty list of rewards for any action.
no_rewards_taken :
    transition_init naturals false (record {
      action = some (1 ∷ []);
      rewards = some [];
      reward = none;
      observation = none;
      terminal = false;
      context_switch = false;
      outcomes = none;
    })
    ≡ some (record {
      action = 1 ∷ [];
      rewards = some [];
      observation = [];
      terminal = false;
      context_switch = false;
      outcomes = false;
    })
unfolding transition_init
no_rewards_taken = refl

two_contexts-IsValid : IsValid naturals two_contexts
two_contexts-IsValid = record {
  begun = tt;
  with_source = (refl, (refl, tt));
  with_log_probs = (refl, (refl, tt));
  with_rewards = (refl, (refl, tt));
}

append_lem_example :
    (t' : Trajectory ℕ Bool) × (append naturals two_contexts turn none ≡ some t')
    × Appended naturals two_contexts turn (0 ∷ 2 ∷ []) t'
append_lem_example =
    append_lem naturals two_contexts turn none (0 ∷ 2 ∷ []) two_contexts-IsValid refl refl refl
      (length-given naturals (5 ∷ 6 ∷ []))

return_to_go_lem_example :
    (cut_off.terminated ≡ true
      → cut_off.truncated ≡ false
      → (xss : List (List ℕ)) × ToGo naturals cut_off 0 xss)
    × ((r : ℕ)
        → cut_off.terminated ≡ false
        → cut_off.truncated ≡ true
        → cut_off.truncation_return ≡ some r
        → (xss : List (List ℕ)) × ToGo naturals cut_off r xss)
    × (cut_off.terminated ≡ cut_off.truncated → return_to_go naturals cut_off ≡ none)
return_to_go_lem_example = return_to_go_lem naturals cut_off

-- An environment that answers every action with one token, for ever.
abbrev echo : Env ℕ Bool ℕ
echo = record {
  max_action_len = λ s. 4;
  start = (0, start_at);
  step = λ s action. (s + 1, record start_at { action = action; observation = 9 ∷ [] });
}

abbrev zero_rewards : Transition ℕ Bool → List ℕ
zero_rewards tr = replicate (length tr.action) 0

abbrev one_token : List ℕ → ℕ → List ℕ
one_token ctx max_gen = 1 ∷ []

echo-Keeps : Keeps naturals echo zero_rewards one_token 6
echo-Keeps = record {
  same_action = λ s action. refl;
  one_context = λ s action. refl;
  one_reward = λ tr. length-replicate (length tr.action) 0;
  acts = λ ctx max_gen. omega arith;
  first_rewards = ([], refl, refl);
}

reference_rollout_lem_example :
    (t : Trajectory ℕ Bool) × (reference_rollout naturals echo zero_rewards one_token 6 7 ≡ done t)
    × Over naturals echo zero_rewards one_token 6 t
reference_rollout_lem_example =
    reference_rollout_lem naturals echo zero_rewards one_token 6 echo-Keeps 7 (omega arith)
