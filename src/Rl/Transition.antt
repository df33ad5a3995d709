-- ===== src/Rl/Transition.antt =====
-- cwm/rl/envs/api.py, class Transition, and cwm/rl/envs/rewards.py. A reward is a float, taken as a
-- parameter with the operations that are used. The strings for human readers are left out.
use cwm.Prelude.{
  ℕ, ◌-◌, ◌≡◌, Bool, true, false, ◌&&◌, ◌||◌, not, List, [], ◌∷◌, ◌++◌, Option, none, some, ◌==◌,
  ltb, if◌then◌else◌, length, replicate,
}

-- The float operations of this code.
pub record Float : Type 1 where
  pub Real : Type 0
  pub zero_point : Real
  pub one_point : Real
  pub minus_one : Real
  pub add : Real → Real → Real

-- `Out` is the type of the dict of outcomes.
pub record Transition (Real Out : Type 0) : Type 0 where
  pub action : List ℕ
  pub rewards : Option (List Real)
  pub observation : List ℕ
  pub terminal : Bool
  pub context_switch : Bool
  pub outcomes : Out

-- The keyword arguments of the constructor.
pub record Args (Real Out : Type 0) : Type 0 where
  pub action : Option (List ℕ)
  pub rewards : Option (List Real)
  pub reward : Option Real
  pub observation : Option (List ℕ)
  pub terminal : Bool
  pub context_switch : Bool
  pub outcomes : Option Out

or_else {ℓ} : {A : Type ℓ} → Option A → A → A
or_else none a = a
or_else (some x) a = x

is_none {ℓ} : {A : Type ℓ} → Option A → Bool
is_none none = true
is_none (some x) = false

-- `[0.0] * (len(action) - 1) + [reward]`.
abbrev pub unroll {ℓ} : {A : Type ℓ} → A → ℕ → A → List A
unroll zero n r = replicate (n - 1) zero ++ r ∷ []

-- The rewards that the arguments stand for; `none` outside is a failed assertion.
init_rewards {ℓ} : {A : Type ℓ} → A → List ℕ → Option A → Option (List A) → Option (Option (List A))
init_rewards zero action (some r) rs =
    if ltb 0 (length action) then some (some (unroll zero (length action) r)) else none
init_rewards zero action none (some rs) = some (some rs)
init_rewards zero [] none none = some (some [])
init_rewards zero (t ∷ action) none none = some none

-- `not self.rewards or len(self.action) == len(self.rewards)`.
fits {ℓ} : {A : Type ℓ} → List ℕ → Option (List A) → Bool
fits action none = true
fits action (some []) = true
fits action (some (r ∷ rs)) = length action == length (r ∷ rs)

module _ (fl : Float) {Out : Type 0} (no_outcomes : Out) where
  open fl use {Real, zero_point, one_point, minus_one, add}

  assemble : Args Real Out → Option (Option (List Real)) → Option (Transition Real Out)
  unfolding or_else fits
  assemble a none = none
  assemble a (some rewards) =
      if fits (or_else a.action []) rewards
      then some (record {
        action = or_else a.action [];
        rewards = rewards;
        observation = or_else a.observation [];
        terminal = a.terminal;
        context_switch = a.context_switch;
        outcomes = or_else a.outcomes no_outcomes;
      })
      else none

  -- `__init__`; `none` is a failed assertion.
  unfoldable pub transition_init : Args Real Out → Option (Transition Real Out)
  unfolding assemble is_none init_rewards or_else
  transition_init a =
      if (not a.terminal || length (or_else a.observation []) == 0)
        && ((not a.terminal || not a.context_switch) && (is_none a.reward || is_none a.rewards))
      then assemble a (init_rewards zero_point (or_else a.action []) a.reward a.rewards)
      else none

module _ (fl : Float) where
  open fl use {Real, zero_point}

  -- `reward_unroll` of rewards.py.
  unfoldable pub reward_unroll : List ℕ → Real → Option (List Real)
  reward_unroll action reward =
      if ltb 0 (length action) then some (unroll zero_point (length action) reward) else none

module _ (fl : Float) {Out : Type 0} where
  open fl use {Real, zero_point, one_point, minus_one}

  unfoldable pub add_rewards : Transition Real Out → List Real → Option (Transition Real Out)
  add_rewards tr rewards =
      if length tr.action == length rewards
      then some (record tr { rewards = some rewards })
      else none

  -- `_pass`: 0 before the end, and then 1 or -1.
  unfoldable pub pass_reward : (Out → Bool) → Transition Real Out → Real
  pass_reward successful_pass tr =
      if tr.terminal
      then (if successful_pass tr.outcomes then one_point else minus_one)
      else zero_point

  -- PassOnlyRewardFn.
  unfoldable pub pass_only : (Out → Bool) → Transition Real Out → Option (List Real)
  unfolding pass_reward reward_unroll
  pass_only successful_pass tr = reward_unroll fl tr.action (pass_reward successful_pass tr)

  -- A transition whose rewards, where there are any, are as many as its actions.
  abbrev pub Fitting : Transition Real Out → Type 0
  Fitting tr = (rs : List Real) → tr.rewards ≡ some rs → length tr.action ≡ length rs
