-- ===== src/Rl/Trajectory.antt =====
-- cwm/rl/envs/api.py, class Trajectory: the sequences of an episode. The contexts are lists in the
-- order in which they began, and the last one grows.

pub mod Append
pub mod Returns
use mathlib.Core.Option
use cwm.Prelude.{
  ℕ, ◌+◌, ◌≡◌, Bool, true, false, ◌&&◌, not, List, [], ◌∷◌, ◌++◌, Option, none, some, ◌==◌,
  if◌then◌else◌, length, replicate,
}
use cwm.Rl.Transition.{Float, Transition}

pub data Source : Type 0 where
  env agent : Source

pub record Trajectory (Real Out : Type 0) : Type 0 where
  pub transitions : List (Transition Real Out)
  pub tokens : List (List ℕ)
  pub log_probs : List (List Real)
  pub source : List (List Source)
  pub rewards : List (List Real)
  pub terminated : Bool
  pub truncated : Bool
  pub truncation_return : Option Real

-- `xss[-1] += xs`; the list is never empty.
unfoldable pub extend_last {ℓ} : {A : Type ℓ} → List (List A) → List A → List (List A)
extend_last [] ys = []
extend_last (xs ∷ []) ys = (xs ++ ys) ∷ []
extend_last (xs ∷ zs ∷ xss) ys = xs ∷ extend_last (zs ∷ xss) ys

-- `xss[-1]`.
unfoldable pub last {ℓ} : {A : Type ℓ} → List (List A) → List A
last [] = []
last (xs ∷ []) = xs
last (xs ∷ zs ∷ xss) = last (zs ∷ xss)

module _ (fl : Float) where
  open fl use {Real, zero_point, add}

  -- `log_probs` is 0 for each action where none are given.
  unfoldable pub given : List ℕ → Option (List Real) → List Real
  given action none = replicate (length action) zero_point
  given action (some ps) = ps

  -- One context from its end on: the return so far, and the returns to go of the context.
  unfoldable pub returns_in : Real → List Real → Real × List Real
  returns_in r [] = (r, [])
  returns_in r (x ∷ xs) = let (s, ys) = returns_in r xs in (add s x, add s x ∷ ys)

  unfoldable pub returns_of : Real → List (List Real) → Real × List (List Real)
  unfolding returns_in
  returns_of r [] = (r, [])
  returns_of r (xs ∷ xss) =
      let (s, yss) = returns_of r xss in let (u, ys) = returns_in s xs in (u, ys ∷ yss)

module _ (fl : Float) {Out : Type 0} where
  open fl use {Real, zero_point, add}

  unfoldable pub trajectory_init : Trajectory Real Out
  trajectory_init = record {
    transitions = [];
    tokens = [] ∷ [];
    log_probs = [] ∷ [];
    source = [] ∷ [];
    rewards = [] ∷ [];
    terminated = false;
    truncated = false;
    truncation_return = none;
  }

  -- The context that the policy sees.
  abbrev pub context : Trajectory Real Out → List ℕ
  context t = last t.tokens

  assert_valid : Trajectory Real Out → Bool
  assert_valid t =
      length (last t.tokens) == length (last t.source)
      && (length (last t.source) == length (last t.rewards)
          && length (last t.rewards) == length (last t.log_probs))

  -- `tokens[-1] += ...` and the like, with the assertion that follows.
  unfoldable pub extend :
      Trajectory Real Out → List ℕ → List Real → Source → List Real → Option (Trajectory Real Out)
  unfolding assert_valid extend_last last
  extend t tokens log_probs who rewards =
      let t' = record t {
        tokens = extend_last t.tokens tokens;
        log_probs = extend_last t.log_probs log_probs;
        source = extend_last t.source (replicate (length tokens) who);
        rewards = extend_last t.rewards rewards;
      } in
      if assert_valid t' then some t' else none

  maybe_context_switch : Transition Real Out → Trajectory Real Out → Trajectory Real Out
  maybe_context_switch tr t =
      if tr.context_switch
      then record t {
        tokens = t.tokens ++ [] ∷ [];
        log_probs = t.log_probs ++ [] ∷ [];
        rewards = t.rewards ++ [] ∷ [];
        source = t.source ++ [] ∷ [];
      }
      else t

  observe : Transition Real Out → Option (Trajectory Real Out) → Option (Trajectory Real Out)
  observe tr none = none
  observe tr (some t) =
      let t' = maybe_context_switch tr t in
      let zeros = replicate (length tr.observation) zero_point in
      extend t' tr.observation zeros env zeros

  finish : Transition Real Out → Option (Trajectory Real Out) → Option (Trajectory Real Out)
  finish tr none = none
  finish tr (some t) = some (record t { terminated = tr.terminal })

  append_with :
      Trajectory Real Out
      → Transition Real Out
      → Option (List Real)
      → Option (List Real)
      → Option (Trajectory Real Out)
  unfolding observe finish maybe_context_switch given
  append_with t tr log_probs none = none
  append_with t tr log_probs (some rewards) =
      let t' = record t { transitions = t.transitions ++ tr ∷ [] } in
      finish tr (observe tr (extend t' tr.action (given fl tr.action log_probs) agent rewards))

  -- `none` is a failed assertion.
  unfoldable pub append :
      Trajectory Real Out → Transition Real Out → Option (List Real) → Option (Trajectory Real Out)
  unfolding append_with
  append t tr log_probs = if t.terminated then none else append_with t tr log_probs tr.rewards

  unfoldable pub truncate : Trajectory Real Out → Real → Trajectory Real Out
  truncate t r = record t { truncated = true; truncation_return = some r }

  -- `none` is a failed assertion.
  unfoldable pub return_to_go : Trajectory Real Out → Option (List (List Real))
  unfolding returns_of
  return_to_go t =
      if t.truncated
      then (if t.terminated
          then none
          else Option.map (λ r. (returns_of fl r t.rewards).1) t.truncation_return)
      else (if t.terminated then some (returns_of fl zero_point t.rewards).1 else none)
