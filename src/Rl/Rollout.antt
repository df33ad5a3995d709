-- ===== src/Rl/Rollout.antt =====
-- `reference_rollout` of cwm/rl/envs/api.py. The environment, the reward function and the agent are
-- parameters: an environment keeps a state `S`, and `step` returns a transition.
use cwm.Prelude.{
  ℕ, zero, suc, ◌-◌, ◌≤◌, ◌<◌, ◌≡◌, refl, ap, sym, ◌∙◌, Bool, true, false, ◌&&◌, not, List, [],
  ◌++◌, ◌⊎◌, Option, none, some, ltb, if◌then◌else◌, length, length-append, arith, ltb→lt, ◌==◌,
  Bool-cases, inl, inr,
}
use Prim.Native.Nat.{min}
use mathlib.Core.Path.{subst}
use cwm.Prelude.Text.{same, same_refl}
use cwm.Rl.Transition.{Float, Transition, add_rewards}
use cwm.Rl.Trajectory.{Trajectory, context, append, trajectory_init}
use cwm.Rl.Trajectory.Append.{IsValid, append_lem, length-given, init-IsValid}

-- How a rollout ends; `assertion` is a failed one.
pub data Rollout (A : Type 0) : Type 0 where
  done : A → Rollout A
  assertion out_of_rounds : Rollout A

pub record Env (Real Out S : Type 0) : Type 0 where
  pub max_action_len : S → ℕ
  pub start : S × Transition Real Out
  pub step : S → List ℕ → S × Transition Real Out

module _ (fl : Float) {Out S : Type 0} where
  open fl use {Real}

  module _ (e : Env Real Out S) (reward_fn : Transition Real Out → List Real)
      (agent : List ℕ → ℕ → List ℕ) (max_seq_len : ℕ) where
    open e use {max_action_len, start, step}

    kept :
        Transition Real Out
        → Option (Trajectory Real Out)
        → Option (Transition Real Out × Trajectory Real Out)
    kept tr none = none
    kept tr (some t) = some (tr, t)

    moved :
        S
        → Option (Transition Real Out × Trajectory Real Out)
        → Option (S × Transition Real Out × Trajectory Real Out)
    moved s none = none
    moved s (some (tr, t)) = some (s, tr, t)

    -- A round of the loop, from the action that is taken on.
    judge :
        Trajectory Real Out
        → List ℕ
        → Option (Transition Real Out)
        → Option (Transition Real Out × Trajectory Real Out)
    judge traj action none = none
    judge traj action (some tr) =
        if same tr.action action then kept tr (append fl traj tr none) else none

    unfoldable pub rollout_round :
        S → Trajectory Real Out → Option (S × Transition Real Out × Trajectory Real Out)
    unfolding judge moved kept
    rollout_round s traj =
        let max_gen = min (max_action_len s) (max_seq_len - length (context fl traj)) in
        let action = agent (context fl traj) max_gen in
        let (s', tr) = step s action in
        moved s' (judge traj action (add_rewards fl tr (reward_fn tr)))

    rollout_next :
        (S → Transition Real Out → Trajectory Real Out → Rollout (Trajectory Real Out))
        → Option (S × Transition Real Out × Trajectory Real Out)
        → Rollout (Trajectory Real Out)
    rollout_next again none = assertion
    rollout_next again (some (s, tr, traj)) = again s tr traj

    unfoldable pub rollout_loop :
        ℕ → S → Transition Real Out → Trajectory Real Out → Rollout (Trajectory Real Out)
    unfolding rollout_next
    rollout_loop zero s tr traj = out_of_rounds
    rollout_loop (suc fuel) s tr traj =
        elim (not tr.terminal && ltb (length (context fl traj)) max_seq_len) [
          | true ↦ rollout_next (rollout_loop fuel) (rollout_round s traj)
          | false ↦ done traj
        ]

    begin : ℕ → Option (Trajectory Real Out) → Rollout (Trajectory Real Out)
    begin fuel none = assertion
    begin fuel (some traj) = rollout_loop fuel start.0 start.1 traj

    unfoldable pub reference_rollout : ℕ → Rollout (Trajectory Real Out)
    unfolding begin
    reference_rollout fuel = begin fuel (append fl (trajectory_init fl) start.1 none)

    -- What the interface asks of an environment, a reward function and an agent, and that the
    -- environment does not switch contexts.
    pub record Keeps : Type 0 where
      pub same_action : (s : S) (action : List ℕ) → (step s action).1.action ≡ action
      pub one_context : (s : S) (action : List ℕ) → (step s action).1.context_switch ≡ false
      pub one_reward : (tr : Transition Real Out) → length (reward_fn tr) ≡ length tr.action
      pub acts : (ctx : List ℕ) (max_gen : ℕ) → 0 < length (agent ctx max_gen)
      pub first_rewards :
          (rs : List Real) × (start.1.rewards ≡ some rs) × (length rs ≡ length start.1.action)

    -- The trajectory is in step with the last transition.
    pub record InStep (tr : Transition Real Out) (traj : Trajectory Real Out) : Type 0 where
      pub valid : IsValid fl traj
      pub ended : traj.terminated ≡ tr.terminal

    rewarded :
        (tr : Transition Real Out) (rs : List Real)
        → length rs ≡ length tr.action
        → add_rewards fl tr rs ≡ some (record tr { rewards = some rs })
    unfolding add_rewards
    rewarded tr rs n = let h : (length tr.action == length rs) ≡ true = ground arith in rw h

    -- With as many rewards as actions, and the action that was taken, nothing is refused.
    judge_lem :
        (traj : Trajectory Real Out) (action : List ℕ) (tr : Transition Real Out)
        → tr.action ≡ action
        → judge traj action (some tr) ≡ kept tr (append fl traj tr none)
    unfolding judge
    judge_lem traj action tr q =
        let h : same tr.action action ≡ true =
          subst (λ a. same tr.action a ≡ true) q (same_refl tr.action) in
        rw h

    longer :
        (ctx action observation : List ℕ) (switch : Bool)
        → switch ≡ false
        → 0 < length action
        → length ctx < length ((if switch then [] else ctx ++ action) ++ observation)
    longer ctx action observation switch e h =
        rw e (omega (arith, length-append (ctx ++ action) observation, length-append ctx action))

    round_lem :
        Keeps
        → (s : S) (tr : Transition Real Out) (traj : Trajectory Real Out) → InStep tr traj
        → tr.terminal ≡ false
        → (s' : S) × (tr' : Transition Real Out) × (traj' : Trajectory Real Out) × (rollout_round s
              traj
            ≡ some (s', tr', traj'))
          × InStep tr' traj'
          × (length (context fl traj) < length (context fl traj'))
    unfolding rollout_round
    round_lem k s tr traj i live =
        let max_gen = min (max_action_len s) (max_seq_len - length (context fl traj)) in
        let action = agent (context fl traj) max_gen in
        let (s', tr0) = step s action in
        let q = k.same_action s action in
        let rs = reward_fn tr0 in
        let n = k.one_reward tr0 in
        let tr' = record tr0 { rewards = some rs } in
        let f = rewarded tr0 rs n in
        let (traj', g, a) =
          append_lem fl traj tr' none rs i.valid (i.ended ∙ live) refl n
            (length-given fl tr'.action) in
        (
          s',
          tr',
          traj',
          ap (λ o. moved s' (judge traj action o)) f
              ∙ ap (moved s') (judge_lem traj action tr' q ∙ ap (kept tr') g),
          record { valid = a.valid; ended = a.ended },
          subst (λ c. length (context fl traj) < length c) (sym a.seen)
              (longer (context fl traj) tr'.action tr'.observation tr'.context_switch
                (k.one_context s action)
                (subst (λ b. 0 < length b) (sym q) (k.acts (context fl traj) max_gen))),
        )

    -- A rollout that is over: at a terminal transition, or with a full context.
    pub record Over (traj : Trajectory Real Out) : Type 0 where
      pub valid : IsValid fl traj
      pub because : (traj.terminated ≡ true) ⊎ (max_seq_len ≤ length (context fl traj))

    loop_lem :
        Keeps
        → (fuel : ℕ) (s : S) (tr : Transition Real Out) (traj : Trajectory Real Out)
        → InStep tr traj
        → max_seq_len - length (context fl traj) < fuel
        → (t : Trajectory Real Out) × (rollout_loop fuel s tr traj ≡ done t) × Over t
    unfolding rollout_loop
    loop_lem k zero s tr traj i h = absurd (omega arith)
    loop_lem k (suc fuel) s tr traj i h = elim (Bool-cases tr.terminal) [
      | inl stop ↦
          (traj, ground (arith, stop), record { valid = i.valid; because = inl (i.ended ∙ stop) })
      | inr live ↦ elim (Bool-cases (ltb (length (context fl traj)) max_seq_len)) [
        | inr full ↦ (
          traj,
          ground (arith, live, full),
          record { valid = i.valid; because = inr (ground (arith, full)) },
        )
        | inl room ↦
            let (s', tr', traj', e, i', longer') = round_lem k s tr traj i live in
            let r : length (context fl traj) < max_seq_len = ltb→lt _ _ room in
            let (t, f, o) = loop_lem k fuel s' tr' traj' i' (omega arith) in
            (t, ground (arith, live, room) ∙ ap (rollout_next (rollout_loop fuel)) e ∙ f, o)
      ]
    ]

    -- With an environment, a reward function and an agent that keep to the interface, and no
    -- switch of context, a rollout ends after at most as many rounds as `max_seq_len`, and no
    -- assertion fails. Its trajectory is aligned, and it has a terminal transition or a context of
    -- `max_seq_len` tokens at least.
    pub reference_rollout_lem :
        Keeps
        → (fuel : ℕ) → max_seq_len < fuel
        → (t : Trajectory Real Out) × (reference_rollout fuel ≡ done t) × Over t
    unfolding reference_rollout trajectory_init
    reference_rollout_lem k fuel h =
        let (rs, e, n) = k.first_rewards in
        let (traj, f, a) =
          append_lem fl (trajectory_init fl) start.1 none rs (init-IsValid fl) refl e n
            (length-given fl start.1.action) in
        let (t, g, o) =
          loop_lem k fuel start.0 start.1 traj (record { valid = a.valid; ended = a.ended })
            (omega arith) in
        (t, ap (begin fuel) f ∙ g, o)
