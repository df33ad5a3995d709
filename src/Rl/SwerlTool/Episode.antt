-- ===== src/Rl/SwerlTool/Episode.antt =====
-- An episode of the tool environment: the steps for a list of actions.
use cwm.Prelude.{
  ℕ, ◌+◌, ◌≤◌, ◌<◌, ◌≡◌, ◌≢◌, refl, ◌⊎◌, Bool, true, false, List, [], ◌∷◌, Option, some, length,
  get_elem?, arith,
}
use mathlib.Core.Path.{subst}
use cwm.Dialog.Tokenizer.{Text, Encoding}
use cwm.Rl.Transition.{Float, Transition}
use cwm.Rl.SwerlTool.{Config, State, Outcomes, eval_instance}
use cwm.Rl.SwerlTool.Step.{Stepped, moved, raised, World, counted, step}
use cwm.Rl.SwerlTool.Step.Moves.{Submitted, IsStep}
use cwm.Rl.SwerlTool.Step.Kept.{step-IsStep, step_limits}

-- What an episode has come to: it goes on, a transition ended it, or an exception.
pub data Played (S T : Type 0) : Type 0 where
  running : S → Played S T
  over : S → T → Played S T
  failed : S → Played S T

module _ (en : Encoding) (fl : Float) {Backend Similar : Type 0} (w : World Backend Similar)
    (cfg : Config fl.Real) (abbrev_tokens : List ℕ) where
  open fl use {Real}

  abbrev pub PlayedOf : Type 0
  PlayedOf = Played (State Backend) (Transition Real (Outcomes Similar Real))

  ended :
      (State Backend → PlayedOf)
      → State Backend
      → Transition Real (Outcomes Similar Real)
      → Bool
      → PlayedOf
  ended next s tr true = over s tr
  ended next s tr false = next s

  after :
      (State Backend → PlayedOf)
      → Stepped (State Backend) (Transition Real (Outcomes Similar Real))
      → PlayedOf
  unfolding ended
  after next (raised s) = failed s
  after next (moved s tr) = ended next s tr tr.terminal

  unfoldable pub play : State Backend → List (List ℕ) → PlayedOf
  unfolding after
  play st [] = running st
  play st (action ∷ actions) =
      after (λ s. play s actions) (step en fl w cfg abbrev_tokens st action)

  -- Every patch of the state was handed in.
  abbrev pub Earned : State Backend → Type 0
  Earned st = (p : Text) → st.pred_patch ≡ some p → Submitted en fl w cfg abbrev_tokens p

  -- What a transition that passes rests on.
  abbrev pub IsPass : Transition Real (Outcomes Similar Real) → Type 0
  IsPass tr =
      tr.outcomes.pass ≡ some true
      → (p : Text) × Submitted en fl w cfg abbrev_tokens p
        × (b : Option Backend) × (eval_instance w.run b p ≡ some true)

  -- Some action is empty or too long.
  abbrev pub SomeUnfit : List (List ℕ) → Type 0
  SomeUnfit actions =
      (i : ℕ) × (action : List ℕ) × (get_elem? actions i ≡ some action)
      × ((action ≡ []) ⊎ (cfg.max_action_len < length action))

  -- What an episode of these actions has come to, if it would be at this turn after all of them.
  unfoldable pub IsEpisode : List (List ℕ) → ℕ → PlayedOf → Type 0
  IsEpisode actions turns (running s) = (s.step_id ≡ turns) × (s.cleaned_up ≡ false) × Earned s
  IsEpisode actions turns (over s tr) =
      (s.step_id ≤ turns) × (tr.terminal ≡ true) × (s.cleaned_up ≡ true) × IsPass tr
  IsEpisode actions turns (failed s) =
      (s.step_id ≤ turns) × Earned s × ((s.cleaned_up ≡ true) ⊎ SomeUnfit actions)

  ended-running :
      (next : State Backend → PlayedOf) (s s' : State Backend)
      (tr : Transition Real (Outcomes Similar Real)) (b : Bool)
      → ended next s tr b ≡ running s'
      → (b ≡ false) × (next s ≡ running s')
  unfolding ended
  ended-running next s s' tr true h = cc
  ended-running next s s' tr false h = (refl, h)

  after-running :
      (next : State Backend → PlayedOf) (s' : State Backend)
      (x : Stepped (State Backend) (Transition Real (Outcomes Similar Real)))
      → after next x ≡ running s'
      → (s : State Backend) × (tr : Transition Real (Outcomes Similar Real)) × (x ≡ moved s tr)
        × (tr.terminal ≡ false)
        × (next s ≡ running s')
  unfolding after
  after-running next s' (raised s) h = cc
  after-running next s' (moved s tr) h =
      let (t, r) = ended-running next s s' tr tr.terminal h in (s, tr, refl, t, r)

  -- An episode that still goes on after its actions, one at least, has turns left.
  pub play_limits :
      (st s : State Backend) (actions : List (List ℕ))
      → 0 < length actions
      → play st actions ≡ running s
      → st.step_id + length actions < cfg.max_turns
  unfolding play IsStep
  play_limits st s [] l h = absurd (omega arith)
  play_limits st s (action ∷ []) l h =
      let (s₁, tr, e, t, r) = after-running _ s (step en fl w cfg abbrev_tokens st action) h in
      let (_, _, k) = step_limits en fl w cfg abbrev_tokens st s₁ action tr e t in k
  play_limits st s (action ∷ action' ∷ actions) l h =
      let (s₁, tr, e, t, r) = after-running _ s (step en fl w cfg abbrev_tokens st action) h in
      let i =
        subst
          (IsStep en fl w cfg abbrev_tokens (counted en fl w cfg abbrev_tokens st action) action) e
          (step-IsStep en fl w cfg abbrev_tokens st action).0 in
      let k = play_limits s₁ s (action' ∷ actions) (omega arith) r in omega (arith, k, i.same_step)

  -- Whatever the agent does, an episode that begins at turn 0 is over after max_turns actions.
  pub play_ends :
      (st s : State Backend) (actions : List (List ℕ))
      → st.step_id ≡ 0
      → 0 < length actions
      → cfg.max_turns ≤ length actions
      → play st actions ≢ running s
  play_ends st s actions z l m h = let k = play_limits st s actions l h in omega (arith, k, z)
