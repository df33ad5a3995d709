-- ===== src/Rl/SwerlTool/Step/Moves.antt =====
-- What a step keeps and what it may change, and the steps that end an episode or go on.
use mathlib.Core.Path.{subst}
use cwm.Prelude.{
  ℕ, ◌+◌, ◌<◌, ◌≡◌, inr, refl, ap, sym, ◌∙◌, ◌⊎◌, Bool, true, false, List, [], ◌∷◌, Option, none,
  some, length, arith,
}
use cwm.Prelude.Text.{codes}
use cwm.Dialog.Tokenizer.{Text, Encoding, Message, assistant_message}
use cwm.Dialog.Env.{
  dialog_transition, observation, dialog_transition-fields, dialog_transition-some,
}
use cwm.Swerl.Tools.{ToolCallResult, applied, apply_tool}
use cwm.Rl.Transition.{Float, Transition, transition_init}
use cwm.Rl.SwerlTool.{
  Config, State, Outcomes, failed_outcomes, eval_instance, use_think_token, assistant_prefix,
}
use cwm.Rl.SwerlTool.Step.{Stepped, moved, raised, World, finish, ending, seen, go_on, no_outcomes}

module _ (en : Encoding) (fl : Float) {Backend Similar : Type 0} (w : World Backend Similar)
    (cfg : Config fl.Real) (abbrev_tokens : List ℕ) where
  open fl use {Real}

  abbrev pub StepOf : Type 0
  StepOf = Stepped (State Backend) (Transition Real (Outcomes Similar Real))

  -- The patch is what the submit tool of some container handed in.
  abbrev pub Submitted : Text → Type 0
  Submitted p =
      (b : Backend) × (b' : Backend) × (input : Text) × (r : ToolCallResult) × (apply_tool w.tools b
          (codes "submit") input
        ≡ (b', applied r))
      × (r.success ≡ true)
      × (r.output ≡ p)

  -- The patch of `c` is still there, or another one was handed in.
  abbrev pub KeptPatch : State Backend → State Backend → Type 0
  KeptPatch c s =
      (s.pred_patch ≡ c.pred_patch) ⊎ ((p : Text) × (s.pred_patch ≡ some p) × Submitted p)

  -- A state of this step: `c` is the state with the counts.
  pub record Near (c s : State Backend) : Type 0 where
    pub same_step : s.step_id ≡ c.step_id
    pub same_tokens : s.num_tokens ≡ c.num_tokens
    pub patch : KeptPatch c s

  -- A transition that passes judged the patch of the state.
  abbrev pub IsJudged : State Backend → Outcomes Similar Real → Type 0
  IsJudged c o =
      o.pass ≡ some true
      → (p : Text) × (c.pred_patch ≡ some p)
        × (b : Option Backend) × (eval_instance w.run b p ≡ some true)

  pub record IsMove (c : State Backend) (action : List ℕ) (s : State Backend)
      (tr : Transition Real (Outcomes Similar Real)) : Type 0 where
    pub same_step : s.step_id ≡ c.step_id
    pub tokens : s.num_tokens ≡ c.num_tokens + length tr.observation
    pub same_action : tr.action ≡ action
    pub closed : tr.terminal ≡ true → s.cleaned_up ≡ true
    pub still_open : tr.terminal ≡ false → s.cleaned_up ≡ c.cleaned_up
    pub patch : KeptPatch c s
    pub judged_patch : IsJudged c tr.outcomes
    pub pass_ends : tr.outcomes.pass ≡ some true → tr.terminal ≡ true

  -- An exception: the assertion on the length of the action, which comes before the counts, or one
  -- that leaves the container closed; with an empty action it may be open.
  abbrev pub IsRaised : State Backend → List ℕ → State Backend → Type 0
  IsRaised c action s =
      ((cfg.max_action_len < length action)
        × (s.step_id + 1 ≡ c.step_id)
        × (s.num_tokens + length action ≡ c.num_tokens)
        × (s.cleaned_up ≡ c.cleaned_up)
        × (s.pred_patch ≡ c.pred_patch))
      ⊎ (Near c s × ((s.cleaned_up ≡ true) ⊎ (action ≡ [])))

  unfoldable pub IsStep : State Backend → List ℕ → StepOf → Type 0
  IsStep c action (raised s) = IsRaised c action s
  IsStep c action (moved s tr) = IsMove c action s tr

  abbrev pub finish_of : State Backend → List ℕ → Outcomes Similar Real → StepOf
  finish_of = finish en fl w cfg abbrev_tokens

  pub finish_fields :
      (s : State Backend) (action : List ℕ) (o : Outcomes Similar Real)
      → (tr : Transition Real (Outcomes Similar Real)) × (finish_of s action o ≡ moved s tr)
        × (tr.action ≡ action)
        × (length tr.observation ≡ 0)
        × (tr.terminal ≡ true)
        × (tr.outcomes ≡ o)
  unfolding finish ending dialog_transition observation transition_init
  finish_fields s [] o = (_, refl, refl, refl, refl, refl)
  finish_fields s (t ∷ action) o = (_, refl, refl, refl, refl, refl)

  pub IsMove-finish :
      (c s : State Backend) (action : List ℕ) (o : Outcomes Similar Real)
      → Near c s
      → s.cleaned_up ≡ true
      → IsJudged c o
      → IsStep c action (finish_of s action o)
  unfolding IsStep
  IsMove-finish c s action o n k j =
      let (tr, e, a, l, t, q) = finish_fields s action o in
      subst (IsStep c action) (sym e) (record {
        same_step = n.same_step;
        tokens = omega (arith, n.same_tokens, l);
        same_action = a;
        closed = λ h. k;
        still_open = λ h. cc;
        patch = n.patch;
        judged_patch = λ h. j (ap (λ x. x.pass) (sym q) ∙ h);
        pass_ends = λ h. t;
      })

  pub not_passed : (x : Option Bool) → x ≡ some false → x ≡ some true → ⊥
  not_passed x e h = let q : some false ≡ some true = sym e ∙ h in cc

  pub IsJudged-failed : (c : State Backend) → IsJudged c failed_outcomes
  unfolding failed_outcomes
  IsJudged-failed c h = absurd (not_passed (some false) refl h)

  IsStep-seen :
      (c s : State Backend) (action : List ℕ) (o : Option (Transition Real (Outcomes Similar Real)))
      → Near c s
      → s.cleaned_up ≡ c.cleaned_up
      → (o ≡ none → action ≡ [])
      → ((tr : Transition Real (Outcomes Similar Real))
          → o ≡ some tr
          → (tr.action ≡ action) × (tr.terminal ≡ false) × (tr.outcomes ≡ failed_outcomes))
      → IsStep c action (seen en fl w cfg abbrev_tokens s o)
  unfolding IsStep seen failed_outcomes
  IsStep-seen c s action none n k g f = inr (n, inr (g refl))
  IsStep-seen c s action (some tr) n k g f =
      let (a, t, q) = f tr refl in
      let p : tr.outcomes.pass ≡ some false = ap (λ x. x.pass) q in
      record {
        same_step = n.same_step;
        tokens = ap (λ x. x + length tr.observation) n.same_tokens;
        same_action = a;
        closed = λ h. cc;
        still_open = λ h. k;
        patch = n.patch;
        judged_patch = λ h. absurd (not_passed tr.outcomes.pass p h);
        pass_ends = λ h. absurd (not_passed tr.outcomes.pass p h);
      }

  -- The observation is refused only after an empty action.
  reply-none :
      (action : List ℕ) (m : Message)
      → dialog_transition en fl
          (no_outcomes en fl w cfg abbrev_tokens)
          (m ∷ assistant_message (assistant_prefix cfg) ∷ [])
          (some action)
          false
          false
          (some failed_outcomes)
          (use_think_token cfg)
        ≡ none
      → action ≡ []
  reply-none [] m h = refl
  reply-none (t ∷ action) m h =
      let (tr, e) =
        dialog_transition-some en fl (no_outcomes en fl w cfg abbrev_tokens) m
          (assistant_prefix cfg) t action (use_think_token cfg) failed_outcomes in
      let z : none ≡ some tr = sym h ∙ e in cc

  pub IsStep-go_on :
      (c s : State Backend) (action : List ℕ) (o : Option Message) (m : Message)
      → o ≡ some m
      → Near c s
      → s.cleaned_up ≡ c.cleaned_up
      → IsStep c action (go_on en fl w cfg abbrev_tokens s action o)
  unfolding IsStep go_on
  IsStep-go_on c s action o m e n k =
      subst (λ x. IsStep c action (go_on en fl w cfg abbrev_tokens s action x)) (sym e)
        (IsStep-seen c s action _ n k (reply-none action m)
          (λ tr h. dialog_transition-fields en fl _ _ action _ failed_outcomes tr h))
