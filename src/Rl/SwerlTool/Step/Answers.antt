-- ===== src/Rl/SwerlTool/Step/Answers.antt =====
-- The answers without a tool call, and the exceptions.
use mathlib.Core.Option.{some-injective}
use cwm.Prelude.{
  ℕ, ◌≡◌, inl, inr, refl, ap, sym, ◌∙◌, Bool, true, false, List, Option, none, some, either_way,
}
use cwm.Dialog.Tokenizer.{Text, Encoding, Message, user_message}
use cwm.Dialog.Truncate.{right, maybe_truncate_message-some}
use cwm.Swerl.Tools.{Failure}
use cwm.Rl.Transition.{Float}
use cwm.Rl.SwerlTool.{
  Config, State, Outcomes, close, failed_outcomes, eval, execution_outcomes, both_outcomes,
  with_similarities, merge, passing, or_first, describe, get_swerl_outcomes,
}
use cwm.Rl.SwerlTool.Step.{World, judged, sum_up, is_summary, reject, no_call, break_off, truncated}
use cwm.Rl.SwerlTool.Step.Moves.{
  Near, IsJudged, IsStep, IsMove-finish, not_passed, IsJudged-failed, IsStep-go_on,
}

module _ (en : Encoding) (fl : Float) {Backend Similar : Type 0} (w : World Backend Similar)
    (cfg : Config fl.Real) (abbrev_tokens : List ℕ) where
  open fl use {Real}

  no_pass : (x : Bool) → some x ≡ some true → x ≡ true
  no_pass x h = some-injective x true h

  eval-pass :
      (exec : Bool) (t : Option Real) (e : Option Bool) (s : Option Similar)
      (o : Outcomes Similar Real)
      → eval exec t e s ≡ some o
      → o.pass ≡ some true
      → e ≡ some true
  unfolding eval execution_outcomes both_outcomes with_similarities merge passing or_first
      get_swerl_outcomes
  eval-pass true none none s o h p = cc
  eval-pass true none (some b) s o h p = ap (λ x. x.pass) (some-injective _ o h) ∙ p
  eval-pass true (some t) none s o h p = cc
  eval-pass true (some t) (some true) s o h p = refl
  eval-pass true (some t) (some false) none o h p = absurd (
      (not_passed en fl w cfg abbrev_tokens) o.pass (sym (ap (λ x. x.pass) (some-injective _ o h)))
        p)
  eval-pass true (some t) (some false) (some s) o h p = absurd (
      (not_passed en fl w cfg abbrev_tokens) o.pass (sym (ap (λ x. x.pass) (some-injective _ o h)))
        p)
  eval-pass false none e s o h p = cc
  eval-pass false (some t) e none o h p = absurd (
      (not_passed en fl w cfg abbrev_tokens) o.pass (sym (ap (λ x. x.pass) (some-injective _ o h)))
        p)
  eval-pass false (some t) e (some s) o h p =
      let q : none ≡ some true = ap (λ x. x.pass) (some-injective _ o h) ∙ p in cc

  pub Near-close :
      (c s : State Backend)
      → (Near en fl w cfg abbrev_tokens) c s
      → (Near en fl w cfg abbrev_tokens) c (close s)
  unfolding close
  Near-close c s n = record {
    same_step = n.same_step;
    same_tokens = n.same_tokens;
    patch = n.patch;
  }

  pub is_closed : (s : State Backend) → (close s).cleaned_up ≡ true
  unfolding close
  is_closed s = refl

  IsStep-judged :
      (c s : State Backend) (action : List ℕ) (o : Option (Outcomes Similar Real))
      → (Near en fl w cfg abbrev_tokens) c s
      → s.cleaned_up ≡ true
      → ((x : Outcomes Similar Real) → o ≡ some x → (IsJudged en fl w cfg abbrev_tokens) c x)
      → (IsStep en fl w cfg abbrev_tokens) c action (judged en fl w cfg abbrev_tokens s action o)
  unfolding judged IsStep
  IsStep-judged c s action none n k j = inr (n, inl k)
  IsStep-judged c s action (some o) n k j =
      (IsMove-finish en fl w cfg abbrev_tokens) c s action o n k (j o refl)

  IsStep-sum_up :
      (c s : State Backend) (action : List ℕ) (p : Text)
      → (Near en fl w cfg abbrev_tokens) c s
      → s.cleaned_up ≡ true
      → c.pred_patch ≡ some p
      → (IsStep en fl w cfg abbrev_tokens) c action (sum_up en fl w cfg abbrev_tokens s action p)
  unfolding sum_up
  IsStep-sum_up c s action p n k q =
      IsStep-judged c s action _ n k (λ x h y.
        (p, q, s.tool_backend, eval-pass cfg.use_execution_reward cfg.threshold _ _ x h y))

  pub kept_message :
      (m : Message) (text : Text)
      → m.body ≡ some text
      → (m' : Message) × (truncated en fl w cfg abbrev_tokens m ≡ some m')
  unfolding truncated
  kept_message m text b =
      maybe_truncate_message-some en cfg.max_user_turn_len abbrev_tokens right m text b

  IsStep-reject :
      (c s : State Backend) (action : List ℕ) (e : Failure)
      → (Near en fl w cfg abbrev_tokens) c s
      → s.cleaned_up ≡ c.cleaned_up
      → (IsStep en fl w cfg abbrev_tokens) c action (reject en fl w cfg abbrev_tokens s action e)
  unfolding reject
  IsStep-reject c s action e n k =
      either_way ((IsStep en fl w cfg abbrev_tokens) c action) cfg.strict_format _ _
        ((IsMove-finish en fl w cfg abbrev_tokens) c (close s) action failed_outcomes
          (Near-close c s n) (is_closed s) ((IsJudged-failed en fl w cfg abbrev_tokens) c))
        (let (m, e) = kept_message (user_message (describe e)) (describe e) refl in
          (IsStep-go_on en fl w cfg abbrev_tokens) c s action _ m e n k)

  pub IsStep-no_call :
      (c s : State Backend) (action : List ℕ) (action_str : Text) (e : Failure) (o : Option Text)
      → (Near en fl w cfg abbrev_tokens) c s
      → s.cleaned_up ≡ c.cleaned_up
      → c.pred_patch ≡ o
      → (IsStep en fl w cfg abbrev_tokens) c action
          (no_call en fl w cfg abbrev_tokens s action action_str e o)
  unfolding no_call
  IsStep-no_call c s action action_str e none n k q = IsStep-reject c s action e n k
  IsStep-no_call c s action action_str e (some p) n k q =
      either_way ((IsStep en fl w cfg abbrev_tokens) c action)
        (is_summary en fl w cfg abbrev_tokens action_str) _ _
        (IsStep-sum_up c (close s) action p (Near-close c s n) (is_closed s) q)
        (IsStep-reject c s action e n k)

  pub IsStep-break_off :
      (c s : State Backend) (action : List ℕ) (o : Option Backend)
      → (Near en fl w cfg abbrev_tokens) c s
      → s.cleaned_up ≡ true
      → (IsStep en fl w cfg abbrev_tokens) c action (break_off en fl w cfg abbrev_tokens s action o)
  unfolding break_off IsStep
  IsStep-break_off c s action none n k = inr (n, inl k)
  IsStep-break_off c s action (some b) n k =
      either_way ((IsStep en fl w cfg abbrev_tokens) c action) (w.timed_out b) _ _
        ((IsMove-finish en fl w cfg abbrev_tokens) c s action failed_outcomes n k
          ((IsJudged-failed en fl w cfg abbrev_tokens) c))
        (inr (n, inl k))
