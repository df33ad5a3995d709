-- ===== src/Rl/SwerlTool/Step/Kept.antt =====
-- What a step does to the state, on every branch.
use cwm.Prelude.{
  ℕ, ◌+◌, ◌≤◌, ◌<◌, ◌≡◌, refl, ap, sym, ◌∙◌, inl, inr, Bool, true, false, ◌&&◌, not, if◌then◌else◌,
  List, [], ◌∷◌, Option, none, some, ltb, leb, length, Bool-cases, either_way, and_true, arith,
}
use cwm.Prelude.Text.{codes, same, same_sound}
use cwm.Dialog.Tokenizer.{Text, Encoding, tool_result}
use cwm.Swerl.Tools.{
  ToolCallResult, Applied, applied, unknown, crashed, Parsed, refused, calls, apply_tool,
}
use cwm.Rl.Transition.{Float, Transition}
use cwm.Rl.SwerlTool.{
  Config, State, Outcomes, close, accepted, failed_outcomes, tool_feedback, with_budget,
}
use cwm.Rl.SwerlTool.Step.{
  moved, raised, Tried, worked, refused_call, broke, World, tried_of, backend_of, use_tool,
  call_tool, thinking_fails, attempt, respond, counted, proceed, step,
}
use cwm.Rl.SwerlTool.Step.Moves.{
  StepOf, Submitted, Near, IsStep, finish_fields, IsMove-finish, IsJudged-failed, IsStep-go_on,
}
use cwm.Rl.SwerlTool.Step.Stored.{IsStored, attempted, step-IsStored}
use cwm.Rl.SwerlTool.Step.Answers.{
  Near-close, is_closed, kept_message, IsStep-no_call, IsStep-break_off,
}

module _ (en : Encoding) (fl : Float) {Backend Similar : Type 0} (w : World Backend Similar)
    (cfg : Config fl.Real) (abbrev_tokens : List ℕ) where
  open fl use {Real}

  stays : (StepOf en fl w cfg abbrev_tokens) → Bool
  stays (raised s) = false
  stays (moved s tr) = not tr.terminal

  not_over :
      (s : State Backend) (tr : Transition Real (Outcomes Similar Real)) (s' : State Backend)
      (tr' : Transition Real (Outcomes Similar Real))
      → Path (StepOf en fl w cfg abbrev_tokens) (moved s tr) (moved s' tr')
      → tr.terminal ≡ false
      → tr'.terminal ≡ true
      → ⊥
  unfolding stays
  not_over s tr s' tr' e h k = let q : not tr.terminal ≡ not tr'.terminal = ap stays e in cc

  moved≢raised :
      (s : State Backend) (tr : Transition Real (Outcomes Similar Real)) (s' : State Backend)
      → Path (StepOf en fl w cfg abbrev_tokens) (moved s tr) (raised s')
      → ⊥
  moved≢raised s tr s' e = cc

  -- A backend and a patch that this step may bring.
  abbrev Brought : Tried Backend → Type 0
  Brought (worked b name r) =
      (b₀ : Backend) × (input : Text) × (apply_tool w.tools b₀ name input ≡ (b, applied r))
  Brought _ = Unit

  Brought-tried_of :
      (b₀ : Backend) (name input : Text) (x : Backend × Applied)
      → apply_tool w.tools b₀ name input ≡ x
      → Brought (tried_of w name x)
  unfolding tried_of
  Brought-tried_of b₀ name input (b, applied r) e = (b₀, input, e)
  Brought-tried_of b₀ name input (b, unknown f) e = tt
  Brought-tried_of b₀ name input (b, crashed) e = tt

  Brought-use_tool : (o : Option Backend) (name input : Text) → Brought (use_tool w o name input)
  unfolding use_tool
  Brought-use_tool none name input = tt
  Brought-use_tool (some b) name input = Brought-tried_of b name input _ refl

  Brought-call_tool :
      (o : Option Backend) (p : Parsed) → Brought (call_tool w cfg.backend_is_modal o p)
  unfolding call_tool
  Brought-call_tool o (refused e) = tt
  Brought-call_tool o (calls []) = tt
  Brought-call_tool o (calls ((name, input) ∷ cs)) =
      Brought-use_tool (backend_of w cfg.backend_is_modal o) name input

  Brought-attempt :
      (o : Option Backend) (action_str : Text)
      → Brought (attempt en fl w cfg abbrev_tokens o action_str)
  unfolding attempt
  Brought-attempt o action_str =
      either_way Brought (thinking_fails en fl w cfg abbrev_tokens action_str) _ _ tt
        (Brought-call_tool o _)

  accepted_patch :
      (c s : State Backend) (b : Backend) (name : Text) (r : ToolCallResult)
      → (Near en fl w cfg abbrev_tokens) c s
      → Brought (worked b name r)
      → (same name (codes "submit") && r.success) ≡ true
      → (p : Text) → r.output ≡ p
      → (Submitted en fl w cfg abbrev_tokens) p
  accepted_patch c s b name r n (b₀, input, e) y p h =
      let (f, k) = and_true (same name (codes "submit")) r.success y in
      (
        b₀,
        b,
        input,
        r,
        ap (λ t. apply_tool w.tools b₀ t input) (sym (same_sound name (codes "submit") f)) ∙ e,
        k,
        h,
      )

  Near-accepted :
      (c s : State Backend) (b : Backend) (name : Text) (r : ToolCallResult)
      → (Near en fl w cfg abbrev_tokens) c s
      → Brought (worked b name r)
      → (Near en fl w cfg abbrev_tokens) c (accepted s name r)
        × ((accepted s name r).cleaned_up ≡ s.cleaned_up)
  unfolding accepted
  Near-accepted c s b name r n t = elim (Bool-cases (same name (codes "submit") && r.success)) [
    | inl y ↦ rw y (
      record {
        same_step = n.same_step;
        same_tokens = n.same_tokens;
        patch = inr (r.output, refl, accepted_patch c s b name r n t y r.output refl);
      },
      refl,
    )
    | inr m ↦ rw m (n, refl)
  ]

  Near-backend :
      (c : State Backend) (o : Option Backend)
      → (Near en fl w cfg abbrev_tokens) c (record c { tool_backend = o })
  Near-backend c o = record { same_step = refl; same_tokens = refl; patch = inl refl }

  IsStep-respond :
      (c : State Backend) (action : List ℕ) (action_str : Text) (x : Tried Backend)
      → Brought x
      → (IsStep en fl w cfg abbrev_tokens) c action
          (respond en fl w cfg abbrev_tokens c action action_str x)
  unfolding respond
  IsStep-respond c action action_str (worked b name r) t =
      let (n, k) =
        Near-accepted c (record c { tool_backend = some b }) b name r (Near-backend c (some b)) t in
      let (m, e) =
        (kept_message en fl w cfg abbrev_tokens)
          (tool_result (with_budget en cfg _ name (tool_feedback name r)) name) _ refl in
      (IsStep-go_on en fl w cfg abbrev_tokens) c _ action _ m e n k
  IsStep-respond c action action_str (refused_call o e) t =
      (IsStep-no_call en fl w cfg abbrev_tokens) c _ action action_str e c.pred_patch
        (Near-backend c o) refl refl
  IsStep-respond c action action_str (broke o) t =
      (IsStep-break_off en fl w cfg abbrev_tokens) c _ action o
        ((Near-close en fl w cfg abbrev_tokens) c _ (Near-backend c o))
        ((is_closed en fl w cfg abbrev_tokens) _)

  -- The assertion on the length of the action fails before anything is counted.
  IsStep-too_long :
      (st : State Backend) (action : List ℕ)
      → cfg.max_action_len < length action
      → (IsStep en fl w cfg abbrev_tokens)
          (counted en fl w cfg abbrev_tokens st action)
          action
          (raised st)
  unfolding IsStep
  IsStep-too_long st action h = inl (h, refl, refl, refl, refl)

  begun :
      (st : State Backend) (action : List ℕ) (b : Bool) (x : (StepOf en fl w cfg abbrev_tokens))
      → leb (length action) cfg.max_action_len ≡ b
      → (IsStep en fl w cfg abbrev_tokens) (counted en fl w cfg abbrev_tokens st action) action x
      → (IsStep en fl w cfg abbrev_tokens)
          (counted en fl w cfg abbrev_tokens st action)
          action
          (if b then x else raised st)
  begun st action true x h i = i
  begun st action false x h i = IsStep-too_long st action (ground (arith, h))

  each_branch :
      (st : State Backend) (action : List ℕ)
      → (IsStep en fl w cfg abbrev_tokens)
          (counted en fl w cfg abbrev_tokens st action)
          action
          (step en fl w cfg abbrev_tokens st action)
  unfolding step proceed
  each_branch st action =
      let c = counted en fl w cfg abbrev_tokens st action in
      let n = (Near-close en fl w cfg abbrev_tokens) c c (Near-backend c c.tool_backend) in
      let over =
        (IsMove-finish en fl w cfg abbrev_tokens) c (close c) action failed_outcomes n
          ((is_closed en fl w cfg abbrev_tokens) c)
          ((IsJudged-failed en fl w cfg abbrev_tokens) c) in
      begun st action _ _ refl (
        either_way ((IsStep en fl w cfg abbrev_tokens) c action) _ _ _ over (
          either_way ((IsStep en fl w cfg abbrev_tokens) c action) _ _ _ over
            (IsStep-respond c action _ _ (Brought-attempt c.tool_backend _))))

  pub step-IsStep :
      (st : State Backend) (action : List ℕ)
      → (IsStep en fl w cfg abbrev_tokens)
          (record st { step_id = st.step_id + 1; num_tokens = st.num_tokens + length action })
          action
          (step en fl w cfg abbrev_tokens st action)
        × (IsStored en fl w cfg abbrev_tokens) st.pred_patch
            (attempted en fl w cfg abbrev_tokens st action)
            (step en fl w cfg abbrev_tokens st action)
  step-IsStep st action =
      (each_branch st action, (step-IsStored en fl w cfg abbrev_tokens) st action)

  -- A step that does not end the episode is within the limits.
  pub step_limits :
      (st s : State Backend) (action : List ℕ) (tr : Transition Real (Outcomes Similar Real))
      → step en fl w cfg abbrev_tokens st action ≡ moved s tr
      → tr.terminal ≡ false
      → (length action ≤ cfg.max_action_len)
        × (st.num_tokens + length action ≤ cfg.context_size)
        × (st.step_id + 1 < cfg.max_turns)
  unfolding step proceed
  step_limits st s action tr h t =
      let c = counted en fl w cfg abbrev_tokens st action in
      let (tr', e, _, _, over, _) =
        (finish_fields en fl w cfg abbrev_tokens) (close c) action failed_outcomes in
      elim (Bool-cases (leb (length action) cfg.max_action_len)) [
        | inr m ↦
            let z : step en fl w cfg abbrev_tokens st action ≡ raised st = rw m in
            absurd (moved≢raised s tr st (sym h ∙ z))
        | inl y ↦ elim (Bool-cases (ltb cfg.context_size c.num_tokens)) [
          | inl f ↦
              let z : step en fl w cfg abbrev_tokens st action ≡ moved (close c) tr' =
                rw (y, f) e in
              absurd (not_over s tr (close c) tr' (sym h ∙ z) t over)
          | inr f ↦ elim (Bool-cases (leb cfg.max_turns c.step_id)) [
            | inl g ↦
                let z : step en fl w cfg abbrev_tokens st action ≡ moved (close c) tr' =
                  rw (y, f, g) e in
                absurd (not_over s tr (close c) tr' (sym h ∙ z) t over)
            | inr g ↦ (ground (arith, y), ground (arith, f), ground (arith, g))
          ]
        ]
      ]
