-- ===== src/Rl/SwerlTool/Step/Stored.antt =====
-- Which patch is in the state after a step that goes on with a tool's answer.
use cwm.Prelude.{
  ℕ, ◌≡◌, sym, true, false, ◌&&◌, List, Option, none, some, if◌then◌else◌, either_way, Bool-cases,
  inl, inr,
}
use cwm.Prelude.Text.{codes, same}
use cwm.Dialog.Tokenizer.{Text, Encoding, Message, stop_tokens, cut_at_stop_tokens, decode}
use cwm.Swerl.Tools.{ToolCallResult}
use cwm.Rl.Transition.{Float, Transition}
use cwm.Rl.SwerlTool.{Config, State, Outcomes, close, accepted, failed_outcomes}
use cwm.Rl.SwerlTool.Step.{
  moved, raised, Tried, worked, refused_call, broke, World, attempt, respond, counted, proceed,
  step, seen, go_on,
}
use cwm.Rl.SwerlTool.Step.Moves.{StepOf, finish_of, finish_fields}
use mathlib.Core.Path.{subst}

module _ (en : Encoding) (fl : Float) {Backend Similar : Type 0} (w : World Backend Similar)
    (cfg : Config fl.Real) (abbrev_tokens : List ℕ) where
  open fl use {Real}

  -- What the calls of the answer come to.
  abbrev pub attempted : State Backend → List ℕ → Tried Backend
  attempted st action =
      attempt en fl w cfg abbrev_tokens st.tool_backend
        (decode en (cut_at_stop_tokens (stop_tokens en) true action) true)

  -- The patch after a tool's answer: that of a successful submission, else the one that was there.
  abbrev pub patch_after : Option Text → Text → ToolCallResult → Option Text
  patch_after before name r =
      if same name (codes "submit") && r.success then some r.output else before

  unfoldable pub IsStored : Option Text → Tried Backend → StepOf en fl w cfg abbrev_tokens → Type 0
  IsStored before (worked b name r) (moved s tr) =
      tr.terminal ≡ false → s.pred_patch ≡ patch_after before name r
  IsStored before (worked b name r) (raised s) = Unit
  IsStored before (refused_call o e) x = Unit
  IsStored before (broke o) x = Unit

  IsStored-ended :
      (before : Option Text) (x : Tried Backend) (s : State Backend)
      (tr : Transition Real (Outcomes Similar Real))
      → tr.terminal ≡ true
      → IsStored before x (moved s tr)
  unfolding IsStored
  IsStored-ended before (worked b name r) s tr t = λ h. cc
  IsStored-ended before (refused_call o e) s tr t = tt
  IsStored-ended before (broke o) s tr t = tt

  IsStored-finish :
      (before : Option Text) (x : Tried Backend) (s : State Backend) (action : List ℕ)
      (o : Outcomes Similar Real)
      → IsStored before x (finish_of en fl w cfg abbrev_tokens s action o)
  IsStored-finish before x s action o =
      let (tr, e, _, _, t, _) = finish_fields en fl w cfg abbrev_tokens s action o in
      subst (IsStored before x) (sym e) (IsStored-ended before x s tr t)

  IsStored-seen :
      (before : Option Text) (b : Backend) (name : Text) (r : ToolCallResult) (s : State Backend)
      (o : Option (Transition Real (Outcomes Similar Real)))
      → s.pred_patch ≡ patch_after before name r
      → IsStored before (worked b name r) (seen en fl w cfg abbrev_tokens s o)
  unfolding IsStored seen
  IsStored-seen before b name r s none e = tt
  IsStored-seen before b name r s (some tr) e = λ h. e

  IsStored-go_on :
      (before : Option Text) (b : Backend) (name : Text) (r : ToolCallResult) (s : State Backend)
      (action : List ℕ) (o : Option Message)
      → s.pred_patch ≡ patch_after before name r
      → IsStored before (worked b name r) (go_on en fl w cfg abbrev_tokens s action o)
  unfolding IsStored go_on
  IsStored-go_on before b name r s action none e = tt
  IsStored-go_on before b name r s action (some m) e = IsStored-seen before b name r s _ e

  accepted-patch :
      (st : State Backend) (b : Backend) (name : Text) (r : ToolCallResult)
      → (accepted (record st { tool_backend = some b }) name r).pred_patch
        ≡ patch_after st.pred_patch name r
  unfolding accepted
  accepted-patch st b name r = elim (Bool-cases (same name (codes "submit") && r.success)) [
    | inl y ↦ rw y
    | inr n ↦ rw n
  ]

  IsStored-respond :
      (st : State Backend) (action : List ℕ) (action_str : Text) (x : Tried Backend)
      → IsStored st.pred_patch x (respond en fl w cfg abbrev_tokens st action action_str x)
  unfolding IsStored respond
  IsStored-respond st action action_str (worked b name r) =
      IsStored-go_on st.pred_patch b name r _ action _ (accepted-patch st b name r)
  IsStored-respond st action action_str (refused_call o e) = tt
  IsStored-respond st action action_str (broke o) = tt

  IsStored-raised :
      (before : Option Text) (x : Tried Backend) (s : State Backend) → IsStored before x (raised s)
  unfolding IsStored
  IsStored-raised before (worked b name r) s = tt
  IsStored-raised before (refused_call o e) s = tt
  IsStored-raised before (broke o) s = tt

  pub step-IsStored :
      (st : State Backend) (action : List ℕ)
      → IsStored st.pred_patch (attempted st action) (step en fl w cfg abbrev_tokens st action)
  unfolding step proceed
  step-IsStored st action =
      let before = st.pred_patch in
      let x = attempted st action in
      let c = counted en fl w cfg abbrev_tokens st action in
      let over = IsStored-finish before x (close c) action failed_outcomes in
      either_way (IsStored before x) _ _ (raised st)
        (either_way (IsStored before x) _ _ _ over
          (either_way (IsStored before x) _ _ _ over (IsStored-respond c action _ x)))
        (IsStored-raised before x st)
