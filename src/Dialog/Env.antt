-- ===== src/Dialog/Env.antt =====
-- cwm/rl/envs/dialog.py, the method `transition` of DialogEnv: the messages of the environment
-- become the tokens that the agent sees.
use mathlib.Core.Option.{some-injective}
use cwm.Prelude.{
  sym, ap, ◌∙◌, refl, ◌≡◌, ℕ, Bool, true, false, List, [], ◌∷◌, ◌++◌, Option, none, some, ◌==◌,
  if◌then◌else◌,
}
use cwm.Dialog.Tokenizer.{
  Text, Encoding, Message, assistant_message, is_assistant, encode_prompt_dialog,
}
use cwm.Rl.Transition.{Float, Transition, Args, transition_init}

-- The last element; `none` is the IndexError of an empty list.
unfoldable pub last_of {ℓ} : {A : Type ℓ} → List A → Option A
last_of [] = none
last_of (x ∷ []) = some x
last_of (x ∷ y ∷ xs) = last_of (y ∷ xs)

module _ (en : Encoding) where
  -- The end of the turn, if the last action lacks it.
  ended : Option ℕ → Option (List ℕ)
  ended none = none
  ended (some t) = some (if t == en.eot_id then [] else en.eot_id ∷ [])

  closing : Option (List ℕ) → Option (List ℕ)
  unfolding ended
  closing none = some []
  closing (some action) = ended (last_of action)

  -- The token that starts the thinking; the last message must be the assistant's.
  thinking : Bool → Option Message → Option (List ℕ)
  unfolding is_assistant
  thinking false m = some []
  thinking true none = none
  thinking true (some m) = if is_assistant m.source then some (en.thinking_start_id ∷ []) else none

  around : List ℕ → Option (List ℕ) → Option (List ℕ) → Option (List ℕ)
  around tokens (some before) (some after) = some (before ++ tokens ++ after)
  around tokens _ _ = none

  -- `none` is an exception.
  unfoldable pub observation : List Message → Option (List ℕ) → Bool → Bool → Option (List ℕ)
  unfolding closing thinking around
  observation [] action initial think = some []
  observation (m ∷ ms) action initial think =
      around (encode_prompt_dialog en (m ∷ ms) initial) (closing action)
        (thinking think (last_of (m ∷ ms)))

module _ (en : Encoding) (fl : Float) {Out : Type 0} (no_outcomes : Out) where
  open fl use {Real}

  -- The keyword arguments of a transition without rewards.
  abbrev pub plain_args : Option (List ℕ) → List ℕ → Bool → Option Out → Args Real Out
  plain_args action tokens terminal outcomes = record {
    action = action;
    rewards = none;
    reward = none;
    observation = some tokens;
    terminal = terminal;
    context_switch = false;
    outcomes = outcomes;
  }

  observed : Option (List ℕ) → Bool → Option Out → Option (List ℕ) → Option (Transition Real Out)
  observed action terminal outcomes none = none
  observed action terminal outcomes (some tokens) =
      transition_init fl no_outcomes (plain_args action tokens terminal outcomes)

  unfoldable pub dialog_transition :
      List Message
      → Option (List ℕ)
      → Bool
      → Bool
      → Option Out
      → Bool
      → Option (Transition Real Out)
  unfolding observed
  dialog_transition messages action initial terminal outcomes think =
      observed action terminal outcomes (observation en messages action initial think)

  observed-fields :
      (action : List ℕ) (o : Out) (tokens : Option (List ℕ)) (tr : Transition Real Out)
      → observed (some action) false (some o) tokens ≡ some tr
      → (tr.action ≡ action) × (tr.terminal ≡ false) × (tr.outcomes ≡ o)
  unfolding observed transition_init
  observed-fields action o none tr h = cc
  observed-fields [] o (some tokens) tr h =
      let q = some-injective _ tr h in
      (sym (ap (λ t. t.action) q), sym (ap (λ t. t.terminal) q), sym (ap (λ t. t.outcomes) q))
  observed-fields (t ∷ action) o (some tokens) tr h =
      let q = some-injective _ tr h in
      (sym (ap (λ t. t.action) q), sym (ap (λ t. t.terminal) q), sym (ap (λ t. t.outcomes) q))

  -- A transition that is not terminal has the action and the outcomes that it was given.
  pub dialog_transition-fields :
      (ms : List Message) (action : List ℕ) (think : Bool) (o : Out) (tr : Transition Real Out)
      → dialog_transition ms (some action) false false (some o) think ≡ some tr
      → (tr.action ≡ action) × (tr.terminal ≡ false) × (tr.outcomes ≡ o)
  unfolding dialog_transition
  dialog_transition-fields ms action think o tr h =
      observed-fields action o (observation en ms (some action) false think) tr h

last_of-cons : (t : ℕ) (ts : List ℕ) → (x : ℕ) × (last_of (t ∷ ts) ≡ some x)
unfolding last_of
last_of-cons t [] = (t, refl)
last_of-cons t (u ∷ ts) = last_of-cons u ts

module _ (en : Encoding) (fl : Float) {Out : Type 0} (no_outcomes : Out) where
  open fl use {Real}

  thinking-assistant :
      (think : Bool) (text : Text)
      → (after : List ℕ) × (thinking en think (some (assistant_message text)) ≡ some after)
  unfolding thinking is_assistant
  thinking-assistant false text = ([], refl)
  thinking-assistant true text = (en.thinking_start_id ∷ [], refl)

  observation-some :
      (m : Message) (text : Text) (t : ℕ) (action : List ℕ) (think : Bool)
      → (tokens : List ℕ) × (observation en
            (m ∷ assistant_message text ∷ [])
            (some (t ∷ action))
            false
            think
          ≡ some tokens)
  unfolding observation closing ended around last_of
  observation-some m text t action think =
      let (x, e) = last_of-cons t action in
      let (after, f) = thinking-assistant think text in
      (
        (if x == en.eot_id then [] else en.eot_id ∷ [])
            ++ encode_prompt_dialog en (m ∷ assistant_message text ∷ []) false
            ++ after,
        ap
              (λ u.
                around en (encode_prompt_dialog en (m ∷ assistant_message text ∷ []) false)
                  (ended en u) (thinking en think (some (assistant_message text))))
              e
            ∙ ap
                (λ u.
                  around en (encode_prompt_dialog en (m ∷ assistant_message text ∷ []) false)
                    (some (if x == en.eot_id then [] else en.eot_id ∷ [])) u)
                f,
      )

  observed-some :
      (t : ℕ) (action : List ℕ) (o : Out) (tokens : List ℕ)
      → (tr : Transition Real Out) × (observed en fl no_outcomes
            (some (t ∷ action))
            false
            (some o)
            (some tokens)
          ≡ some tr)
  unfolding observed transition_init
  observed-some t action o tokens = (_, refl)

  -- After an action that is not empty, a message and a prompt for the assistant are a transition.
  pub dialog_transition-some :
      (m : Message) (text : Text) (t : ℕ) (action : List ℕ) (think : Bool) (o : Out)
      → (tr : Transition Real Out) × (dialog_transition en fl no_outcomes
            (m ∷ assistant_message text ∷ [])
            (some (t ∷ action))
            false
            false
            (some o)
            think
          ≡ some tr)
  unfolding dialog_transition
  dialog_transition-some m text t action think o =
      let (tokens, e) = observation-some m text t action think in
      let (tr, f) = observed-some t action o tokens in
      (tr, ap (observed en fl no_outcomes (some (t ∷ action)) false (some o)) e ∙ f)
