-- ===== src/Rl/MathThink/Attempts.antt =====
-- How many attempts there are.
use mathlib.Core.Path.{subst}
use mathlib.Core.Option.{some-injective}
use cwm.Prelude.{
  ℕ, ◌+◌, ◌≤◌, ◌<◌, ◌≡◌, refl, ap, ◌∙◌, ◌⊎◌, inl, inr, Bool, true, false, ◌||◌, not, List, [], ◌∷◌,
  Option, none, some, leb, if◌then◌else◌, length, Bool-cases, either_way, Option-cases, arith,
  leb→le, ◌&&◌,
}
use cwm.Prelude.Text.{codes, occurs}
use cwm.Dialog.Tokenizer.{Text, Encoding}
use cwm.Dialog.Env.{dialog_transition, observation, dialog_transition-fields}
use cwm.Rl.Transition.{Float, Transition, transition_init}
use cwm.Rl.MathThink.{
  Settings, Attempt, Metrics, Checker, default_outcomes, eval_metrics, Moved, with_state,
  stop_think_condition, stop_think_transition, prediction, conclude, assess, take_turn, said, tried,
  math_step,
}

module _ (en : Encoding) (fl : Float) (ck : Checker) (cfg : Settings) where
  open fl use {Real}

  -- How a turn ends the episode or goes on.
  pub record IsTurn (st s : Attempt) (tr : Transition Real Metrics) : Type 0 where
    pub same_step : s.step_id ≡ st.step_id
    pub last_turn : tr.terminal ≡ true → (tr.outcomes.pass ≡ true) ⊎ (cfg.max_attempts ≤ st.step_id)
    pub next_turn :
        tr.terminal ≡ false
        → ((st.step_id < cfg.max_attempts)
            × (tr.outcomes.pass ≡ false)
            × (s.answer_only ≡ st.answer_only))
          ⊎ ((st.answer_only ≡ false) × (s.answer_only ≡ true))

  abbrev pub IsMoved : Attempt → Moved en fl ck cfg → Type 0
  IsMoved st none = Unit
  IsMoved st (some (s, tr)) = IsTurn st s tr

  ends_well : (b p : Bool) → (b || p) ≡ true → (p ≡ true) ⊎ (b ≡ true)
  ends_well true p h = inr refl
  ends_well false p h = inl h

  last_turn_of :
      (st : Attempt) (m : Metrics)
      → (leb cfg.max_attempts st.step_id || m.pass) ≡ true
      → (m.pass ≡ true) ⊎ (cfg.max_attempts ≤ st.step_id)
  last_turn_of st m h = elim (ends_well (leb cfg.max_attempts st.step_id) m.pass h) [
    | inl p ↦ inl p
    | inr l ↦ inr (leb→le cfg.max_attempts st.step_id l)
  ]

  IsMoved-last :
      (st : Attempt) (action : List ℕ) (m : Metrics)
      → (leb cfg.max_attempts st.step_id || m.pass) ≡ true
      → IsMoved st (
          with_state en fl ck cfg st
            (dialog_transition en fl default_outcomes [] (some action) false true (some m) false))
  unfolding with_state dialog_transition observation transition_init
  IsMoved-last st [] m h = record {
    same_step = refl;
    last_turn = λ k. last_turn_of st m h;
    next_turn = λ k. cc;
  }
  IsMoved-last st (t ∷ action) m h = record {
    same_step = refl;
    last_turn = λ k. last_turn_of st m h;
    next_turn = λ k. cc;
  }

  IsMoved-next :
      (st : Attempt) (action : List ℕ) (m : Metrics) (o : Option (Transition Real Metrics))
      → (leb cfg.max_attempts st.step_id || m.pass) ≡ false
      → ((tr : Transition Real Metrics) → o ≡ some tr → (tr.terminal ≡ false) × (tr.outcomes ≡ m))
      → IsMoved st (with_state en fl ck cfg st o)
  unfolding with_state
  IsMoved-next st action m none h f = tt
  IsMoved-next st action m (some tr) h f =
      let (t, q) = f tr refl in
      record {
        same_step = refl;
        last_turn = λ k. cc;
        next_turn = λ k. inl (ground (arith, h), ap (λ x. x.pass) q ∙ ground (arith, h), refl);
      }

  IsMoved-conclude :
      (st : Attempt) (action : List ℕ) (m : Metrics)
      → IsMoved st (conclude en fl ck cfg st action m)
  unfolding conclude
  IsMoved-conclude st action m = elim (Bool-cases (leb cfg.max_attempts st.step_id || m.pass)) [
    | inl y ↦ rw y (IsMoved-last st action m y)
    | inr n ↦ rw n (
        IsMoved-next st action m _ n
          (λ tr h. let (_, t, q) = dialog_transition-fields en fl _ _ action _ m tr h in (t, q)))
  ]

  IsMoved-assess :
      (st : Attempt) (action : List ℕ) (p : Option (Option Text × Option Text))
      → IsMoved st (assess en fl ck cfg st action p)
  unfolding assess
  IsMoved-assess st action none = tt
  IsMoved-assess st action (some (reasoning, answer)) =
      IsMoved-conclude st action (eval_metrics en ck action reasoning answer)

  IsMoved-stop :
      (st : Attempt) (action : List ℕ)
      → st.answer_only ≡ false
      → IsMoved st (stop_think_transition en fl ck cfg st action)
  unfolding stop_think_transition with_state transition_init
  IsMoved-stop st [] h = record {
    same_step = refl;
    last_turn = λ k. cc;
    next_turn = λ k. inr (h, refl);
  }
  IsMoved-stop st (t ∷ action) h = record {
    same_step = refl;
    last_turn = λ k. cc;
    next_turn = λ k. inr (h, refl);
  }

  IsMoved-take_turn :
      (st : Attempt) (action : List ℕ) (action_str : Text) (o : Option Bool)
      → (o ≡ some true → st.answer_only ≡ false)
      → IsMoved st (take_turn en fl ck cfg st action action_str o)
  unfolding take_turn
  IsMoved-take_turn st action action_str none h = tt
  IsMoved-take_turn st action action_str (some true) h = IsMoved-stop st action (h refl)
  IsMoved-take_turn st action action_str (some false) h =
      IsMoved-assess st action (prediction en fl ck cfg st action_str)

  full_if :
      (a b c : Bool) (o : Option Bool)
      → (if a && (not b && not c) then o else some false) ≡ some true
      → c ≡ false
  full_if true false false o h = refl
  full_if true false true o h = cc
  full_if true true c o h = cc
  full_if false b c o h = cc

  stop_think-full :
      (st : Attempt) (action : List ℕ) (action_str : Text)
      → stop_think_condition en fl ck cfg st action action_str ≡ some true
      → st.answer_only ≡ false
  unfolding stop_think_condition
  stop_think-full st action action_str h =
      full_if cfg.stop_think (occurs (codes "</think>") action_str) st.answer_only _ h

  math_step-IsMoved :
      (st : Attempt) (action : List ℕ)
      → IsMoved (tried en fl ck cfg st action) (math_step en fl ck cfg st action)
  unfolding math_step
  math_step-IsMoved st action =
      let st' = tried en fl ck cfg st action in
      either_way (IsMoved st') _ _ none
        (IsMoved-take_turn st' action (said en fl ck cfg action)
          (stop_think_condition en fl ck cfg st' action (said en fl ck cfg action))
          (stop_think-full st' action (said en fl ck cfg action)))
        tt

  -- The turns of a list of actions: whether the episode still goes on, and in which state.
  unless : Bool → (Attempt → Option Attempt) → Attempt → Option Attempt
  unless true next s = none
  unless false next s = next s

  on_turn : (Attempt → Option Attempt) → Moved en fl ck cfg → Option Attempt
  unfolding unless
  on_turn next none = none
  on_turn next (some (s, tr)) = unless tr.terminal next s

  unfoldable pub still_going : Attempt → List (List ℕ) → Option Attempt
  unfolding on_turn
  still_going st [] = some st
  still_going st (action ∷ actions) =
      on_turn (λ s. still_going s actions) (math_step en fl ck cfg st action)

  -- Attempts are left, or the last one asks for the answer alone.
  abbrev pub Going : Attempt → Type 0
  Going s =
      (s.step_id < cfg.max_attempts) ⊎ ((s.step_id ≤ cfg.max_attempts) × (s.answer_only ≡ true))

  unless-some :
      (b : Bool) (next : Attempt → Option Attempt) (s u : Attempt)
      → unless b next s ≡ some u
      → (b ≡ false) × (next s ≡ some u)
  unfolding unless
  unless-some true next s u h = cc
  unless-some false next s u h = (refl, h)

  Going-turn :
      (st s : Attempt) (action : List ℕ) (tr : Transition Real Metrics)
      → IsTurn (tried en fl ck cfg st action) s tr
      → tr.terminal ≡ false
      → Going st
      → Going s
  Going-turn st s action tr i t g = elim (i.next_turn t) [
    | inl (l, _, _) ↦ inl (omega (arith, l, i.same_step))
    | inr (f, y) ↦ elim g [
      | inl l ↦ inr (omega (arith, l, i.same_step), y)
      | inr (l, a) ↦ absurd (cc (f, a))
    ]
  ]

  Going-on_turn :
      (st u : Attempt) (action : List ℕ) (next : Attempt → Option Attempt) (x : Moved en fl ck cfg)
      → IsMoved (tried en fl ck cfg st action) x
      → on_turn next x ≡ some u
      → Going st
      → (s : Attempt) × (s.step_id ≡ st.step_id + 1) × Going s × (next s ≡ some u)
  unfolding on_turn
  Going-on_turn st u action next none i h g = cc
  Going-on_turn st u action next (some (s, tr)) i h g =
      let (t, r) = unless-some tr.terminal next s u h in
      (s, i.same_step, Going-turn st s action tr i t g, r)

  still_going_lem :
      (st u : Attempt) (actions : List (List ℕ))
      → still_going st actions ≡ some u
      → Going st
      → (u.step_id ≡ st.step_id + length actions) × Going u
  unfolding still_going
  still_going_lem st u [] h g =
      let e = some-injective st u h in (omega (arith, ap (λ x. x.step_id) e), subst Going e g)
  still_going_lem st u (action ∷ actions) h g =
      let (s, e, k, r) =
        Going-on_turn st u action (λ s. still_going s actions) (math_step en fl ck cfg st action)
          (math_step-IsMoved st action) h g in
      let (d, k') = still_going_lem s u actions r k in (omega (arith, d, e), k')

  -- If there is one attempt at least, an episode is over after at most max_attempts + 1 actions,
  -- whatever they are: the one more is the request for the answer alone.
  pub attempts_end :
      (st : Attempt) (actions : List (List ℕ))
      → st.step_id ≡ 0
      → 0 < cfg.max_attempts
      → cfg.max_attempts < length actions
      → still_going st actions ≡ none
  attempts_end st actions z m l = elim (Option-cases (still_going st actions)) [
    | inl n ↦ n
    | inr (u, e) ↦
        let (d, g) = still_going_lem st u actions e (inl (omega (arith, z, m))) in
        absurd (elim g [ inl a ↦ omega (arith, a, d, z) | inr (a, _) ↦ omega (arith, a, d, z) ])
  ]
