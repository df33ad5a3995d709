-- ===== src/Rl/Trajectory/Append.antt =====
-- `append` keeps the sequences of a trajectory aligned.
use mathlib.Core.List
use cwm.Prelude.{
  ℕ, ◌≡◌, refl, ap, sym, ◌∙◌, true, false, List, [], ◌∷◌, ◌++◌, append-nil, append_assoc, Option,
  none, some, if◌then◌else◌, length, length-append, replicate, length-replicate, arith, Bool-cases,
  inl, inr,
}
use cwm.Rl.Transition.{Float, Transition}
use cwm.Rl.Trajectory.{
  Source, env, agent, Trajectory, trajectory_init, extend_last, last, context, assert_valid, extend,
  maybe_context_switch, observe, finish, given, append_with, append,
}

-- Two lists of contexts with the same lengths.
abbrev pub Aligned {ℓ κ} : {A : Type ℓ} {B : Type κ} → List (List A) → List (List B) → Type 0
Aligned [] [] = Unit
Aligned [] (ys ∷ yss) = ⊥
Aligned (xs ∷ xss) [] = ⊥
Aligned (xs ∷ xss) (ys ∷ yss) = (length xs ≡ length ys) × Aligned xss yss

module _ {A B : Type 0} where
  Aligned-extend_last :
      (xss : List (List A)) (yss : List (List B)) (us : List A) (vs : List B)
      → Aligned xss yss
      → length us ≡ length vs
      → Aligned (extend_last xss us) (extend_last yss vs)
  unfolding extend_last
  Aligned-extend_last [] [] us vs h e = tt
  Aligned-extend_last [] (ys ∷ yss) us vs h e = absurd h
  Aligned-extend_last (xs ∷ xss) [] us vs h e = absurd h
  Aligned-extend_last (xs ∷ []) (ys ∷ []) us vs h e =
      (omega (arith, h.0, length-append xs us, length-append ys vs), tt)
  Aligned-extend_last (xs ∷ []) (ys ∷ zs ∷ yss) us vs h e = absurd h.1
  Aligned-extend_last (xs ∷ zs ∷ xss) (ys ∷ []) us vs h e = absurd h.1
  Aligned-extend_last (xs ∷ zs ∷ xss) (ys ∷ ws ∷ yss) us vs h e =
      (h.0, Aligned-extend_last (zs ∷ xss) (ws ∷ yss) us vs h.1 e)

  Aligned-next :
      (xss : List (List A)) (yss : List (List B))
      → Aligned xss yss
      → Aligned (xss ++ [] ∷ []) (yss ++ [] ∷ [])
  Aligned-next [] [] h = (refl, tt)
  Aligned-next [] (ys ∷ yss) h = absurd h
  Aligned-next (xs ∷ xss) [] h = absurd h
  Aligned-next (xs ∷ xss) (ys ∷ yss) h = (h.0, Aligned-next xss yss h.1)

  Aligned-last :
      (xss : List (List A)) (yss : List (List B))
      → Aligned xss yss
      → length (last xss) ≡ length (last yss)
  unfolding last
  Aligned-last [] [] h = refl
  Aligned-last [] (ys ∷ yss) h = absurd h
  Aligned-last (xs ∷ xss) [] h = absurd h
  Aligned-last (xs ∷ []) (ys ∷ []) h = h.0
  Aligned-last (xs ∷ []) (ys ∷ zs ∷ yss) h = absurd h.1
  Aligned-last (xs ∷ zs ∷ xss) (ys ∷ []) h = absurd h.1
  Aligned-last (xs ∷ zs ∷ xss) (ys ∷ ws ∷ yss) h = Aligned-last (zs ∷ xss) (ws ∷ yss) h.1

abbrev pub HasLast {ℓ} : {A : Type ℓ} → List (List A) → Type 0
HasLast [] = ⊥
HasLast (xs ∷ xss) = Unit

Aligned-HasLast :
    {A B : Type 0} (xss : List (List A)) (yss : List (List B))
    → Aligned xss yss
    → HasLast xss
    → HasLast yss
Aligned-HasLast [] yss h l = absurd l
Aligned-HasLast (xs ∷ xss) [] h l = h
Aligned-HasLast (xs ∷ xss) (ys ∷ yss) h l = tt

module _ {A : Type 0} where
  flatten-extend_last :
      (xss : List (List A)) (us : List A)
      → HasLast xss
      → List.flatten (extend_last xss us) ≡ List.flatten xss ++ us
  unfolding extend_last List.flatten
  flatten-extend_last [] us h = absurd h
  flatten-extend_last (xs ∷ []) us h =
      append_assoc xs us []
      ∙ ap (λ u. xs ++ u) (append-nil us)
      ∙ ap (λ u. u ++ us) (sym (append-nil xs))
  flatten-extend_last (xs ∷ zs ∷ xss) us h =
      ap (λ u. xs ++ u) (flatten-extend_last (zs ∷ xss) us h)
      ∙ sym (append_assoc xs (List.flatten (zs ∷ xss)) us)

  last-extend_last :
      (xss : List (List A)) (us : List A) → HasLast xss → last (extend_last xss us) ≡ last xss ++ us
  unfolding extend_last last
  last-extend_last [] us h = absurd h
  last-extend_last (xs ∷ []) us h = refl
  last-extend_last (xs ∷ zs ∷ []) us h = refl
  last-extend_last (xs ∷ zs ∷ ws ∷ xss) us h = last-extend_last (zs ∷ ws ∷ xss) us h

  HasLast-extend_last :
      (xss : List (List A)) (us : List A) → HasLast xss → HasLast (extend_last xss us)
  unfolding extend_last
  HasLast-extend_last [] us h = h
  HasLast-extend_last (xs ∷ []) us h = tt
  HasLast-extend_last (xs ∷ zs ∷ xss) us h = tt

  HasLast-next : (xss : List (List A)) → HasLast (xss ++ [] ∷ [])
  HasLast-next [] = tt
  HasLast-next (xs ∷ xss) = tt

  last-next : (xss : List (List A)) → last (xss ++ [] ∷ []) ≡ []
  unfolding last
  last-next [] = refl
  last-next (xs ∷ []) = refl
  last-next (xs ∷ zs ∷ xss) = last-next (zs ∷ xss)

  flatten-next : (xss : List (List A)) → List.flatten (xss ++ [] ∷ []) ≡ List.flatten xss
  unfolding List.flatten
  flatten-next [] = refl
  flatten-next (xs ∷ xss) = ap (λ u. xs ++ u) (flatten-next xss)

pub length-given : (fl : Float) (action : List ℕ) → length (given fl action none) ≡ length action
unfolding given
length-given fl action = length-replicate (length action) fl.zero_point

module _ (fl : Float) {Out : Type 0} where
  open fl use {Real, zero_point, add}

  -- A trajectory whose four sequences have, context by context, the same lengths.
  pub record IsValid (t : Trajectory Real Out) : Type 0 where
    pub begun : HasLast t.tokens
    pub with_source : Aligned t.tokens t.source
    pub with_log_probs : Aligned t.tokens t.log_probs
    pub with_rewards : Aligned t.tokens t.rewards

  pub init-IsValid : IsValid (trajectory_init fl)
  unfolding trajectory_init
  init-IsValid = record {
    begun = tt;
    with_source = (refl, tt);
    with_log_probs = (refl, tt);
    with_rewards = (refl, tt);
  }

  abbrev grown : Trajectory Real Out → List ℕ → List Real → Source → List Real → Trajectory Real Out
  grown t tokens log_probs who rewards = record t {
    tokens = extend_last t.tokens tokens;
    log_probs = extend_last t.log_probs log_probs;
    source = extend_last t.source (replicate (length tokens) who);
    rewards = extend_last t.rewards rewards;
  }

  grown-IsValid :
      (t : Trajectory Real Out) (tokens : List ℕ) (log_probs : List Real) (who : Source)
      (rewards : List Real)
      → IsValid t
      → length log_probs ≡ length tokens
      → length rewards ≡ length tokens
      → IsValid (grown t tokens log_probs who rewards)
  grown-IsValid t tokens log_probs who rewards v p q = record {
    begun = HasLast-extend_last t.tokens tokens v.begun;
    with_source =
        Aligned-extend_last t.tokens t.source tokens (replicate (length tokens) who) v.with_source
          (sym (length-replicate (length tokens) who));
    with_log_probs =
        Aligned-extend_last t.tokens t.log_probs tokens log_probs v.with_log_probs (sym p);
    with_rewards = Aligned-extend_last t.tokens t.rewards tokens rewards v.with_rewards (sym q);
  }

  IsValid-assert : (t : Trajectory Real Out) → IsValid t → assert_valid fl t ≡ true
  unfolding assert_valid
  IsValid-assert t v =
      let a = Aligned-last t.tokens t.source v.with_source in
      let b = Aligned-last t.tokens t.log_probs v.with_log_probs in
      let c = Aligned-last t.tokens t.rewards v.with_rewards in ground arith

  extend-grown :
      (t : Trajectory Real Out) (tokens : List ℕ) (log_probs : List Real) (who : Source)
      (rewards : List Real)
      → IsValid (grown t tokens log_probs who rewards)
      → extend fl t tokens log_probs who rewards ≡ some (grown t tokens log_probs who rewards)
  unfolding extend
  extend-grown t tokens log_probs who rewards v =
      rw (IsValid-assert (grown t tokens log_probs who rewards) v)

  module _ (tr : Transition Real Out) (t : Trajectory Real Out) where
    -- What a switch of context leaves as it is: the sequences of the whole episode.
    record Switched (u : Trajectory Real Out) : Type 0 where
      valid : IsValid t → IsValid u
      tokens : List.flatten u.tokens ≡ List.flatten t.tokens
      rewards : List.flatten u.rewards ≡ List.flatten t.rewards
      source : List.flatten u.source ≡ List.flatten t.source
      transitions : u.transitions ≡ t.transitions
      last_context : last u.tokens ≡ (if tr.context_switch then [] else last t.tokens)

    maybe_context_switch-Switched : Switched (maybe_context_switch fl tr t)
    unfolding maybe_context_switch
    maybe_context_switch-Switched = elim (Bool-cases tr.context_switch) [
      | inl e ↦ rw e (record {
        valid = λ v. record {
          begun = HasLast-next t.tokens;
          with_source = Aligned-next t.tokens t.source v.with_source;
          with_log_probs = Aligned-next t.tokens t.log_probs v.with_log_probs;
          with_rewards = Aligned-next t.tokens t.rewards v.with_rewards;
        };
        tokens = flatten-next t.tokens;
        rewards = flatten-next t.rewards;
        source = flatten-next t.source;
        transitions = refl;
        last_context = last-next t.tokens;
      })
      | inr e ↦ rw e (record {
        valid = λ v. v;
        tokens = refl;
        rewards = refl;
        source = refl;
        transitions = refl;
        last_context = refl;
      })
    ]

  -- What `append` does with a transition of rewards `rs`.
  pub record Appended (t : Trajectory Real Out) (tr : Transition Real Out) (rs : List Real)
      (t' : Trajectory Real Out) : Type 0 where
    pub valid : IsValid t'
    pub transitions : t'.transitions ≡ t.transitions ++ tr ∷ []
    pub tokens : List.flatten t'.tokens ≡ (List.flatten t.tokens ++ tr.action) ++ tr.observation
    pub rewards :
        List.flatten t'.rewards
        ≡ (List.flatten t.rewards ++ rs) ++ replicate (length tr.observation) zero_point
    pub source :
        List.flatten t'.source
        ≡ (List.flatten t.source ++ replicate (length tr.action) agent)
          ++ replicate (length tr.observation) env
    pub seen :
        context fl t'
        ≡ (if tr.context_switch then [] else context fl t ++ tr.action) ++ tr.observation
    pub ended : t'.terminated ≡ tr.terminal

  -- A trajectory that has not ended takes every transition that has a reward for each action, with
  -- a log probability for each action or none given. No assertion fails, and the four sequences
  -- stay aligned. The episode grows by the actions, the agent's, and then by the observation, the
  -- environment's, which carries no reward. The policy then sees the observation alone after a
  -- switch of context, and all of its context before it otherwise.
  pub append_lem :
      (t : Trajectory Real Out) (tr : Transition Real Out) (log_probs : Option (List Real))
      (rs : List Real)
      → IsValid t
      → t.terminated ≡ false
      → tr.rewards ≡ some rs
      → length rs ≡ length tr.action
      → length (given fl tr.action log_probs) ≡ length tr.action
      → (t' : Trajectory Real Out) × (append fl t tr log_probs ≡ some t') × Appended t tr rs t'
  unfolding append append_with observe finish
  append_lem t tr log_probs rs v live e p q =
      let t0 = record t { transitions = t.transitions ++ tr ∷ [] } in
      let v0 : IsValid t0 = record {
        begun = v.begun;
        with_source = v.with_source;
        with_log_probs = v.with_log_probs;
        with_rewards = v.with_rewards;
      } in
      let v1 = grown-IsValid t0 tr.action (given fl tr.action log_probs) agent rs v0 q p in
      let t1 = grown t0 tr.action (given fl tr.action log_probs) agent rs in
      let s = maybe_context_switch-Switched tr t1 in
      let u = maybe_context_switch fl tr t1 in
      let zeros = replicate (length tr.observation) zero_point in
      let z = length-replicate (length tr.observation) zero_point in
      let v2 = s.valid v1 in
      let v3 = grown-IsValid u tr.observation zeros env zeros v2 z z in
      let t3 = grown u tr.observation zeros env zeros in
      (
        record t3 { terminated = tr.terminal },
        ap (λ b. if b then none else append_with fl t tr log_probs tr.rewards) live
            ∙ ap (λ o. append_with fl t tr log_probs o) e
            ∙ ap (λ o. finish fl tr (observe fl tr o))
                (extend-grown t0 tr.action (given fl tr.action log_probs) agent rs v1)
            ∙ ap (λ o. finish fl tr o) (extend-grown u tr.observation zeros env zeros v3),
        record {
          valid = record {
            begun = v3.begun;
            with_source = v3.with_source;
            with_log_probs = v3.with_log_probs;
            with_rewards = v3.with_rewards;
          };
          transitions = s.transitions;
          tokens =
              flatten-extend_last u.tokens tr.observation v2.begun
              ∙ ap (λ x. x ++ tr.observation)
                  (s.tokens ∙ flatten-extend_last t.tokens tr.action v.begun);
          rewards =
              flatten-extend_last u.rewards zeros
                (Aligned-HasLast u.tokens u.rewards v2.with_rewards v2.begun)
              ∙ ap (λ x. x ++ zeros)
                  (s.rewards
                    ∙ flatten-extend_last t.rewards rs
                        (Aligned-HasLast t.tokens t.rewards v.with_rewards v.begun));
          source =
              flatten-extend_last u.source (replicate (length tr.observation) env)
                (Aligned-HasLast u.tokens u.source v2.with_source v2.begun)
              ∙ ap (λ x. x ++ replicate (length tr.observation) env)
                  (s.source
                    ∙ flatten-extend_last t.source (replicate (length tr.action) agent)
                        (Aligned-HasLast t.tokens t.source v.with_source v.begun));
          seen =
              last-extend_last u.tokens tr.observation v2.begun
              ∙ ap (λ x. x ++ tr.observation)
                  (s.last_context
                    ∙ ap (λ x. if tr.context_switch then [] else x)
                        (last-extend_last t.tokens tr.action v.begun));
          ended = refl;
        },
      )
