-- ===== src/Data/Mix/Resume.antt =====
-- `state_dict` and `load_state_dict` of a Mix (cwm/data/ops/mix.py): training resumes in a new
-- pipeline from the state that the old one saved. The datasets of a Mix are distinct objects.
use cwm.Prelude.{
  ℕ, zero, suc, ◌≡◌, refl, sym, Bool, true, false, List, [], ◌∷◌, map, Option, none, some, arith,
  if◌then◌else◌, get_elem?, set,
}
use mathlib.Core.Path.{subst}
use mathlib.Core.Option.{some-injective}
use cwm.Data.{Outcome, item, stop, fault, spin, Dataset, Resumes}
use cwm.Data.Mix.{MixPolicy, Mix, mix, mix_next, mix_load, load_datasets}
use cwm.Data.Mix.{mix_round, mix_at, mix_drawn, mix_exhausted}

module _ {S : Type 0} (Like : S → S → Type 0) where
  abbrev pub AllLike : List S → List S → Type 0
  AllLike [] [] = Unit
  AllLike (s ∷ ss) (t ∷ ts) = Like s t × AllLike ss ts
  AllLike _ _ = ⊥

module _ {S D A : Type 0} (ds : Dataset S D A) (Like : S → S → Type 0) (r : Resumes ds Like) where
  all_refl : (ss : List S) → AllLike Like ss ss
  all_refl [] = tt
  all_refl (s ∷ ss) = (r.like_refl s, all_refl ss)

  all_trans : (ss ts us : List S) → AllLike Like ss ts → AllLike Like ts us → AllLike Like ss us
  all_trans [] [] [] p q = tt
  all_trans (s ∷ ss) (t ∷ ts) (u ∷ us) p q = (r.like_trans p.0 q.0, all_trans ss ts us p.1 q.1)
  all_trans [] [] (u ∷ us) p q = absurd q
  all_trans [] (t ∷ ts) us p q = absurd p
  all_trans (s ∷ ss) [] us p q = absurd p
  all_trans (s ∷ ss) (t ∷ ts) [] p q = absurd q

  all_reset : (ss : List S) → AllLike Like (map ds.reset ss) ss
  all_reset [] = tt
  all_reset (s ∷ ss) = (r.like_reset s, all_reset ss)

  -- A write of an object built like the one that was there.
  all_set :
      (ss : List S) (i : ℕ) (s t : S)
      → get_elem? ss i ≡ some s
      → Like t s
      → AllLike Like (set ss i t) ss
  all_set [] i s t e h = cc
  all_set (u ∷ ss) zero s t e h =
      (subst (λ v. Like t v) (sym (some-injective u s e)) h, all_refl ss)
  all_set (u ∷ ss) (suc i) s t e h = (r.like_refl u, all_set ss i s t e h)

  load_all :
      (ss ts : List S) → AllLike Like ss ts → load_datasets ds ts (map ds.state_dict ss) ≡ some ss
  unfolding load_datasets
  load_all [] [] h = refl
  load_all (s ∷ ss) (t ∷ ts) h = rw (r.load_saved s t h.0, load_all ss ts h.1)
  load_all [] (t ∷ ts) h = absurd h
  load_all (s ∷ ss) [] h = absurd h

module _ {S D A P C : Type 0} (ds : Dataset S D A) (pol : MixPolicy P C) (Like : S → S → Type 0)
    (r : Resumes ds Like) where
  abbrev pub IsLike : Mix S P → Mix S P → Type 0
  IsLike m n = AllLike Like m.datasets n.datasets

  module _ (again : Mix S P → Outcome A × Mix S P) (k : (m : Mix S P) → IsLike (again m).1 m) where
    restarted : (b : Bool) (s t : S) → Like s t → Like (if b then ds.reset s else s) t
    restarted true s t h = r.like_trans (r.like_reset s) h
    restarted false s t h = h

    IsLike-exhausted :
        (m : Mix S P) (i : ℕ) (s t : S) (o : Option (Bool × P))
        → get_elem? m.datasets i ≡ some s
        → Like t s
        → IsLike (mix_exhausted ds pol again m i t o).1 m
    unfolding mix_exhausted
    IsLike-exhausted m i s t none e h = all_set ds Like r m.datasets i s t e h
    IsLike-exhausted m i s t (some (b, p)) e h =
        all_trans ds Like r _ _ _ (k _)
          (all_set ds Like r m.datasets i s (if b then ds.reset t else t) e (restarted b t s h))

    IsLike-drawn :
        (m : Mix S P) (i : ℕ) (s : S) (o : Outcome A × S)
        → get_elem? m.datasets i ≡ some s
        → Like o.1 s
        → IsLike (mix_drawn ds pol again m i o).1 m
    unfolding mix_drawn
    IsLike-drawn m i s (item a, t) e h = all_set ds Like r m.datasets i s t e h
    IsLike-drawn m i s (stop, t) e h = IsLike-exhausted m i s t (pol.exhaust i m.policy) e h
    IsLike-drawn m i s (fault, t) e h = all_set ds Like r m.datasets i s t e h
    IsLike-drawn m i s (spin, t) e h = all_set ds Like r m.datasets i s t e h

    IsLike-at :
        (m : Mix S P) (i : ℕ) (o : Option S)
        → get_elem? m.datasets i ≡ o
        → IsLike (mix_at ds pol again m i o).1 m
    unfolding mix_at
    IsLike-at m i none e = all_refl ds Like r m.datasets
    IsLike-at m i (some s) e = IsLike-drawn m i s (ds.next s) e (r.like_next s)

    IsLike-round :
        (m : Mix S P) (o : Option (Option ℕ × P)) → IsLike (mix_round ds pol again m o).1 m
    unfolding mix_round
    IsLike-round m none = all_refl ds Like r m.datasets
    IsLike-round m (some (none, p)) = all_refl ds Like r m.datasets
    IsLike-round m (some (some i, p)) =
        IsLike-at (record m { policy = p }) i (get_elem? m.datasets i) refl

  IsLike-loop : (f : ℕ) (m : Mix S P) → IsLike (mix_next ds pol f m).1 m
  unfolding mix_next
  IsLike-loop zero m = all_refl ds Like r m.datasets
  IsLike-loop (suc f) m =
      IsLike-round (mix_next ds pol f) (IsLike-loop f) m (pol.select_dataset m.policy)

  -- If each dataset of a Mix can be restored from what it saved, and so can the policy, then so
  -- can the Mix: after any calls of `__next__` and `reset`, loading the saved state into a Mix
  -- that was built with the same arguments gives exactly the Mix that was saved.
  pub mix-Resumes :
      (fuel : ℕ)
      → ((p q : P) → pol.policy_load_state_dict (pol.policy_state_dict p) q ≡ p)
      → Resumes (mix fuel ds pol) IsLike
  unfolding mix mix_load
  mix-Resumes fuel saved = record {
    like_refl = λ m. all_refl ds Like r m.datasets;
    like_trans = λ p q. all_trans ds Like r _ _ _ p q;
    like_next = IsLike-loop fuel;
    like_reset = λ m. all_reset ds Like r m.datasets;
    load_saved = λ m n h.
        ground (arith, load_all ds Like r m.datasets n.datasets h, saved m.policy n.policy);
  }
