-- ===== src/Data/Mix.antt =====
-- cwm/data/ops/mix.py: Mix draws from a list of datasets; its policy says which one is next, and
-- whether a dataset that has stopped starts again.
pub mod Resume
use cwm.Prelude.{
  ℕ, zero, suc, Bool, List, [], ◌∷◌, map, Option, none, some, if◌then◌else◌, length, get_elem?, set,
}
use cwm.Data.{Outcome, item, stop, fault, spin, Dataset}

-- The MixPolicy protocol over a policy object `P` whose saved state is a `C`; `none` stands for an
-- AssertionError. `initialize` reads only the number of datasets.
pub record MixPolicy (P C : Type 0) : Type 0 where
  pub initialize : ℕ → P → P
  pub policy_reset : P → P
  pub select_dataset : P → Option (Option ℕ × P)
  pub exhaust : ℕ → P → Option (Bool × P)
  pub policy_state_dict : P → C
  pub policy_load_state_dict : C → P → P

pub record Mix (S P : Type 0) : Type 0 where
  pub datasets : List S
  pub policy : P

module _ {S D A : Type 0} (ds : Dataset S D A) where
  -- `zip(…, strict=True)` raises where the lengths differ.
  load_datasets : List S → List D → Option (List S)
  load_datasets [] [] = some []
  load_datasets [] (d ∷ saved) = none
  load_datasets (s ∷ datasets) [] = none
  load_datasets (s ∷ datasets) (d ∷ saved) = elim (ds.load_state_dict d s) [
    | none ↦ none
    | some s' ↦ elim (load_datasets datasets saved) [ none ↦ none | some rest ↦ some (s' ∷ rest) ]
  ]

module _ {S D A P C : Type 0} (ds : Dataset S D A) (pol : MixPolicy P C) where
  unfoldable pub mix_init : List S → P → Mix S P
  mix_init datasets policy = record {
    datasets = datasets;
    policy = pol.initialize (length datasets) policy;
  }

  -- `except StopIteration`: the policy is told, and the dataset may start again.
  mix_exhausted :
      (Mix S P → Outcome A × Mix S P) → Mix S P → ℕ → S → Option (Bool × P) → Outcome A × Mix S P
  mix_exhausted again m idx s none = (fault, record m { datasets = set m.datasets idx s })
  mix_exhausted again m idx s (some (restart, p)) =
      again
        (record { datasets = set m.datasets idx (if restart then ds.reset s else s); policy = p })

  -- `next(self.datasets[idx])`, and what follows in the round.
  mix_drawn : (Mix S P → Outcome A × Mix S P) → Mix S P → ℕ → Outcome A × S → Outcome A × Mix S P
  mix_drawn again m idx (stop, s) = mix_exhausted again m idx s (pol.exhaust idx m.policy)
  mix_drawn again m idx (item a, s) = (item a, record m { datasets = set m.datasets idx s })
  mix_drawn again m idx (fault, s) = (fault, record m { datasets = set m.datasets idx s })
  mix_drawn again m idx (spin, s) = (spin, record m { datasets = set m.datasets idx s })

  -- `self.datasets[idx]` raises where there is no such dataset.
  mix_at : (Mix S P → Outcome A × Mix S P) → Mix S P → ℕ → Option S → Outcome A × Mix S P
  mix_at again m idx none = (fault, m)
  mix_at again m idx (some s) = mix_drawn again m idx (ds.next s)

  mix_round :
      (Mix S P → Outcome A × Mix S P) → Mix S P → Option (Option ℕ × P) → Outcome A × Mix S P
  mix_round again m none = (fault, m)
  mix_round again m (some (none, p)) = (stop, record m { policy = p })
  mix_round again m (some (some idx, p)) =
      mix_at again (record m { policy = p }) idx (get_elem? m.datasets idx)

  unfoldable pub mix_next : ℕ → Mix S P → Outcome A × Mix S P
  unfolding mix_round mix_at mix_drawn mix_exhausted
  mix_next zero m = (spin, m)
  mix_next (suc fuel) m = mix_round (mix_next fuel) m (pol.select_dataset m.policy)

  mix_load : List D × C → Mix S P → Option (Mix S P)
  mix_load saved m = elim (load_datasets ds m.datasets saved.0) [
    | none ↦ none
    | some datasets ↦
        some (record { datasets = datasets; policy = pol.policy_load_state_dict saved.1 m.policy })
  ]

module _ (fuel : ℕ) {S D A P C : Type 0} (ds : Dataset S D A) (pol : MixPolicy P C) where
  unfoldable pub mix : Dataset (Mix S P) (List D × C) A
  unfolding mix_next mix_load load_datasets
  mix = record {
    next = mix_next ds pol fuel;
    reset = λ m. record { datasets = map ds.reset m.datasets; policy = pol.policy_reset m.policy };
    state_dict = λ m. (map ds.state_dict m.datasets, pol.policy_state_dict m.policy);
    load_state_dict = mix_load ds pol;
  }
