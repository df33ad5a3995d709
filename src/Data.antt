-- ===== src/Data.antt =====
-- cwm/data/dataset.py: what every dataset of the training pipeline offers. An object is a state
-- `S`, and `Dataset S D A` holds its methods; `D` is what `state_dict` returns.
pub mod Sources
pub mod FilterMap
pub mod Mix
pub mod Chain
pub mod TextLines
mod Tests
use cwm.Prelude.{◌≡◌, List, [], ◌∷◌, Option}

-- How a call of `__next__` ends: with an item, with StopIteration, or with another exception.
-- `spin` says that the rounds allowed to a `while True` ran out.
pub data Outcome {ℓ} (A : Type ℓ) : Type ℓ where
  item : A → Outcome A
  stop fault spin : Outcome A

-- `load_state_dict` is `none` where it raises.
pub record Dataset (S D A : Type 0) : Type 0 where
  pub next : S → Outcome A × S
  pub reset : S → S
  pub state_dict : S → D
  pub load_state_dict : D → S → Option S

module _ {S D A : Type 0} (ds : Dataset S D A) where
  -- Iteration from `s` gives these items and then stops, and a stopped object stays stopped.
  pub data Stopped : S → Type 0 where
    at : (s s' : S) → ds.next s ≡ (stop, s') → ds.next s' ≡ (stop, s') → Stopped s

  pub data Yields : S → List A → Type 0 where
    done : (s : S) → Stopped s → Yields s []
    more :
        (s s' : S) (a : A) (r : List A) → ds.next s ≡ (item a, s') → Yields s' r → Yields s (a ∷ r)

  -- What a checkpoint needs: `Like s t` says that two objects were built with the same arguments,
  -- and a state that was saved is restored in any such object.
  pub record Resumes (Like : S → S → Type 0) : Type 0 where
    pub like_refl : (s : S) → Like s s
    pub like_trans : {s t u : S} → Like s t → Like t u → Like s u
    pub like_next : (s : S) → Like (ds.next s).1 s
    pub like_reset : (s : S) → Like (ds.reset s) s
    pub load_saved : (s t : S) → Like s t → ds.load_state_dict (ds.state_dict s) t ≡ Option.some s
