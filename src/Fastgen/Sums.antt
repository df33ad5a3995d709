-- ===== src/Fastgen/Sums.antt =====
-- Sums over the lanes: Σ w i for i < n.
use native.Mathlib.Decide.{ℕ_discrete}
use cwm.Prelude.{ℕ, zero, suc, ◌+◌, ◌≤◌, ◌<◌, ◌≡◌, refl, arith}
use cwm.Fastgen.State.{update}

unfoldable pub sum_to : ℕ → (ℕ → ℕ) → ℕ
sum_to zero w = 0
sum_to (suc n) w = sum_to n w + w n

-- Only the weights below `n` count.
pub sum_to-same : (n : ℕ) (v w : ℕ → ℕ) → ((i : ℕ) → i < n → v i ≡ w i) → sum_to n v ≡ sum_to n w
unfolding sum_to
sum_to-same zero v w h = refl
sum_to-same (suc n) v w h =
    omega (arith, sum_to-same n v w (λ i p. h i (omega arith)), h n (omega arith))

-- A write above the range.
above : (i n x : ℕ) (w : ℕ → ℕ) (j : ℕ) → j < n → i ≡ n → update w i x j ≡ w j
above i n x w j q p = ground arith

-- One changed weight changes the sum by the difference.
pub sum_to-update : (n i x : ℕ) (w : ℕ → ℕ) → i < n → sum_to n (update w i x) + w i ≡ sum_to n w + x
unfolding sum_to
sum_to-update zero i x w h = elim h [ ]
sum_to-update (suc n) i x w h = elim (ℕ_discrete i n) [
  | yes p ↦
      ground (arith, sum_to-same n (update w i x) w (λ (j : ℕ) (q : j < n). above i n x w j q p))
  | no p ↦ ground (arith, sum_to-update n i x w (omega arith))
]

pub le-sum_to : (n i : ℕ) (w : ℕ → ℕ) → i < n → w i ≤ sum_to n w
unfolding sum_to
le-sum_to zero i w h = elim h [ ]
le-sum_to (suc n) i w h = elim (ℕ_discrete i n) [
  | yes p ↦ rw p (omega arith)
  | no p ↦ omega (arith, le-sum_to n i w (omega arith))
]
