-- ===== src/Rl/Outcomes.antt =====
-- cwm/rl/envs/outcomes.py: how the outcomes of several samples become one number. A float is kept
-- as the fraction that it is the value of.
pub mod Binomial
pub mod Passes
pub mod Ranks
pub mod Samples
mod Tests
use Prim.Native.Nat.{max}
use cwm.Prelude.Text.{codes, starts_with}
use cwm.Dialog.Tokenizer.{Text}
use cwm.Prelude.{
  drop, ◌||◌, ℕ, zero, suc, ◌+◌, ◌-◌, ◌*◌, Bool, true, false, List, [], ◌∷◌, Option, none, some,
  ◌==◌, ltb, leb, if◌then◌else◌, length,
}

-- `math.comb(n, k)`.
unfoldable pub comb : ℕ → ℕ → ℕ
comb n zero = 1
comb zero (suc k) = 0
comb (suc n) (suc k) = comb n k + comb n (suc k)

pub record Fraction : Type 0 where
  pub num : ℕ
  pub den : ℕ

-- The product of `1.0 - k / i` as_part the c numbers i behind m: the numerators and the denominators.
unfoldable pub misses : ℕ → ℕ → ℕ → ℕ
misses k m zero = 1
misses k m (suc c) = misses k m c * (m + suc c - k)

unfoldable pub tries : ℕ → ℕ → ℕ
tries m zero = 1
tries m (suc c) = tries m c * (m + suc c)

unfoldable pub pass_at_k : ℕ → ℕ → ℕ → Fraction
pass_at_k n c k =
    if ltb (n - c) k
    then (if ltb 0 c then record { num = 1; den = 1 } else record { num = 0; den = 1 })
    else record { num = tries (n - c) c - misses k (n - c) c; den = tries (n - c) c }

-- The sum of `comb(n - i, k - 1) * scores_sorted[i - 1]` for the rounds i; `none` is an IndexError.
add_to : ℕ → Option ℕ → Option ℕ
add_to a none = none
add_to a (some b) = some (a + b)

unfoldable pub rank_sum : ℕ → ℕ → ℕ → List ℕ → Option ℕ
unfolding add_to
rank_sum n k zero scores = some 0
rank_sum n k (suc rounds) [] = none
rank_sum n k (suc rounds) (s ∷ scores) =
    add_to (comb (n - 1) (k - 1) * s) (rank_sum (n - 1) k rounds scores)

as_part : ℕ → Option ℕ → Option Fraction
as_part d none = none
as_part d (some s) = some (record { num = s; den = d })

-- `rank_score_at_k`; `none` is an exception: a negative argument of comb, a missing score or a
-- division by 0.
unfoldable pub rank_score_at_k : ℕ → ℕ → List ℕ → Option Fraction
unfolding as_part
rank_score_at_k n k scores =
    if k == 0 || ltb n k then none else as_part (comb n k) (rank_sum n k (suc n - k) scores)

-- A specification: the aggregates of each outcome. `parse` is `int`.
abbrev pub Spec : Type 0
Spec = List (Text × List Text)

with_k : Option ℕ → Option (List ℕ) → Option (List ℕ)
with_k (some k) (some ks) = some (k ∷ ks)
with_k _ _ = none

max_of : List ℕ → ℕ
max_of [] = 0
max_of (k ∷ ks) = max k (max_of ks)

samples_for : Option (List ℕ) → Option ℕ
unfolding max_of
samples_for none = none
samples_for (some ks) = some (if ltb 1 (max_of ks) then 2 * max_of ks else 1)

enough : ℕ → Option (List ℕ) → Bool
unfolding max_of
enough n none = false
enough n (some ks) = leb (max_of ks) n

module _ (parse : Text → Option ℕ) where
  ks_of : List Text → Option (List ℕ) → Option (List ℕ)
  unfolding with_k
  ks_of [] ks = ks
  ks_of (agg ∷ aggs) ks =
      let rest = ks_of aggs ks in
      if starts_with (codes "@") agg then with_k (parse (drop 1 agg)) rest else rest

  -- `get_ks`, with repetitions; `none` is the ValueError of a number that is none.
  unfoldable pub get_ks : Spec → Option (List ℕ)
  unfolding ks_of
  get_ks [] = some []
  get_ks ((key, aggs) ∷ spec) = ks_of aggs (get_ks spec)

  unfoldable pub infer_n_samples : Spec → Option ℕ
  unfolding samples_for
  infer_n_samples spec = samples_for (get_ks spec)

  -- Whether `validate_aggregation_spec` returns.
  unfoldable pub validate_aggregation_spec : Spec → ℕ → Bool
  unfolding enough
  validate_aggregation_spec spec n_samples = enough n_samples (get_ks spec)
