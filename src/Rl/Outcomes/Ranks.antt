-- ===== src/Rl/Outcomes/Ranks.antt =====
-- rank-score@k is at most 1.
use cwm.Prelude.{
  ℕ, zero, suc, ◌+◌, ◌-◌, ◌*◌, ◌<◌, ◌≤◌, ◌≡◌, refl, ap, false, List, [], ◌∷◌, some, ltb, ◌==◌,
  length, arith,
}
use native.Mathlib.Nat.{mul-le-mul}
use cwm.Rl.Outcomes.{Fraction, comb, add_to, as_part, rank_sum, rank_score_at_k}
use cwm.Rl.Outcomes.Binomial.{comb_pascal, comb_positive}

-- No score is above 1.
abbrev pub AtMostOne : List ℕ → Type 0
AtMostOne [] = Unit
AtMostOne (s ∷ ss) = (s ≤ 1) × AtMostOne ss

rank_sum-comb :
    (n k rounds : ℕ) (scores : List ℕ)
    → n ≡ rounds + k
    → rounds ≤ length scores
    → AtMostOne scores
    → (s : ℕ) × (rank_sum n (suc k) rounds scores ≡ some s) × (s ≤ comb n (suc k))
unfolding rank_sum add_to
rank_sum-comb n k zero scores e l a = (0, refl, omega arith)
rank_sum-comb zero k (suc rounds) scores e l a = absurd (omega arith)
rank_sum-comb (suc n) k (suc rounds) [] e l a = absurd (omega arith)
rank_sum-comb (suc n) k (suc rounds) (x ∷ scores) e l a =
    let (s, f, b) = rank_sum-comb n k rounds scores (omega arith) (omega arith) a.1 in
    let p = comb_pascal n k in
    let m : comb n k * x ≤ comb n k * 1 = mul-le-mul (omega arith) a.0 in
    let u : suc n - 1 ≡ n = omega arith in
    let v : suc k - 1 ≡ k = omega arith in
    (comb n k * x + s, rw (u, v) (ap (add_to (comb n k * x)) f), omega (arith, m, p, b))

-- For k from 1 to n, scores of 0 or 1 and at least n + 1 - k of them, the value exists and is at
-- most 1.
pub rank_score_at_k_lem :
    (n k : ℕ) (scores : List ℕ)
    → 1 ≤ k
    → k ≤ n
    → suc n - k ≤ length scores
    → AtMostOne scores
    → (f : Fraction) × (rank_score_at_k n k scores ≡ some f) × (0 < f.den) × (f.num ≤ f.den)
unfolding rank_score_at_k as_part
rank_score_at_k_lem n zero scores p h l a = absurd (omega arith)
rank_score_at_k_lem n (suc k) scores p h l a =
    let (s, f, b) = rank_sum-comb n k (suc n - suc k) scores (omega arith) l a in
    let y : (suc k == 0) ≡ false = ground arith in
    let z : ltb n (suc k) ≡ false = ground arith in
    (
      record { num = s; den = comb n (suc k) },
      rw (y, z) (ap (as_part (comb n (suc k))) f),
      comb_positive n (suc k) h,
      b,
    )
