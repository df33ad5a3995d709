-- ===== src/Rl/Outcomes/Passes.antt =====
-- pass@k is the part of the sets of k samples that have a correct one.
use native.Mathlib.Nat.{mul_assoc, mul_left_comm, mul-pos, mul-le-mul, mul_comm, mul-sub}
use mathlib.Core.Path.{subst}
use cwm.Prelude.{
  ℕ, zero, suc, ◌+◌, ◌-◌, ◌*◌, ◌<◌, ◌≤◌, ◌≡◌, ap, sym, ◌∙◌, inl, inr, true, ltb, Bool-cases, arith,
}
use cwm.Rl.Outcomes.{comb, misses, tries, pass_at_k}
use cwm.Rl.Outcomes.Binomial.{comb_above, comb_absorb}

shift : (a p x q y t z : ℕ) → p * x ≡ q * y → a * y ≡ t * z → a * p * x ≡ t * q * z
shift a p x q y t z b i =
    mul_assoc a p x
    ∙ ap (λ r. a * r) b
    ∙ mul_left_comm a q y
    ∙ ap (λ r. q * r) i
    ∙ mul_left_comm q t z
    ∙ sym (mul_assoc t q z)

-- The two products compare as the sets of k among m and among m + c samples.
misses-tries : (k m c : ℕ) → k ≤ m → misses k m c * comb (m + c) k ≡ tries m c * comb m k
unfolding misses tries
misses-tries k m zero h = grind arith
misses-tries k m (suc c) h =
    let i = misses-tries k m c h in
    let e : suc (m + c) ≡ m + suc c = omega arith in
    let b =
      subst (λ t. (t - k) * comb t k ≡ t * comb (m + c) k) e
        (comb_absorb (m + c) k (omega arith)) in
    shift (misses k m c) (m + suc c - k) (comb (m + suc c) k) (m + suc c) (comb (m + c) k)
      (tries m c) (comb m k) b i

tries_positive : (m c : ℕ) → 0 < tries m c
unfolding tries
tries_positive m zero = omega arith
tries_positive m (suc c) = mul-pos (tries_positive m c) (omega arith)

misses_le-tries : (k m c : ℕ) → misses k m c ≤ tries m c
unfolding misses tries
misses_le-tries k m zero = omega arith
misses_le-tries k m (suc c) = mul-le-mul (misses_le-tries k m c) (omega arith)

complement : (t m c z : ℕ) → m * c ≡ t * z → (t - m) * c ≡ t * (c - z)
complement t m c z h =
    let e : c * t - c * m ≡ t * c - t * z = omega (arith, mul_comm c t, mul_comm c m, h) in
    mul_comm (t - m) c ∙ mul-sub c t m ∙ e ∙ sym (mul-sub t c z)

missed :
    (n c k : ℕ)
    → c ≤ n
    → k ≤ n - c
    → misses k (n - c) c * comb n k ≡ tries (n - c) c * comb (n - c) k
missed n c k h l =
    let e : (n - c) + c ≡ n = omega arith in
    subst (λ t. misses k (n - c) c * comb t k ≡ tries (n - c) c * comb (n - c) k) e
      (misses-tries k (n - c) c l)

-- For c correct samples among n and k at most n, the value is exact as 1 - C(n - c, k) / C(n, k):
-- of the sets of k samples, the part that has a correct one. The denominator is not 0.
pub pass_at_k_lem :
    (n c k : ℕ)
    → c ≤ n
    → k ≤ n
    → (0 < (pass_at_k n c k).den)
      × ((pass_at_k n c k).num * comb n k ≡ (pass_at_k n c k).den * (comb n k - comb (n - c) k))
unfolding pass_at_k
pass_at_k_lem n c k h l = elim (Bool-cases (ltb (n - c) k)) [
  | inl y ↦
      let a : ltb 0 c ≡ true = ground (arith, y) in
      let z = comb_above (n - c) k (ground (arith, y)) in rw (y, a) (omega arith, omega (arith, z))
  | inr m ↦ rw m (
    tries_positive (n - c) c,
    complement (tries (n - c) c) (misses k (n - c) c) (comb n k) (comb (n - c) k)
        (missed n c k h (ground (arith, m))),
  )
]
