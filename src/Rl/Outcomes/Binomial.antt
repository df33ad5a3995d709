-- ===== src/Rl/Outcomes/Binomial.antt =====
-- Binomial coefficients.
use cwm.Prelude.{ℕ, zero, suc, ◌+◌, ◌-◌, ◌*◌, ◌<◌, ◌≤◌, ◌≡◌, refl, ap, ◌∙◌, arith}
use cwm.Rl.Outcomes.{comb}

pub comb_above : (n k : ℕ) → n < k → comb n k ≡ 0
unfolding comb
comb_above n zero h = absurd (omega arith)
comb_above zero (suc k) h = refl
comb_above (suc n) (suc k) h =
    let p = comb_above n k (omega arith) in
    let q = comb_above n (suc k) (omega arith) in omega (arith, p, q)

comb_diagonal : (n k : ℕ) → n ≡ k → comb n k ≡ 1
unfolding comb
comb_diagonal n zero h = refl
comb_diagonal zero (suc k) h = absurd (omega arith)
comb_diagonal (suc n) (suc k) h =
    let p = comb_diagonal n k (omega arith) in
    let q = comb_above n (suc k) (omega arith) in omega (arith, p, q)

pub comb_pascal : (n k : ℕ) → comb (suc n) (suc k) ≡ comb n k + comb n (suc k)
unfolding comb
comb_pascal n k = refl

pub comb_zero : (n : ℕ) → comb n 0 ≡ 1
unfolding comb
comb_zero zero = refl
comb_zero (suc n) = refl

-- The step of `absorb_at`.
combine :
    (j n x y u v z : ℕ)
    → (suc j + 1) * y ≡ suc n * u
    → (j + 1) * x ≡ suc n * v
    → x ≡ u + v
    → z ≡ y + x
    → (suc j + 1) * z ≡ suc (suc n) * x
combine j n x y u v z a b s r =
    let f : (suc j + 1) * (y + x) ≡ (suc j + 1) * y + ((j + 1) * x + x) = grind arith in
    let g : suc (suc n) * x ≡ suc n * x + x = grind arith in
    let d : suc n * (u + v) ≡ suc n * u + suc n * v = grind arith in
    let q = ap (λ t. suc n * t) s in
    let w = ap (λ t. (suc j + 1) * t) r in omega (arith, f, g, d, q, w, a, b)

-- `j` is how far k is below n.
absorb_at : (n k j : ℕ) → n ≡ k + j → (j + 1) * comb (suc n) k ≡ suc n * comb n k
absorb_at n zero j h = let p = comb_zero n in let q = comb_zero (suc n) in rw (p, q) (grind arith)
absorb_at zero (suc k) j h = absurd (omega arith)
absorb_at (suc n) (suc k) zero h =
    let p = comb_diagonal (suc n) (suc k) (omega arith) in
    let d = comb_diagonal n k (omega arith) in
    let a = absorb_at n k 0 (omega arith) ∙ ap (λ x. suc n * x) d in
    rw (comb_pascal (suc n) k, p) (grind (arith, a))
absorb_at (suc n) (suc k) (suc j) h =
    let a = absorb_at n k (suc j) (omega arith) in
    let b = absorb_at n (suc k) j (omega arith) in
    combine j n (comb (suc n) (suc k)) (comb (suc n) k) (comb n k) (comb n (suc k))
      (comb (suc (suc n)) (suc k)) a b (comb_pascal n k) (comb_pascal (suc n) k)

-- C(n + 1, k) (n + 1 - k) = C(n, k) (n + 1).
pub comb_absorb : (n k : ℕ) → k ≤ n → (suc n - k) * comb (suc n) k ≡ suc n * comb n k
comb_absorb n k h =
    let e : suc n - k ≡ (n - k) + 1 = omega arith in
    ap (λ x. x * comb (suc n) k) e ∙ absorb_at n k (n - k) (omega arith)

pub comb_positive : (n k : ℕ) → k ≤ n → 0 < comb n k
comb_positive n zero h = let p = comb_zero n in omega (arith, p)
comb_positive zero (suc k) h = absurd (omega arith)
comb_positive (suc n) (suc k) h =
    let p = comb_positive n k (omega arith) in let q = comb_pascal n k in omega (arith, p, q)
