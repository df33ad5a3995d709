-- ===== src/Fastgen/Prepare/Order.antt =====
-- The order in which `_prepare_lanes` visits the lanes, and what its `decr` list is good for.
use native.Mathlib.Decide.{ℕ_discrete}
use cwm.Prelude.{
  ℕ, zero, suc, ◌+◌, ◌-◌, ◌≤◌, ◌<◌, ◌≡◌, ◌≢◌, refl, List, [], ◌∷◌, arith, ◌==◌, ltb, if◌then◌else◌,
  length, get_or,
}
use cwm.Fastgen.BlockSet.{one, count}
use cwm.Fastgen.Prepare.{insert_lane, longest_first, fixup}

count-insert_lane :
    (size : ℕ → ℕ) (x i : ℕ) (l : List ℕ)
    → count x (insert_lane size i l) ≡ one (i == x) + count x l
unfolding insert_lane count
count-insert_lane size x i [] = refl
count-insert_lane size x i (j ∷ js) = ground (arith, count-insert_lane size x i js)

length-insert_lane :
    (size : ℕ → ℕ) (i : ℕ) (l : List ℕ) → length (insert_lane size i l) ≡ length l + 1
unfolding insert_lane
length-insert_lane size i [] = refl
length-insert_lane size i (j ∷ js) = ground (arith, length-insert_lane size i js)

module _ (size : ℕ → ℕ) where
  count-longest_first : (n x : ℕ) → count x (longest_first n size) ≡ one (ltb x n)
  unfolding longest_first count
  count-longest_first zero x = ground arith
  count-longest_first (suc n) x =
      ground (arith, count-insert_lane size x n (longest_first n size), count-longest_first n x)

  length-longest_first : (n : ℕ) → length (longest_first n size) ≡ n
  unfolding longest_first
  length-longest_first zero = refl
  length-longest_first (suc n) =
      omega (arith, length-insert_lane size n (longest_first n size), length-longest_first n)

pub count-get_or : (l : List ℕ) (k : ℕ) → k < length l → 0 < count (get_or l k 0) l
unfolding count
count-get_or [] k h = elim h [ ]
count-get_or (x ∷ l) zero h = ground arith
count-get_or (x ∷ l) (suc k) h = ground (arith, count-get_or l k)

-- Two positions with one entry: the entry counts twice.
count-twice :
    (l : List ℕ) (k m : ℕ)
    → k < m
    → m < length l
    → get_or l k 0 ≡ get_or l m 0
    → 1 < count (get_or l m 0) l
unfolding count
count-twice [] k m p h e = elim h [ ]
count-twice (x ∷ l) zero zero p h e = elim p [ ]
count-twice (x ∷ l) zero (suc m) p h e = ground (arith, count-get_or l m)
count-twice (x ∷ l) (suc k) zero p h e = elim p [ ]
count-twice (x ∷ l) (suc k) (suc m) p h e = ground (arith, count-twice l k m)

position-count :
    (l : List ℕ) (x : ℕ) → 0 < count x l → (k : ℕ) × (k < length l) × (get_or l k 0 ≡ x)
unfolding count
position-count [] x h = elim h [ ]
position-count (y ∷ l) x h = elim (ℕ_discrete y x) [
  | yes e ↦ (0, omega arith, e)
  | no e ↦ let (k, p, q) = position-count l x (ground arith) in (suc k, omega arith, q)
]

-- The entries from `idx` on, below `n`, are different lanes below `n`.
pub record IsOrder (decr : ℕ → ℕ) (idx n : ℕ) : Type 0 where
  pub below : (k : ℕ) → idx ≤ k → k < n → decr k < n
  pub inj : (k m : ℕ) → idx ≤ k → k < m → m < n → decr k ≢ decr m

pub longest_first-IsOrder :
    (n : ℕ) (size : ℕ → ℕ) → IsOrder (λ k. get_or (longest_first n size) k 0) 0 n
longest_first-IsOrder n size = record {
  below = λ k _ h. ground (
    arith,
    count-get_or (longest_first n size) k,
    length-longest_first size n,
    count-longest_first size n (get_or (longest_first n size) k 0),
  );
  inj = λ k m _ p h e. ground (
    arith,
    count-twice (longest_first n size) k m,
    length-longest_first size n,
    count-longest_first size n (get_or (longest_first n size) m 0),
  );
}

pub IsOrder-suc : {decr : ℕ → ℕ} {idx n : ℕ} → IsOrder decr idx n → IsOrder decr (idx + 1) n
IsOrder-suc o = record {
  below = λ k p. o.below k (omega arith);
  inj = λ k m p. o.inj k m (omega arith);
}

-- Every lane is somewhere in the order.
pub longest_first-covers :
    (n : ℕ) (size : ℕ → ℕ) (j : ℕ)
    → j < n
    → (k : ℕ) × (k < n) × (get_or (longest_first n size) k 0 ≡ j)
longest_first-covers n size j h =
    let (k, p, e) =
      position-count (longest_first n size) j (ground (arith, count-longest_first size n j)) in
    (k, omega (arith, length-longest_first size n), e)

-- Outside the positions that are looked at, nothing changes.
fixup-above : (k nxt : ℕ) (decr : ℕ → ℕ) (last j : ℕ) → j < nxt → fixup k nxt decr last j ≡ decr j
unfolding fixup
fixup-above zero nxt decr last j h = refl
fixup-above (suc k) nxt decr last j h = ground (arith, fixup-above k (nxt + 1) decr last j)

-- In an order the loop replaces the one entry `last`, wherever it stands.
pub fixup_lem :
    (k nxt : ℕ) (decr : ℕ → ℕ) (last j : ℕ)
    → nxt + k ≡ last
    → IsOrder decr nxt (suc last)
    → nxt ≤ j
    → j < last
    → fixup k nxt decr last j ≡ (if decr j == last then decr last else decr j)
unfolding fixup
fixup_lem zero nxt decr last j e o p q = absurd (omega arith)
fixup_lem (suc k) nxt decr last j e o p q = elim (ℕ_discrete nxt j) [
  | yes same ↦ ground (arith, fixup-above k (nxt + 1) decr last nxt)
  | no other ↦ ground (
    arith,
    o.inj nxt j,
    fixup_lem k (nxt + 1) decr last j (omega arith) (IsOrder-suc o) (omega arith) q,
  )
]

-- What is left of an order when its last lane is killed and the lane `last` has moved there.
pub fixup-IsOrder :
    (decr : ℕ → ℕ) (idx last : ℕ)
    → idx ≤ last
    → IsOrder decr idx (suc last)
    → IsOrder (fixup (last - idx) idx decr last) idx last
fixup-IsOrder decr idx last h o =
    let at = λ (k : ℕ) (p : idx ≤ k) (q : k < last).
      fixup_lem (last - idx) idx decr last k (omega arith) o p q in
    record {
      below = λ k p q. ground (arith, at k p q, o.below k p, o.inj k last p q, o.below last);
      inj = λ k m p q r e. ground (
        arith,
        at k p (omega arith),
        at m (omega arith) r,
        o.inj k m p q,
        o.inj k last p,
        o.inj m last,
      );
    }
