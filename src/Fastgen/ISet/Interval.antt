-- ===== src/Fastgen/ISet/Interval.antt =====
-- What interval of cwm/fastgen/utils/iset.py builds: a tree with the numbers from a up to b.
use cwm.Prelude.{
  ℕ, zero, suc, ◌+◌, ◌-◌, ◌/◌, ◌≤◌, ◌<◌, ◌≡◌, refl, Bool, true, false, ◌&&◌, ◌||◌, arith, leb, ltb,
  Option, inl, inr, ◌⊎◌,
}
use cwm.Fastgen.ISet.{Node, mem, empty, contains_in, mk_chk, and_minus, levels, bit_length}
use cwm.Fastgen.ISet.Bits.{
  mask, field, pow, pow_pos, pow_double, mask-pow, bit_and-mask, field-mask, mask_split, pow_one,
}
use cwm.Fastgen.ISet.Tree.{Gives, gives, mk_chk_lem}
use cwm.Fastgen.ISet.Union.{Gives-same, union_lem}
use cwm.Fastgen.ISet.Sets.{interval_around, interval_block, interval_in, interval}
use cwm.Fastgen.ISet.Align.{two_pow, agree_block, aligned, aligned_half, bit_length_lem, pow_le}

-- The lower k places of a number stand between a and b.
abbrev pub between : ℕ → ℕ → ℕ → ℕ → Bool
between a b k x = leb a (field 0 k x) && ltb (field 0 k x) b

and_minus-mask : (e k : ℕ) → e ≤ k → and_minus (mask 0 k) (pow e) ≡ mask e k
and_minus-mask e k h =
    let p : pow e - 1 ≡ mask 0 e = omega (arith, mask-pow e) in
    rw (p, bit_and-mask 0 e (mask 0 k), field-mask 0 e 0 k (omega arith) h)
      (omega (arith, mask_split 0 e k (omega arith) h))

block_lem :
    (e k aa : ℕ)
    → e ≤ k
    → field e k aa ≡ aa
    → Gives k (mk_chk (and_minus (mask 0 k) (pow e)) aa (mem true)) (between aa (aa + pow e) k)
unfolding contains_in
block_lem e k aa h f =
    rw (and_minus-mask e k h)
      (Gives-same (mk_chk_lem e k aa (mem true) h tt) (λ x. ground (arith, agree_block e k x aa f)))

joins : (a b c k x : ℕ) → a ≤ b → b ≤ c → (between a b k x || between b c k x) ≡ between a c k x
joins a b c k x h e = ground arith

around_lem :
    (rec : ℕ → ℕ → Option Node) (e k a b aa : ℕ)
    → e ≤ k
    → k ≤ levels
    → a ≤ aa
    → aa + pow e ≤ b
    → field e k aa ≡ aa
    → Gives k (rec a aa) (between a aa k)
    → Gives k (rec (aa + pow e) b) (between (aa + pow e) b k)
    → Gives k (interval_around rec a b (mask 0 k) (pow e) aa) (between a b k)
unfolding interval_around
around_lem rec e k a b aa h u f g own r0 r2 =
    let r1 = block_lem e k aa h own in
    let r = union_lem k r0.tree r1.tree u r0.well r1.well in
    let s = union_lem k r.tree r2.tree u r.well r2.well in
    rw (r0.made, r1.made, r2.made, r.made)
      (Gives-same s (λ x. ground (
        arith,
        r.member x,
        r0.member x,
        r1.member x,
        r2.member x,
        joins a aa (aa + pow e) k x f (omega arith),
        joins a (aa + pow e) b k x (omega arith) g,
      )))

le_or_lt : (i j : ℕ) → (i ≤ j) ⊎ (j < i)
le_or_lt i j = ground arith

whole_run :
    (rec : ℕ → ℕ → Option Node) (a b m p : ℕ)
    → and_minus (a + p - 1) p + p ≤ b
    → interval_block rec a b m p ≡ interval_around rec a b m p (and_minus (a + p - 1) p)
unfolding interval_block
whole_run rec a b m p h = ground arith

halved_run :
    (rec : ℕ → ℕ → Option Node) (a b m e : ℕ)
    → b < and_minus (a + pow (suc e) - 1) (pow (suc e)) + pow (suc e)
    → and_minus (a + pow e - 1) (pow e) + pow e ≤ b
    → interval_block rec a b m (pow (suc e))
      ≡ interval_around rec a b m (pow e) (and_minus (a + pow e - 1) (pow e))
unfolding interval_block
halved_run rec a b m e h h' =
    let half : pow (suc e) / 2 ≡ pow e = omega (arith, pow_double e) in
    rw half (ground (arith, pow_pos e))

module _ (rec : ℕ → ℕ → Option Node) (w k : ℕ) (u : k ≤ levels)
    (below : (a b : ℕ) → b ≤ pow k → b - a < w → Gives k (rec a b) (between a b k)) where
  whole :
      (e a b : ℕ)
      → b ≤ pow k
      → e ≤ k
      → pow e ≤ w
      → pow e ≤ b - a
      → b - a < pow (suc e)
      → and_minus (a + pow e - 1) (pow e) + pow e ≤ b
      → Gives k (interval_block rec a b (mask 0 k) (pow e)) (between a b k)
  whole e a b h ek ew lo hi fit =
      let p = pow_pos e in
      let d = pow_double e in
      let aa = and_minus (a + pow e - 1) (pow e) in
      let (first, near, in_k, own) = aligned e k a ek (omega arith) in
      rw (whole_run rec a b (mask 0 k) (pow e) fit) (
        around_lem rec e k a b aa ek u first fit own (below a aa (omega arith) (omega arith))
          (below (aa + pow e) b h (omega arith)))

  halved :
      (e a b : ℕ)
      → b ≤ pow k
      → suc e ≤ k
      → pow (suc e) ≤ w
      → pow (suc e) ≤ b - a
      → b - a < pow (suc (suc e))
      → b < and_minus (a + pow (suc e) - 1) (pow (suc e)) + pow (suc e)
      → Gives k (interval_block rec a b (mask 0 k) (pow (suc e))) (between a b k)
  halved e a b h ek ew lo hi fit =
      let p = pow_pos e in
      let d = pow_double e in
      let d' = pow_double (suc e) in
      let ah = and_minus (a + pow e - 1) (pow e) in
      let (first, near, in_k, own) = aligned e k a (omega arith) (omega arith) in
      let back = aligned_half e a in
      rw (halved_run rec a b (mask 0 k) e fit (omega arith)) (
        around_lem rec e k a b ah (omega arith) u first (omega arith) own
          (below a ah (omega arith) (omega arith)) (below (ah + pow e) b h (omega arith)))

  interval_block_lem :
      (e a b : ℕ)
      → b ≤ pow k
      → e ≤ k
      → pow e ≤ w
      → pow e ≤ b - a
      → b - a < pow (suc e)
      → Gives k (interval_block rec a b (mask 0 k) (pow e)) (between a b k)
  interval_block_lem zero a b h ek ew lo hi =
      let p = pow_one in
      let (first, near, in_k, own) = aligned 0 k a ek (omega arith) in
      whole 0 a b h ek ew lo hi (omega arith)
  interval_block_lem (suc e) a b h ek ew lo hi =
      elim (le_or_lt (and_minus (a + pow (suc e) - 1) (pow (suc e)) + pow (suc e)) b) [
        | inl fit ↦ whole (suc e) a b h ek ew lo hi fit
        | inr fit ↦ halved e a b h ek ew lo hi fit
      ]

pow-cancel : (i k : ℕ) → pow i ≤ pow k → i ≤ k
pow-cancel i k h = elim (le_or_lt i k) [
  | inl e ↦ e
  | inr e ↦ absurd (omega (arith, pow_le (suc k) i e, pow_double k, pow_pos k))
]

pow-cancel_lt : (i n : ℕ) → pow i < pow n → i < n
pow-cancel_lt i n h = elim (le_or_lt n i) [
  | inl e ↦ absurd (omega (arith, pow_le n i e))
  | inr e ↦ e
]

contains_in-none : (x : ℕ) → contains_in x empty ≡ false
unfolding contains_in
contains_in-none x = refl

interval_run :
    (fuel a b k e : ℕ)
    → b ≤ pow k
    → a < b
    → bit_length (b - a) ≡ suc e
    → interval_in (suc fuel) a b (mask 0 k)
      ≡ interval_block (λ a' b'. interval_in fuel a' b' (mask 0 k)) a b (mask 0 k) (pow e)
unfolding interval_in
interval_run fuel a b k e h u size =
    let e' : bit_length (b - a) - 1 ≡ e = omega arith in
    rw (e', two_pow e) (ground (arith, mask-pow k))

pub interval_in_lem :
    (fuel k a b n : ℕ)
    → k ≤ levels
    → b ≤ pow k
    → b - a < pow n
    → n < fuel
    → Gives k (interval_in fuel a b (mask 0 k)) (between a b k)
unfolding interval_in
interval_in_lem zero k a b n u h w f = absurd (omega arith)
interval_in_lem (suc fuel) k a b n u h w f = elim (le_or_lt b a) [
  | inl e ↦ gives empty (ground (arith, mask-pow k)) tt (λ x. ground (arith, contains_in-none x))
  | inr e ↦
      let (i, size, lo, hi) = bit_length_lem (b - a) (omega arith) in
      let step = interval_run fuel a b k i h e size in
      let ik = pow-cancel i k (omega arith) in
      let i_n = pow-cancel_lt i n (omega arith) in
      rw step (
        interval_block_lem (λ a' b'. interval_in fuel a' b' (mask 0 k)) (pow i) k u
          (λ a' b' h' w'. interval_in_lem fuel k a' b' i u h' w' (omega arith)) i a b h ik
          (omega arith) lo hi)
]

-- The fuel of interval is enough for the 32 levels of a set.
pub interval_lem :
    (k a b : ℕ) → k ≤ levels → b ≤ pow k → Gives k (interval a b (mask 0 k)) (between a b k)
unfolding interval
interval_lem k a b u h =
    interval_in_lem 34 k a b (suc k) u h (omega (arith, pow_double k, pow_pos k)) (omega arith)
