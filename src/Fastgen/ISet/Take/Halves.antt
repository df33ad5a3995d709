-- ===== src/Fastgen/ISet/Take/Halves.antt =====
-- How Bit._take splits a branch in cwm/fastgen/utils/iset.py.
use Prim.Native.Nat.{bit_and, min}
use cwm.Prelude.{
  ℕ, suc, ◌+◌, ◌-◌, ◌≤◌, ◌<◌, ◌≡◌, refl, ap, Bool, true, false, arith, ◌==◌, leb, ltb, Option, some,
  inl, inr, ◌⊎◌, if◌then◌else◌,
}
use cwm.Fastgen.BlockSet.{one}
use cwm.Fastgen.ISet.{Node, mem, chk, bit, empty, contains_in, mk_chk, mk_bit, levels}
use cwm.Fastgen.ISet.Bits
use cwm.Fastgen.ISet.Bits.{mask, field, pow, pow_pos, pow_double, mask-pow}
use cwm.Fastgen.ISet.Mask.{agree_one, agree_zero, and_not-mask}
use cwm.Fastgen.ISet.Tree.{IsTree, IsSome, mk_chk_lem, mk_bit_lem}
use cwm.Fastgen.ISet.Sets.{len_in, take_in, take_upper}
use cwm.Fastgen.ISet.Align.{field_lt}
use cwm.Fastgen.ISet.Count.{size, size-mem, size-bit, len_in_lem, all_ones-mask}
use cwm.Fastgen.ISet.Take.{Splits, all_of, size-mk_chk, size-mk_bit, split_mem, split_chk}

le_or_lt : (i j : ℕ) → (i ≤ j) ⊎ (j < i)
le_or_lt i j = ground arith

both_run :
    (upper : ℕ → Option (Node × Node)) (n m h l : ℕ) (d a0 b0 r0 r1 s t : Node)
    → len_in m a0 ≡ some l
    → l < n
    → b0 ≡ empty
    → upper (n - l) ≡ some (r0, r1)
    → mk_bit h a0 r0 ≡ some s
    → mk_chk h h r1 ≡ some t
    → take_upper upper n m h d (a0, b0) ≡ some (s, t)
unfolding take_upper
both_run upper n m h l d a0 b0 r0 r1 s t e few e0 er es et =
    let more : ltb 0 (n - l) ≡ true = ground arith in rw (e, e0) (rw (er, es, et) (rw more refl))

lower_run :
    (upper : ℕ → Option (Node × Node)) (n m h l : ℕ) (d a0 b0 s t : Node)
    → len_in m a0 ≡ some l
    → n ≤ l
    → mk_chk h 0 a0 ≡ some s
    → mk_bit h b0 d ≡ some t
    → take_upper upper n m h d (a0, b0) ≡ some (s, t)
unfolding take_upper
lower_run upper n m h l d a0 b0 s t e few es et =
    let less : ltb 0 (n - l) ≡ false = ground arith in rw e (rw (es, et) (rw less refl))

-- The value of a number by its uppermost place.
place :
    (v x : ℕ)
    → field 0 (suc v) x ≡ field 0 v x + (if bit_and x (mask v (suc v)) == 0 then 0 else pow v)
place v x = ground (
  arith,
  Bits.bit_and-mask v (suc v) x,
  Bits.field_one v x,
  Bits.field_split 0 v (suc v) x (omega arith) (omega arith),
)

-- The branch with its two halves split.
module _ (v n : ℕ) (c d a0 b0 : Node) (upper : ℕ → Option (Node × Node)) (wa : IsTree v a0)
    (wb : IsTree v b0) (wd : IsTree v d)
    (lower_member : (x : ℕ)
      → one (contains_in x c) ≡ one (contains_in x a0) + one (contains_in x b0))
    (lower_size : size v a0 ≡ min n (size v c))
    (lower_apart : (x y : ℕ)
      → contains_in x a0 ≡ true
      → contains_in y b0 ≡ true
      → field 0 v x < field 0 v y) where
  both_taken :
      size v c < n
      → b0 ≡ empty
      → n < size v c + size v d
      → Splits v (n - size v a0) d (upper (n - size v a0))
      → Splits
          (suc v)
          n
          (bit (mask v (suc v)) c d)
          (take_upper upper n (mask 0 v) (mask v (suc v)) d (a0, b0))
  unfolding take_upper contains_in
  both_taken few none_left more up =
      let a = mk_bit_lem v a0 up.left wa up.left_well in
      let b = mk_chk_lem v (suc v) (mask v (suc v)) up.right (omega arith) up.right_well in
      record {
        left = a.tree;
        right = b.tree;
        made =
            both_run upper n (mask 0 v) (mask v (suc v)) (size v a0) d a0 b0 up.left up.right a.tree
              b.tree (len_in_lem v a0 wa) (omega arith) none_left up.made a.made b.made;
        left_well = a.well;
        right_well = b.well;
        member = λ x. ground (
          arith,
          up.member x,
          lower_member x,
          ap (contains_in x) none_left,
          a.member x,
          b.member x,
          agree_one v x,
        );
        left_size = omega (
          arith,
          up.left_size,
          size-mk_bit v a0 up.left a.tree up.left_well a.member,
          size-bit v c d wd,
        );
        whole = λ e. absurd (omega (arith, size-bit v c d wd));
        apart = λ x y g e. ground (
          arith,
          a.member x,
          b.member y,
          agree_one v y,
          up.apart x y,
          place v x,
          place v y,
          field_lt v x,
        );
      }

  lower_taken :
      n ≤ size v c
      → n < size v c + size v d
      → Splits
          (suc v)
          n
          (bit (mask v (suc v)) c d)
          (take_upper upper n (mask 0 v) (mask v (suc v)) d (a0, b0))
  unfolding contains_in
  lower_taken few more =
      let a = mk_chk_lem v (suc v) 0 a0 (omega arith) wa in
      let b = mk_bit_lem v b0 d wb wd in
      record {
        left = a.tree;
        right = b.tree;
        made =
            lower_run upper n (mask 0 v) (mask v (suc v)) (size v a0) d a0 b0 a.tree b.tree
              (len_in_lem v a0 wa) (omega arith) a.made b.made;
        left_well = a.well;
        right_well = b.well;
        member = λ x. ground (arith, lower_member x, a.member x, b.member x, agree_zero v x);
        left_size =
            omega (
              arith,
              size-mk_chk v (suc v) 0 a0 a.tree (omega arith) wa a.member,
              size-bit v c d wd,
            );
        whole = λ e. absurd (omega (arith, size-bit v c d wd));
        apart = λ x y g e. ground (
          arith,
          a.member x,
          b.member y,
          agree_zero v x,
          lower_apart x y,
          place v x,
          place v y,
          field_lt v x,
        );
      }

take_bit_run :
    (v n : ℕ) (c d l r : Node)
    → IsSome c
    → IsSome d
    → IsTree v c
    → IsTree v d
    → n < size (suc v) (bit (mask v (suc v)) c d)
    → take_in n (mask 0 v) c ≡ some (l, r)
    → take_in n (mask 0 (suc v)) (bit (mask v (suc v)) c d)
      ≡ take_upper (λ k. take_in k (mask 0 v) d) n (mask 0 v) (mask v (suc v)) d (l, r)
unfolding take_in
take_bit_run v n c d l r sc sd wc wd few e =
    let len = len_in_lem (suc v) (bit (mask v (suc v)) c d) (v, refl, refl, sc, sd, wc, wd) in
    let more : leb (size (suc v) (bit (mask v (suc v)) c d)) n ≡ false = ground arith in
    rw (and_not-mask 0 v (suc v) (omega arith) (omega arith), len, e) (rw more refl)

split_bit :
    (v n : ℕ) (c d : Node)
    → IsSome c
    → IsSome d
    → IsTree v c
    → IsTree v d
    → n < size (suc v) (bit (mask v (suc v)) c d)
    → ((k : ℕ) → Splits v k c (take_in k (mask 0 v) c))
    → ((k : ℕ) → Splits v k d (take_in k (mask 0 v) d))
    → Splits
        (suc v)
        n
        (bit (mask v (suc v)) c d)
        (take_in n (mask 0 (suc v)) (bit (mask v (suc v)) c d))
split_bit v n c d sc sd wc wd few lower upper =
    let l = lower n in
    let total = size-bit v c d wd in
    rw (take_bit_run v n c d l.left l.right sc sd wc wd few l.made) (elim (le_or_lt n (size v c)) [
      | inl e ↦
          lower_taken v n c d l.left l.right (λ k. take_in k (mask 0 v) d) l.left_well l.right_well
            wd l.member l.left_size l.apart e (omega arith)
      | inr e ↦
          both_taken v n c d l.left l.right (λ k. take_in k (mask 0 v) d) l.left_well l.right_well
            wd l.member l.left_size l.apart e (l.whole (omega arith)) (omega arith)
            (upper (n - size v l.left))
    ])

all_run :
    (k n : ℕ) (t : Node) → IsTree k t → size k t ≤ n → take_in n (mask 0 k) t ≡ some (t, empty)
unfolding take_in
all_run k n (mem true) w h = ground (arith, all_ones-mask k, size-mem k true, mask-pow k)
all_run k n (mem false) w h = ground (arith, all_ones-mask k)
all_run k n (chk m b c) w h =
    let fits : leb (size k (chk m b c)) n ≡ true = ground arith in
    rw (len_in_lem k (chk m b c) w) (rw fits refl)
all_run k n (bit m c d) w h =
    let fits : leb (size k (bit m c d)) n ≡ true = ground arith in
    rw (len_in_lem k (bit m c d) w) (rw fits refl)

split_all : (k n : ℕ) (t : Node) → IsTree k t → size k t ≤ n → Splits k n t (take_in n (mask 0 k) t)
split_all k n t w h = rw (all_run k n t w h) (all_of k n t w h)

split_full :
    (k n : ℕ) (b : Bool)
    → k ≤ levels
    → n < size k (mem b)
    → Splits k n (mem b) (take_in n (mask 0 k) (mem b))
split_full k n true u h = split_mem k n u (omega (arith, size-mem k true))
split_full k n false u h = absurd (omega (arith, size-mem k false))

pub take_in_lem :
    (k n : ℕ) (t : Node) → k ≤ levels → IsTree k t → Splits k n t (take_in n (mask 0 k) t)
take_in_lem k n (mem b) u w = elim (le_or_lt (size k (mem b)) n) [
  | inl e ↦ split_all k n (mem b) w e
  | inr e ↦ split_full k n b u e
]
take_in_lem k n (chk m b c) u (j, p, body, w) = elim (le_or_lt (size k (chk m b c)) n) [
  | inl e ↦ split_all k n (chk m b c) (j, p, body, w) e
  | inr e ↦
      let few = rw p.ones at e in
      let lt = p.below in
      rw p.ones (split_chk j k n b c lt p.fits body w few (take_in_lem j n c (omega arith) w))
]
take_in_lem k n (bit m c d) u (v, e, o, sc, sd, wc, wd) = elim (le_or_lt (size k (bit m c d)) n) [
  | inl f ↦ split_all k n (bit m c d) (v, e, o, sc, sd, wc, wd) f
  | inr f ↦
      let few = rw (o, e) at f in
      rw (o, e)
        (split_bit v n c d sc sd wc wd few (λ i. take_in_lem v i c (omega arith) wc)
          (λ i. take_in_lem v i d (omega arith) wd))
]
