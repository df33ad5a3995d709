-- ===== src/Fastgen/ISet/Take.antt =====
-- How take of cwm/fastgen/utils/iset.py splits a tree.
pub mod Halves
use Prim.Native.Nat.{bit_and, min, max}
use cwm.Prelude.{
  ℕ, zero, suc, ◌+◌, ◌-◌, ◌*◌, ◌/◌, ◌%◌, ◌≤◌, ◌<◌, ◌≡◌, refl, ap, sym, ◌∙◌, Bool, true, false, ◌&&◌,
  ◌||◌, not, arith, ◌==◌, leb, ltb, Bool-cases, Option, some, none, inl, inr, ◌⊎◌, if◌then◌else◌,
}
use cwm.Fastgen.BlockSet.{one}
use cwm.Fastgen.ISet.{
  Node, mem, chk, bit, empty, contains_in, mk_chk, mk_bit, all_ones, and_not, levels, is_empty,
  ◌>>=◌,
}
use cwm.Fastgen.ISet.Bits
use cwm.Fastgen.ISet.Bits.{mask, field, pow, pow_pos, pow_double, mask-pow}
use cwm.Fastgen.ISet.Mask.{agree, agree_one, agree_zero, bit_and-agree, and_not-mask, field_twice}
use cwm.Fastgen.ISet.Tree.{
  IsTree, IsPrefix, IsBody, IsSome, Gives, prefix, mk_chk_lem, mk_bit_lem, either,
}
use cwm.Fastgen.ISet.Sets.{len_in, take_in, take_upper, interval}
use cwm.Fastgen.ISet.Align.{field_lt}
use cwm.Fastgen.ISet.Interval.{between, interval_lem}
use cwm.Fastgen.ISet.Count.{
  size, number, number_ext, number-under, number-either, number-between, under, size-mem, size-chk,
  size-bit, len_in_lem, all_ones-mask,
}

-- A split into two trees: each number goes to one of them, the first has n, or all, and those are
-- the least.
pub record Splits (k n : ℕ) (t : Node) (o : Option (Node × Node)) : Type 0 where
  pub left : Node
  pub right : Node
  pub made : o ≡ some (left, right)
  pub left_well : IsTree k left
  pub right_well : IsTree k right
  pub member :
      (x : ℕ) → one (contains_in x t) ≡ one (contains_in x left) + one (contains_in x right)
  pub left_size : size k left ≡ min n (size k t)
  pub whole : size k t ≤ n → right ≡ empty
  pub apart :
      (x y : ℕ) → contains_in x left ≡ true → contains_in y right ≡ true → field 0 k x < field 0 k y

-- All of a tree.
pub all_of : (k n : ℕ) (t : Node) → IsTree k t → size k t ≤ n → Splits k n t (some (t, empty))
unfolding contains_in
all_of k n t w h = record {
  left = t;
  right = empty;
  made = refl;
  left_well = w;
  right_well = tt;
  member = λ x. omega arith;
  left_size = omega arith;
  whole = λ e. refl;
  apart = λ x y h e. cc;
}

-- The sizes that Chk._mk and Bit._mk make.
pub size-mk_chk :
    (j k b : ℕ) (c t : Node)
    → j ≤ k
    → IsTree j c
    → ((x : ℕ) → contains_in x t ≡ under j k b c x)
    → size k t ≡ size j c
size-mk_chk j k b c t h w m =
    number_ext k (λ x. contains_in x t) (under j k b c) (λ x e. m x) ∙ number-under j k b c h w

pub size-mk_bit :
    (n : ℕ) (c d t : Node)
    → IsTree n d
    → ((x : ℕ) → contains_in x t ≡ either n c d x)
    → size (suc n) t ≡ size n c + size n d
size-mk_bit n c d t w m =
    number_ext (suc n) (λ x. contains_in x t) (either n c d) (λ x e. m x) ∙ number-either n c d w

pub split_mem :
    (k n : ℕ) → k ≤ levels → n < pow k → Splits k n (mem true) (take_in n (mask 0 k) (mem true))
unfolding take_in contains_in
split_mem k n u h =
    let p = mask-pow k in
    let top : mask 0 k + 1 ≡ pow k = omega arith in
    let a = interval_lem k 0 n u (omega arith) in
    let b = interval_lem k n (mask 0 k + 1) u (omega arith) in
    record {
      left = a.tree;
      right = b.tree;
      made = ground (arith, all_ones-mask k, a.made, b.made);
      left_well = a.well;
      right_well = b.well;
      member = λ x. ground (arith, a.member x, b.member x, field_lt k x);
      left_size = omega (
        arith,
        size-mem k true,
        number-between k 0 n (omega arith),
        number_ext k (λ x. contains_in x a.tree) (between 0 n k) (λ x e. a.member x),
      );
      whole = λ e. absurd (omega (arith, size-mem k true));
      apart = λ x y h e. ground (arith, a.member x, b.member y);
    }

take_chk_run :
    (j k n b : ℕ) (c l r s t : Node)
    → j < k
    → field j k b ≡ b
    → IsBody c
    → IsTree j c
    → n < size k (chk (mask j k) b c)
    → take_in n (mask 0 j) c ≡ some (l, r)
    → mk_chk (mask j k) b l ≡ some s
    → mk_chk (mask j k) b r ≡ some t
    → take_in n (mask 0 k) (chk (mask j k) b c) ≡ some (s, t)
unfolding take_in
take_chk_run j k n b c l r s t h own body w few e el er =
    let len = len_in_lem k (chk (mask j k) b c) (j, prefix j h own, body, w) in
    let more : leb (size k (chk (mask j k) b c)) n ≡ false = ground arith in
    rw (and_not-mask 0 j k (omega arith) (omega arith), len, e, el, er) (rw more refl)

chk_apart :
    (j k b x y : ℕ) (l r s t : Node)
    → j ≤ k
    → ((x y : ℕ) → contains_in x l ≡ true → contains_in y r ≡ true → field 0 j x < field 0 j y)
    → ((x : ℕ) → contains_in x s ≡ under j k b l x)
    → ((x : ℕ) → contains_in x t ≡ under j k b r x)
    → contains_in x s ≡ true
    → contains_in y t ≡ true
    → field 0 k x < field 0 k y
unfolding agree
chk_apart j k b x y l r s t h below ms mt g e = ground (
  arith,
  ms x,
  mt y,
  below x y,
  Bits.field_split 0 j k x (omega arith) h,
  Bits.field_split 0 j k y (omega arith) h,
)

pub split_chk :
    (j k n b : ℕ) (c : Node)
    → j < k
    → field j k b ≡ b
    → IsBody c
    → IsTree j c
    → n < size k (chk (mask j k) b c)
    → Splits j n c (take_in n (mask 0 j) c)
    → Splits k n (chk (mask j k) b c) (take_in n (mask 0 k) (chk (mask j k) b c))
unfolding contains_in
split_chk j k n b c h own body w few sp =
    let l = mk_chk_lem j k b sp.left (omega arith) sp.left_well in
    let r = mk_chk_lem j k b sp.right (omega arith) sp.right_well in
    record {
      left = l.tree;
      right = r.tree;
      made =
          take_chk_run j k n b c sp.left sp.right l.tree r.tree h own body w few sp.made l.made
            r.made;
      left_well = l.well;
      right_well = r.well;
      member = λ x. ground (arith, sp.member x, l.member x, r.member x, bit_and-agree j k x b own);
      left_size = omega (
        arith,
        sp.left_size,
        size-mk_chk j k b sp.left l.tree (omega arith) sp.left_well l.member,
        size-chk j k b c h own w,
      );
      whole = λ e. absurd (omega arith);
      apart = λ x y g e.
          chk_apart j k b x y sp.left sp.right l.tree r.tree (omega arith) sp.apart l.member
            r.member g e;
    }
