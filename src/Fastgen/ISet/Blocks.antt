-- ===== src/Fastgen/ISet/Blocks.antt =====
-- ISet (cwm/fastgen/utils/iset.py) as the block sets of the scheduler: what the scheduler relies on
-- holds of the sets that the operations build.
use Prim.Native.Nat.{min}
use cwm.Prelude.{
  ℕ, zero, suc, ◌+◌, ◌≤◌, ◌<◌, ◌≡◌, ◌≢◌, refl, sym, ◌∙◌, true, false, ◌||◌, arith, ◌==◌, Option,
  some, none, inl, inr, ◌⊎◌, List, length,
}
use mathlib.Core.Option.{some-injective}
use cwm.Fastgen.BlockSet.{BlockSet, one, count}
use cwm.Fastgen.ISet.{Node, empty, contains_in, last, levels}
use cwm.Fastgen.ISet.Count.{size, size-mem}
use cwm.Fastgen.ISet.Laws.{
  IsISet, merge_lem, add_lem, len_lem, take_lem, tolist_lem, contains-interval, popleft_lem,
}
use cwm.Fastgen.ISet.Sets
use cwm.Fastgen.ISet.Sets.{contains}

-- A set with its invariant.
abbrev pub Tree : Type 0
Tree = (s : Node) × IsISet s

le_or_lt : (i j : ℕ) → (i ≤ j) ⊎ (j < i)
le_or_lt i j = ground arith

zero_or_not : (n : ℕ) → (n ≡ 0) ⊎ (n ≢ 0)
zero_or_not zero = inl refl
zero_or_not (suc n) = inr (λ e. absurd (omega arith))

not_empty : (s : Node) → IsISet s → size levels s ≢ 0 → Sets.len s ≢ some 0
not_empty s w n e = n (some-injective (size levels s) 0 (sym (len_lem s w) ∙ e))

-- The operations on the sets with their invariant; `none` is the failed assertion on the argument.
add_by : (x : ℕ) → (x ≤ last) ⊎ (last < x) → Tree → Option Tree
add_by x (inl h) (s, w) = let r = add_lem x s h w in some (r.0, r.2)
add_by x (inr h) s = none

pub add_tree : ℕ → Tree → Option Tree
add_tree x = add_by x (le_or_lt x last)

pub merge_tree : Tree → Tree → Tree
merge_tree (s, w) (t, v) = let r = merge_lem s t w v in (r.0, r.2)

interval_by : (a b : ℕ) → (b ≤ suc last) ⊎ (suc last < b) → Option Tree
interval_by a b (inl h) = let r = contains-interval a b h in some (r.0, r.2)
interval_by a b (inr h) = none

pub interval_tree : ℕ → ℕ → Option Tree
interval_tree a b = interval_by a b (le_or_lt b (suc last))

pub take_tree : ℕ → Tree → Tree × Tree
take_tree n (s, w) = let r = take_lem n s w in ((r.left, r.left_well), (r.right, r.right_well))

popleft_by : (s : Tree) → (size levels s.0 ≡ 0) ⊎ (size levels s.0 ≢ 0) → Option (ℕ × Tree)
popleft_by s (inl e) = none
popleft_by (s, w) (inr n) = let r = popleft_lem s w (not_empty s w n) in some (r.0, (r.1, r.4))

pub popleft_tree : Tree → Option (ℕ × Tree)
popleft_tree s = popleft_by s (zero_or_not (size levels s.0))

pub tolist_tree : Tree → List ℕ
tolist_tree (s, w) = (tolist_lem s w).0

-- What the scheduler relies on.
contains-empty : (x : ℕ) → contains x empty ≡ false
unfolding contains contains_in
contains-empty x = ground arith

interval_law_by :
    (n : ℕ) (d : (n ≤ suc last) ⊎ (suc last < n))
    → ((x : ℕ) → x < n → x ≤ last)
    → (s : Tree) × (interval_by 0 n d ≡ some s)
      × ((x : ℕ) → x < n → contains x s.0 ≡ true)
      × ((x : ℕ) → n ≤ x → contains x s.0 ≡ false)
unfolding interval_by
interval_law_by n (inl h) fits =
    let r = contains-interval 0 n h in
    ((r.0, r.2), refl, λ x e. ground (arith, r.3 x), λ x e. ground (arith, r.3 x))
interval_law_by n (inr h) fits = absurd (omega (arith, fits (suc last) h))

add_law_by :
    (x : ℕ) (d : (x ≤ last) ⊎ (last < x)) (s : Tree)
    → x ≤ last
    → (t : Tree) × (add_by x d s ≡ some t) × ((y : ℕ) → contains y t.0 ≡ (y == x || contains y s.0))
unfolding add_by
add_law_by x (inl h) (s, w) e = let r = add_lem x s h w in ((r.0, r.2), refl, r.3)
add_law_by x (inr h) s e = absurd (omega arith)

merge_law :
    (x : ℕ) (s t : Tree) → contains x (merge_tree s t).0 ≡ (contains x s.0 || contains x t.0)
unfolding merge_tree
merge_law x (s, w) (t, v) = (merge_lem s t w v).3 x

take_law :
    (n x : ℕ) (s : Tree)
    → one (contains x s.0)
      ≡ one (contains x (take_tree n s).0.0) + one (contains x (take_tree n s).1.0)
unfolding take_tree contains
take_law n x (s, w) = elim (le_or_lt x last) [
  | inl h ↦ ground (arith, (take_lem n s w).member x)
  | inr h ↦ ground arith
]

take_size_law : (n : ℕ) (s : Tree) → size levels (take_tree n s).0.0 ≡ min n (size levels s.0)
unfolding take_tree
take_size_law n (s, w) = (take_lem n s w).left_size

popleft_law_by :
    (s : Tree) (d : (size levels s.0 ≡ 0) ⊎ (size levels s.0 ≢ 0))
    → size levels s.0 ≢ 0
    → (x : ℕ) × (t : Tree) × (popleft_by s d ≡ some (x, t))
      × (x ≤ last)
      × ((y : ℕ) → one (contains y s.0) ≡ one (x == y) + one (contains y t.0))
unfolding popleft_by
popleft_law_by s (inl e) n = absurd (n e)
popleft_law_by (s, w) (inr m) n =
    let r = popleft_lem s w (not_empty s w m) in (r.0, (r.1, r.4), refl, r.3, r.5)

count_law : (x : ℕ) (s : Tree) → count x (tolist_tree s) ≡ one (contains x s.0)
unfolding tolist_tree
count_law x (s, w) = (tolist_lem s w).4 x

length_law : (s : Tree) → length (tolist_tree s) ≡ size levels s.0
unfolding tolist_tree
length_law (s, w) =
    let l = tolist_lem s w in some-injective (length l.0) (size levels s) (sym l.2 ∙ len_lem s w)

size_empty : size levels empty ≡ 0
size_empty = size-mem levels false

pub blocks : BlockSet
unfolding add_tree interval_tree popleft_tree
blocks = record {
  Set = Tree;
  Fits = λ x. x ≤ last;
  empty = (empty, tt);
  interval = interval_tree;
  add = add_tree;
  union = merge_tree;
  take = take_tree;
  popleft = popleft_tree;
  tolist = tolist_tree;
  len = λ s. size levels s.0;
  contains = λ x s. contains x s.0;
  contains-empty = contains-empty;
  len-empty = size_empty;
  contains-interval = λ n fits. interval_law_by n (le_or_lt n (suc last)) fits;
  contains-add = λ x s h. add_law_by x (le_or_lt x last) s h;
  contains-union = merge_law;
  count-take = take_law;
  len-take = take_size_law;
  count-popleft = λ s h. popleft_law_by s (zero_or_not (size levels s.0)) h;
  count-tolist = count_law;
  length-tolist = length_law;
}
