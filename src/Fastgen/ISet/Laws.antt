-- ===== src/Fastgen/ISet/Laws.antt =====
-- The methods of ISet (cwm/fastgen/utils/iset.py) on the sets that it builds: the trees of 32 levels.
use cwm.Prelude.{
  ℕ, suc, ◌+◌, ◌≤◌, ◌<◌, ◌≡◌, ◌≢◌, refl, ap, sym, ◌∙◌, true, false, ◌&&◌, ◌||◌, arith, ◌==◌, leb,
  ltb, some, inl, inr, ◌⊎◌, List, [], length,
}
use cwm.Fastgen.BlockSet.{one, count}
use cwm.Fastgen.ISet.{Node, mem, chk, last, levels, contains_in}
use cwm.Fastgen.ISet.Bits
use cwm.Fastgen.ISet.Bits.{mask, field, pow, pow_pos, pow_double}
use cwm.Fastgen.ISet.Mask.{agree, agree_same, bit_and-agree}
use cwm.Fastgen.ISet.Tree.{IsTree, Gives, gives, mk_chk_lem}
use cwm.Fastgen.ISet.Union.{both, union_lem}
use cwm.Fastgen.ISet.Align.{field_all, field_lt}
use cwm.Fastgen.ISet.Interval.{between, interval_lem}
use cwm.Fastgen.ISet.Count.{size, len_in_lem}
use cwm.Fastgen.ISet.Single.{one_member}
use cwm.Fastgen.ISet.Take.{Splits}
use cwm.Fastgen.ISet.Take.Halves.{take_in_lem}
use cwm.Fastgen.ISet.Listing.{Ascending, tolist_in_lem, count-above}
use cwm.Fastgen.ISet.Sets.{
  contains, len, tolist, add, merge, take, popleft, first_of, singleton, interval,
}

-- The invariant of a set.
abbrev pub IsISet : Node → Type 0
IsISet s = IsTree levels s

pub pow-last : pow levels ≡ suc last
unfolding pow
pow-last = refl

last-mask : last ≡ mask 0 levels
unfolding mask
last-mask = refl

pub fits_all : (x : ℕ) → x ≤ last → field 0 levels x ≡ x
fits_all x h = field_all levels x (omega (arith, pow-last))

pub contains-le : (x : ℕ) (s : Node) → x ≤ last → contains x s ≡ contains_in x s
unfolding contains
contains-le x s h = ground arith

pub contains_above : (x : ℕ) (s : Node) → last < x → contains x s ≡ false
unfolding contains
contains_above x s h = ground arith

-- Merging two sets that the operations build raises no assertion and ends within the fuel. Its
-- result is such a set again, and has the members of both.
pub merge_lem :
    (s t : Node)
    → IsISet s
    → IsISet t
    → (r : Node) × (merge s t ≡ some r)
      × IsISet r
      × ((x : ℕ) → contains x r ≡ (contains x s || contains x t))
unfolding merge contains
merge_lem s t ws wt =
    let g = union_lem levels s t (omega arith) ws wt in
    (g.tree, g.made, g.well, λ x. ground (arith, g.member x))

singleton_lem : (x : ℕ) → x ≤ last → Gives levels (singleton x) (λ y. agree 0 levels y x)
unfolding singleton contains_in
singleton_lem x h =
    let g = mk_chk_lem 0 levels x (mem true) (omega arith) tt in
    let made = rw (sym last-mask) at g.made in
    gives g.tree (ground (arith, made)) g.well (λ y. ground (arith, g.member y))

le_or_lt : (i j : ℕ) → (i ≤ j) ⊎ (j < i)
le_or_lt i j = ground arith

add_member :
    (x : ℕ) (s e r : Node)
    → x ≤ last
    → ((y : ℕ) → contains_in y e ≡ agree 0 levels y x)
    → ((y : ℕ) → contains_in y r ≡ both s e y)
    → (y : ℕ) → contains y r ≡ (y == x || contains y s)
unfolding contains agree
add_member x s e r h one_only all y = elim (le_or_lt y last) [
  | inl u ↦ ground (arith, all y, one_only y, fits_all y u, fits_all x h)
  | inr u ↦ ground arith
]

-- Adding a number up to 2 ^ 32 - 1 to a set that the operations build succeeds. The result is such a
-- set again, and its members are the number and those of the set.
pub add_lem :
    (x : ℕ) (s : Node)
    → x ≤ last
    → IsISet s
    → (r : Node) × (add x s ≡ some r)
      × IsISet r
      × ((y : ℕ) → contains y r ≡ (y == x || contains y s))
unfolding add
add_lem x s h w =
    let e = singleton_lem x h in
    let g = union_lem levels s e.tree (omega arith) w e.well in
    (g.tree, rw (e.made, g.made) refl, g.well, add_member x s e.tree g.tree h e.member g.member)

pub len_lem : (s : Node) → IsISet s → len s ≡ some (size levels s)
unfolding len
len_lem s w = rw last-mask (len_in_lem levels s w)

pub take_lem : (n : ℕ) (s : Node) → IsISet s → Splits levels n s (take n s)
unfolding take
take_lem n s w = rw last-mask (take_in_lem levels n s (omega arith) w)

listed :
    (s : Node) (l : List ℕ)
    → Ascending 0 (pow levels) l
    → ((x : ℕ) → x < pow levels → count x l ≡ one (agree levels levels x 0 && contains_in x s))
    → (x : ℕ) → count x l ≡ one (contains x s)
unfolding contains
listed s l a m x = elim (le_or_lt x last) [
  | inl u ↦ ground (arith, pow-last, m x, agree_same levels x 0)
  | inr u ↦ ground (arith, pow-last, count-above x 0 (pow levels) l a)
]

-- The list of a set that the operations build: tolist succeeds, the list is strictly ascending and
-- below 2 ^ 32, it has each member of the set once and nothing else, and len is its length.
pub tolist_lem :
    (s : Node)
    → IsISet s
    → (l : List ℕ) × (tolist s ≡ some l)
      × (len s ≡ some (length l))
      × Ascending 0 (suc last) l
      × ((x : ℕ) → count x l ≡ one (contains x s))
unfolding tolist pow
tolist_lem s w =
    let l = tolist_in_lem levels levels 0 s (omega arith) (Bits.field_of_zero levels levels) w in
    let made : tolist s ≡ some l.items = rw last-mask (l.made []) in
    let order : Ascending 0 (suc last) l.items = rw pow-last at l.order in
    let size_is : len s ≡ some (length l.items) = len_lem s w ∙ ap some (sym l.size_of) in
    (l.items, made, size_is, order, listed s l.items l.order l.member)

within :
    (a b : ℕ) (r : Node)
    → b ≤ suc last
    → ((x : ℕ) → contains_in x r ≡ between a b levels x)
    → (x : ℕ) → contains x r ≡ (leb a x && ltb x b)
unfolding contains
within a b r h m x = elim (le_or_lt x last) [
  | inl u ↦ ground (arith, m x, fits_all x u)
  | inr u ↦ ground arith
]

-- The interval from a to b, with b at most 2 ^ 32, is built within the fuel and with no assertion
-- raised. It is a set that the invariant holds of, and its members are the numbers from a up to b,
-- without b.
pub contains-interval :
    (a b : ℕ)
    → b ≤ suc last
    → (r : Node) × (interval a b last ≡ some r)
      × IsISet r
      × ((x : ℕ) → contains x r ≡ (leb a x && ltb x b))
contains-interval a b h =
    let g = interval_lem levels a b (omega arith) (omega (arith, pow-last)) in
    let made : interval a b last ≡ some g.tree = rw last-mask g.made in
    (g.tree, made, g.well, within a b g.tree h g.member)

first_member :
    (b y : ℕ)
    → field 0 levels b ≡ b
    → contains_in y (chk (mask 0 levels) b (mem true)) ≡ agree 0 levels y b
unfolding contains_in
first_member b y own = ground (arith, bit_and-agree 0 levels y b own)

pub first_only :
    (l : Node) (b : ℕ)
    → l ≡ chk (mask 0 levels) b (mem true)
    → field 0 levels b ≡ b
    → (y : ℕ) → contains y l ≡ (b == y)
unfolding contains agree
first_only l b e own y =
    let b_lt = field_lt levels b in
    let is_first = ap (contains_in y) e ∙ first_member b y own in
    elim (le_or_lt y last) [
      | inl u ↦ ground (arith, is_first, fits_all y u, own)
      | inr u ↦ ground (arith, own, b_lt, pow-last)
    ]

popped :
    (s l r : Node) (b : ℕ)
    → ((y : ℕ) → one (contains_in y s) ≡ one (contains_in y l) + one (contains_in y r))
    → l ≡ chk (mask 0 levels) b (mem true)
    → field 0 levels b ≡ b
    → (y : ℕ) → one (contains y s) ≡ one (b == y) + one (contains y r)
unfolding contains agree
popped s l r b m e own y =
    let b_lt = field_lt levels b in
    let is_first = ap (contains_in y) e ∙ first_member b y own in
    elim (le_or_lt y last) [
      | inl u ↦ ground (arith, m y, is_first, fits_all y u, own)
      | inr u ↦ ground (arith, own, b_lt, pow-last)
    ]

popleft_run :
    (b : ℕ) (s l r : Node)
    → take 1 s ≡ some (l, r)
    → l ≡ chk (mask 0 levels) b (mem true)
    → popleft s ≡ some (b, r)
unfolding popleft first_of
popleft_run b s l r e e' = rw (e, e') refl

-- What popleft returns is the one number of the set that it takes off.
pub popleft_parts :
    (s : Node) (w : IsISet s)
    → len s ≢ some 0
    → (b : ℕ) × (popleft s ≡ some (b, (take_lem 1 s w).right))
      × (b ≤ last)
      × ((take_lem 1 s w).left ≡ chk (mask 0 levels) b (mem true))
      × (field 0 levels b ≡ b)
popleft_parts s w h =
    let t = take_lem 1 s w in
    let some_size : size levels s ≢ 0 = λ e. h (len_lem s w ∙ ap some e) in
    let (b, is_b, own) =
      one_member levels t.left (omega arith) t.left_well (omega (arith, t.left_size, some_size)) in
    let b_le : b ≤ last = omega (arith, own, field_lt levels b, pow-last) in
    (b, popleft_run b s t.left t.right t.made is_b, b_le, is_b, own)

pub popleft_lem :
    (s : Node)
    → IsISet s
    → len s ≢ some 0
    → (x : ℕ) × (r : Node) × (popleft s ≡ some (x, r))
      × (x ≤ last)
      × IsISet r
      × ((y : ℕ) → one (contains y s) ≡ one (x == y) + one (contains y r))
popleft_lem s w h =
    let t = take_lem 1 s w in
    let (b, made, b_le, is_b, own) = popleft_parts s w h in
    (b, t.right, made, b_le, t.right_well, popped s t.left t.right b t.member is_b own)
