-- ===== src/Fastgen/ISet/Order.antt =====
-- A set of cwm/fastgen/utils/iset.py as the ascending list of its numbers: take and popleft work from
-- the front of that list.
use Prim.Native.Nat.{min}
use cwm.Prelude.{
  ℕ, zero, suc, ◌+◌, ◌-◌, ◌≤◌, ◌<◌, ◌≡◌, ◌≢◌, refl, ap, sym, ◌∙◌, Bool, true, false, arith, ◌==◌,
  Option, some, none, inl, inr, ◌⊎◌, List, [], ◌∷◌, ◌++◌, length, length-append,
}
use cwm.Prelude
use mathlib.Core.Option.{some-injective}
use cwm.Fastgen.BlockSet.{one, count}
use cwm.Fastgen.ISet.{Node, last, levels, contains_in}
use cwm.Fastgen.ISet.Count.{size}
use cwm.Fastgen.ISet.Take.{Splits}
use cwm.Fastgen.ISet.Listing.{Ascending, count-append}
use cwm.Fastgen.ISet.Laws.{
  IsISet, len_lem, take_lem, tolist_lem, popleft_parts, first_only, fits_all,
}
use cwm.Fastgen.ISet.Sets.{contains, tolist, take, popleft, len}

count-below : (x lo hi : ℕ) (l : List ℕ) → Ascending lo hi l → x < lo → count x l ≡ 0
unfolding count
count-below x lo hi [] a h = refl
count-below x lo hi (y ∷ l) (p, q, a) h = ground (arith, count-below x (suc y) hi l a)

-- Ascending lists with the same members are the same.
Ascending-unique :
    (lo lo' hi : ℕ) (l m : List ℕ)
    → Ascending lo hi l
    → Ascending lo' hi m
    → ((x : ℕ) → count x l ≡ count x m)
    → l ≡ m
unfolding count
Ascending-unique lo lo' hi [] [] a b h = refl
Ascending-unique lo lo' hi [] (y ∷ m) a b h = absurd (ground (arith, h y))
Ascending-unique lo lo' hi (x ∷ l) [] a b h = absurd (ground (arith, h x))
Ascending-unique lo lo' hi (x ∷ l) (y ∷ m) (p, q, a) (p', q', b) h =
    let same : x ≡ y =
      ground (arith, h x, h y, count-below x (suc y) hi m b, count-below y (suc x) hi l a) in
    let rest = Ascending-unique (suc x) (suc y) hi l m a b (λ z. ground (arith, h z, same)) in cc

Ascending-from :
    (lo lo' hi : ℕ) (l : List ℕ)
    → Ascending lo hi l
    → ((y : ℕ) → count y l ≢ 0 → lo' ≤ y)
    → Ascending lo' hi l
unfolding count
Ascending-from lo lo' hi [] a h = tt
Ascending-from lo lo' hi (y ∷ l) (p, q, a) h = (h y (λ e. ground arith), q, a)

Ascending-join :
    (lo hi : ℕ) (l m : List ℕ)
    → Ascending lo hi l
    → Ascending 0 hi m
    → ((y : ℕ) → count y m ≢ 0 → lo ≤ y)
    → ((x y : ℕ) → count x l ≢ 0 → count y m ≢ 0 → x < y)
    → Ascending lo hi (l ++ m)
unfolding count
Ascending-join lo hi [] m a b low apart = Ascending-from 0 lo hi m b low
Ascending-join lo hi (x ∷ l) m (p, q, a) b low apart = (
  p,
  q,
  Ascending-join (suc x) hi l m a b (λ y h. apart x y (λ e. ground arith) h)
      (λ z y g h. apart z y (λ e. g (ground arith)) h),
)

-- The front of a list, as long as asked for or all of it.
take-front :
    (n : ℕ) (l m : List ℕ)
    → length l ≡ min n (length l + length m)
    → (Prelude.take n (l ++ m) ≡ l) × (Prelude.drop n (l ++ m) ≡ m)
take-front zero [] m h = (refl, refl)
take-front zero (x ∷ l) m h = absurd (omega arith)
take-front (suc n) [] [] h = (refl, refl)
take-front (suc n) [] (y ∷ m) h = absurd (omega arith)
take-front (suc n) (x ∷ l) m h =
    let ih = take-front n l m (omega arith) in (ap (λ t. x ∷ t) ih.0, ih.1)

-- A number that is listed is in the tree.
listed_in :
    (x : ℕ) (t : Node) (l : List ℕ)
    → count x l ≡ one (contains x t)
    → count x l ≢ 0
    → (x ≤ last) × (contains_in x t ≡ true)
unfolding contains
listed_in x t l h n = elim (Prelude.Bool-cases (contains x t)) [
  | inl e ↦ ground arith
  | inr e ↦ absurd (n (ground arith))
]

split_member :
    (s l r : Node)
    → ((x : ℕ) → one (contains_in x s) ≡ one (contains_in x l) + one (contains_in x r))
    → (x : ℕ) → one (contains x s) ≡ one (contains x l) + one (contains x r)
unfolding contains
split_member s l r m x = ground (arith, m x)

-- The lists of the two parts of a split, one behind the other, are the list of the set.
split_lists :
    (n : ℕ) (s : Node) (t : Splits levels n s (take n s)) (l a b : List ℕ)
    → Ascending 0 (suc last) l
    → Ascending 0 (suc last) a
    → Ascending 0 (suc last) b
    → ((x : ℕ) → count x l ≡ one (contains x s))
    → ((x : ℕ) → count x a ≡ one (contains x t.left))
    → ((x : ℕ) → count x b ≡ one (contains x t.right))
    → l ≡ a ++ b
split_lists n s t l a b asc_l asc_a asc_b in_l in_a in_b =
    let apart : (x y : ℕ) → count x a ≢ 0 → count y b ≢ 0 → x < y = λ x y g h.
      let (x_le, x_in) = listed_in x t.left a (in_a x) g in
      let (y_le, y_in) = listed_in y t.right b (in_b y) h in
      omega (arith, t.apart x y x_in y_in, fits_all x x_le, fits_all y y_le) in
    let joined = Ascending-join 0 (suc last) a b asc_a asc_b (λ y h. omega arith) apart in
    Ascending-unique 0 0 (suc last) l (a ++ b) asc_l joined (λ x.
      in_l x
      ∙ split_member s t.left t.right t.member x
      ∙ ground (arith, in_a x, in_b x, count-append x a b))

-- On a set that the operations build, take n succeeds, and lists the first n numbers of the set and
-- the rest of them.
pub take_ordered :
    (n : ℕ) (s : Node)
    → IsISet s
    → (a : Node) × (b : Node) × (l : List ℕ) × (take n s ≡ some (a, b))
      × (tolist s ≡ some l)
      × (tolist a ≡ some (Prelude.take n l))
      × (tolist b ≡ some (Prelude.drop n l))
take_ordered n s w =
    let t = take_lem n s w in
    let (l, is_l, len_l, asc_l, in_l) = tolist_lem s w in
    let (a, is_a, len_a, asc_a, in_a) = tolist_lem t.left t.left_well in
    let (b, is_b, len_b, asc_b, in_b) = tolist_lem t.right t.right_well in
    let whole = split_lists n s t l a b asc_l asc_a asc_b in_l in_a in_b in
    let a_size =
      some-injective (length a) (size levels t.left) (sym len_a ∙ len_lem t.left t.left_well) in
    let l_size = some-injective (length l) (size levels s) (sym len_l ∙ len_lem s w) in
    let front =
      take-front n a b
        (omega (arith, t.left_size, a_size, l_size, ap length whole, length-append {0} a b)) in
    (
      t.left,
      t.right,
      l,
      t.made,
      is_l,
      is_a ∙ ap some (sym front.0 ∙ ap (Prelude.take n) (sym whole)),
      is_b ∙ ap some (sym front.1 ∙ ap (Prelude.drop n) (sym whole)),
    )

-- On a set that is not empty, popleft succeeds: it returns the least number and leaves the others.
pub popleft_ordered :
    (s : Node)
    → IsISet s
    → len s ≢ some 0
    → (x : ℕ) × (r : Node) × (l : List ℕ) × (popleft s ≡ some (x, r))
      × (tolist s ≡ some (x ∷ l))
      × (tolist r ≡ some l)
      × IsISet r
unfolding count
popleft_ordered s w h =
    let t = take_lem 1 s w in
    let (x, made, x_le, is_left, own) = popleft_parts s w h in
    let (l, is_l, len_l, asc_l, in_l) = tolist_lem s w in
    let (b, is_b, len_b, asc_b, in_b) = tolist_lem t.right t.right_well in
    let only = first_only t.left x is_left own in
    let whole =
      split_lists 1 s t l (x ∷ []) b asc_l (omega arith, omega arith, tt) asc_b in_l
        (λ y. ground (arith, only y)) in_b in
    (x, t.right, b, made, is_l ∙ ap some whole, is_b, t.right_well)
