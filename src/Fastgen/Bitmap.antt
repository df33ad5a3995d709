-- ===== src/Fastgen/Bitmap.antt =====
-- A plain set of blocks, a list of bits, which has what the scheduler relies on. It is what an ISet
-- (cwm/fastgen/utils/iset.py) stands for, and the scheduler runs on it in the tests.
use cwm.Prelude.{
  ℕ, zero, suc, ◌+◌, ◌-◌, ◌≤◌, ◌<◌, ◌≡◌, ◌≢◌, refl, Bool, true, false, ◌||◌, List, [], ◌∷◌, Option,
  none, some, arith, ◌==◌, ltb, length, get_or,
}
use Prim.Native.Nat.{min}
use mathlib.Core.Option
use native.Mathlib.Nat.{zero-add}
use cwm.Fastgen.BlockSet.{BlockSet, one, count}

abbrev pub contains : ℕ → List Bool → Bool
contains x s = get_or s x false

unfoldable pub add : ℕ → List Bool → List Bool
add zero [] = true ∷ []
add zero (b ∷ s) = true ∷ s
add (suc x) [] = false ∷ add x []
add (suc x) (b ∷ s) = b ∷ add x s

unfoldable pub union : List Bool → List Bool → List Bool
union [] t = t
union (a ∷ s) [] = a ∷ s
union (a ∷ s) (b ∷ t) = (a || b) ∷ union s t

unfoldable pub weight : List Bool → ℕ
weight [] = 0
weight (b ∷ s) = one b + weight s

unfoldable pub take : ℕ → List Bool → List Bool × List Bool
take n [] = ([], [])
take n (false ∷ s) = let (a, b) = take n s in (false ∷ a, false ∷ b)
take zero (true ∷ s) = let (a, b) = take zero s in (false ∷ a, true ∷ b)
take (suc n) (true ∷ s) = let (a, b) = take n s in (true ∷ a, false ∷ b)

shift : ℕ × List Bool → ℕ × List Bool
shift p = (suc p.0, false ∷ p.1)

unfoldable pub popleft : List Bool → Option (ℕ × List Bool)
unfolding shift
popleft [] = none
popleft (true ∷ s) = some (0, false ∷ s)
popleft (false ∷ s) = Option.map shift (popleft s)

unfoldable pub list_from : ℕ → List Bool → List ℕ
list_from k [] = []
list_from k (true ∷ s) = k ∷ list_from (k + 1) s
list_from k (false ∷ s) = list_from (k + 1) s

pub contains-add : (x y : ℕ) (s : List Bool) → contains y (add x s) ≡ (y == x || contains y s)
unfolding add
contains-add zero zero [] = refl
contains-add zero (suc y) [] = ground arith
contains-add zero zero (b ∷ s) = refl
contains-add zero (suc y) (b ∷ s) = ground arith
contains-add (suc x) zero [] = ground arith
contains-add (suc x) (suc y) [] = ground (arith, contains-add x y [])
contains-add (suc x) zero (b ∷ s) = ground arith
contains-add (suc x) (suc y) (b ∷ s) = ground (arith, contains-add x y s)

pub contains-union :
    (x : ℕ) (s t : List Bool) → contains x (union s t) ≡ (contains x s || contains x t)
unfolding union
contains-union x [] t = refl
contains-union zero (a ∷ s) [] = ground arith
contains-union (suc x) (a ∷ s) [] = ground arith
contains-union zero (a ∷ s) (b ∷ t) = refl
contains-union (suc x) (a ∷ s) (b ∷ t) = contains-union x s t

pub count-take :
    (n x : ℕ) (s : List Bool)
    → one (contains x s) ≡ one (contains x (take n s).0) + one (contains x (take n s).1)
unfolding take
count-take n x [] = refl
count-take n zero (false ∷ s) = refl
count-take n (suc x) (false ∷ s) = count-take n x s
count-take zero zero (true ∷ s) = refl
count-take zero (suc x) (true ∷ s) = count-take zero x s
count-take (suc n) zero (true ∷ s) = refl
count-take (suc n) (suc x) (true ∷ s) = count-take n x s

pub weight-take : (n : ℕ) (s : List Bool) → weight (take n s).0 ≡ min n (weight s)
unfolding take weight
weight-take n [] = omega arith
weight-take n (false ∷ s) = omega (arith, weight-take n s)
weight-take zero (true ∷ s) = omega (arith, weight-take zero s)
weight-take (suc n) (true ∷ s) = omega (arith, weight-take n s)

pub count-popleft :
    (s : List Bool)
    → weight s ≢ 0
    → (x : ℕ) × (t : List Bool) × (popleft s ≡ some (x, t))
      × Unit {0}
      × ((y : ℕ) → one (contains y s) ≡ one (x == y) + one (contains y t))
unfolding popleft weight shift
count-popleft [] h = absurd (h refl)
count-popleft (true ∷ s) h = (0, false ∷ s, refl, tt, counts)
  where
    counts : (y : ℕ) → one (contains y (true ∷ s)) ≡ one (0 == y) + one (contains y (false ∷ s))
    counts zero = refl
    counts (suc y) = ground arith
count-popleft (false ∷ s) h =
    let (x, t, e, _, c) = count-popleft s (omega arith) in
    (suc x, false ∷ t, rw e, tt, counts x t c)
  where
    counts :
        (x : ℕ) (t : List Bool)
        → ((y : ℕ) → one (contains y s) ≡ one (x == y) + one (contains y t))
        → (y : ℕ) → one (contains y (false ∷ s)) ≡ one (suc x == y) + one (contains y (false ∷ t))
    counts x t c zero = ground arith
    counts x t c (suc y) = ground (arith, c y)

count-list_from_below : (x k : ℕ) (s : List Bool) → x < k → count x (list_from k s) ≡ 0
unfolding list_from count
count-list_from_below x k [] h = refl
count-list_from_below x k (true ∷ s) h = ground (arith, count-list_from_below x (k + 1) s)
count-list_from_below x k (false ∷ s) h = count-list_from_below x (k + 1) s (omega arith)

pub count-list_from : (k j : ℕ) (s : List Bool) → count (k + j) (list_from k s) ≡ one (contains j s)
unfolding list_from count
count-list_from k j [] = refl
count-list_from k zero (true ∷ s) =
    ground (arith, count-list_from_below (k + 0) (k + 1) s (omega arith))
count-list_from k zero (false ∷ s) = count-list_from_below (k + 0) (k + 1) s (omega arith)
count-list_from k (suc j) (true ∷ s) = later (k + suc j) (omega arith) (count-list_from (k + 1) j s)
  where
    later :
        (x : ℕ)
        → x ≡ k + 1 + j
        → count (k + 1 + j) (list_from (k + 1) s) ≡ one (contains j s)
        → count x (k ∷ list_from (k + 1) s) ≡ one (contains j s)
    later x e h =
        let g : count x (list_from (k + 1) s) ≡ one (contains j s) = rw (← e) at h in
        ground (arith, g)
count-list_from k (suc j) (false ∷ s) =
    let e : k + suc j ≡ k + 1 + j = omega arith in rw e (count-list_from (k + 1) j s)

pub length-list_from : (k : ℕ) (s : List Bool) → length (list_from k s) ≡ weight s
unfolding list_from weight
length-list_from k [] = refl
length-list_from k (true ∷ s) = omega (arith, length-list_from (k + 1) s)
length-list_from k (false ∷ s) = omega (arith, length-list_from (k + 1) s)

pub count-tolist : (x : ℕ) (s : List Bool) → count x (list_from 0 s) ≡ one (contains x s)
count-tolist x s = rw zero-add at (count-list_from 0 x s)

unfoldable pub ones : ℕ → List Bool
ones zero = []
ones (suc n) = true ∷ ones n

pub contains-ones : (n x : ℕ) → contains x (ones n) ≡ ltb x n
unfolding ones
contains-ones zero zero = refl
contains-ones zero (suc x) = ground arith
contains-ones (suc n) zero = ground arith
contains-ones (suc n) (suc x) = ground (arith, contains-ones n x)

unfoldable pub zeros : ℕ → List Bool → List Bool
zeros zero s = s
zeros (suc n) s = false ∷ zeros n s

pub contains-empty : (x : ℕ) → contains x [] ≡ false
contains-empty x = refl

pub add_lem :
    (x : ℕ) (s : List Bool)
    → Unit {0}
    → (t : List Bool) × (some (add x s) ≡ some t)
      × ((y : ℕ) → contains y t ≡ (y == x || contains y s))
add_lem x s _ = (add x s, refl, λ y. contains-add x y s)

pub contains-interval :
    (n : ℕ)
    → ((x : ℕ) → x < n → Unit {0})
    → (s : List Bool) × (some (zeros 0 (ones (n - 0))) ≡ some s)
      × ((x : ℕ) → x < n → contains x s ≡ true)
      × ((x : ℕ) → n ≤ x → contains x s ≡ false)
unfolding zeros
contains-interval n _ = (
  ones (n - 0),
  refl,
  λ x h. ground (arith, contains-ones (n - 0) x),
  λ x h. ground (arith, contains-ones (n - 0) x),
)

pub length-tolist : (s : List Bool) → length (list_from 0 s) ≡ weight s
length-tolist s = length-list_from 0 s

pub weight-empty : weight [] ≡ 0
unfolding weight
weight-empty = refl

abbrev pub bitmap : BlockSet
bitmap = record {
  Set = List Bool;
  Fits = λ x. Unit;
  empty = [];
  interval = λ a b. some (zeros a (ones (b - a)));
  add = λ x s. some (add x s);
  union = union;
  take = take;
  popleft = popleft;
  tolist = list_from 0;
  len = weight;
  contains = contains;
  contains-empty = contains-empty;
  len-empty = weight-empty;
  contains-interval = contains-interval;
  contains-add = add_lem;
  contains-union = contains-union;
  count-take = count-take;
  len-take = weight-take;
  count-popleft = count-popleft;
  count-tolist = count-tolist;
  length-tolist = length-tolist;
}
