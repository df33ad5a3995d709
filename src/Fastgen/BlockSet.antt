-- ===== src/Fastgen/BlockSet.antt =====
-- The methods of ISet (cwm/fastgen/utils/iset.py) that the scheduler calls, and what it relies on.
-- `Fits` tells the numbers that a set can hold; `none` is a failed assertion.
use cwm.Prelude.{
  ℕ, ◌+◌, ◌≤◌, ◌<◌, ◌≡◌, refl, ◌≢◌, Bool, true, false, ◌||◌, List, [], ◌∷◌, Option, some, arith,
  ◌==◌, length,
}
use Prim.Native.Nat.{min}

-- 1 for a test that holds.
abbrev pub one : Bool → ℕ
one true = 1
one false = 0

-- How often a number stands in a list.
unfoldable pub count : ℕ → List ℕ → ℕ
count x [] = 0
count x (y ∷ ys) = one (y == x) + count x ys

count_of_length : (x : ℕ) (l : List ℕ) → length l ≡ 0 → count x l ≡ 0
unfolding count
count_of_length x [] h = refl
count_of_length x (y ∷ l) h = absurd (omega arith)

pub record BlockSet : Type 1 where
  pub Set : Type 0
  pub Fits : ℕ → Type 0
  pub empty : Set
  pub interval : ℕ → ℕ → Option Set
  pub add : ℕ → Set → Option Set
  pub union : Set → Set → Set
  pub take : ℕ → Set → Set × Set
  pub popleft : Set → Option (ℕ × Set)
  pub tolist : Set → List ℕ
  pub len : Set → ℕ
  pub contains : ℕ → Set → Bool
  -- Membership after each operation.
  pub contains-empty : (x : ℕ) → contains x empty ≡ false
  pub len-empty : len empty ≡ 0
  pub contains-interval :
      (n : ℕ)
      → ((x : ℕ) → x < n → Fits x)
      → (s : Set) × (interval 0 n ≡ some s)
        × ((x : ℕ) → x < n → contains x s ≡ true)
        × ((x : ℕ) → n ≤ x → contains x s ≡ false)
  pub contains-add :
      (x : ℕ) (s : Set)
      → Fits x
      → (t : Set) × (add x s ≡ some t) × ((y : ℕ) → contains y t ≡ (y == x || contains y s))
  pub contains-union : (x : ℕ) (s t : Set) → contains x (union s t) ≡ (contains x s || contains x t)
  -- `take` splits a set into two parts, the first with the number asked for.
  pub count-take :
      (n x : ℕ) (s : Set)
      → one (contains x s) ≡ one (contains x (take n s).0) + one (contains x (take n s).1)
  pub len-take : (n : ℕ) (s : Set) → len (take n s).0 ≡ min n (len s)
  pub count-popleft :
      (s : Set)
      → len s ≢ 0
      → (x : ℕ) × (t : Set) × (popleft s ≡ some (x, t))
        × (Fits x)
        × ((y : ℕ) → one (contains y s) ≡ one (x == y) + one (contains y t))
  -- The list of a set has each of its members once.
  pub count-tolist : (x : ℕ) (s : Set) → count x (tolist s) ≡ one (contains x s)
  pub length-tolist : (s : Set) → length (tolist s) ≡ len s

module _ (bs : BlockSet) where
  open bs use {Set, empty, union, take, contains, len, tolist}

  abbrev pub holds : ℕ → Set → ℕ
  holds x s = one (contains x s)

  pub holds-empty : (x : ℕ) → holds x empty ≡ 0
  holds-empty x = rw bs.contains-empty

  -- The union of two sets with no common member.
  pub holds-union :
      (x : ℕ) (s t : Set) → holds x s + holds x t ≤ 1 → holds x (union s t) ≡ holds x s + holds x t
  holds-union x s t h = ground (arith, bs.contains-union x s t)

  -- A set of length 0 has no member.
  pub holds_of_len : (x : ℕ) (s : Set) → len s ≡ 0 → holds x s ≡ 0
  holds_of_len x s h =
      omega (arith, bs.count-tolist x s, count_of_length x (tolist s), bs.length-tolist s)
