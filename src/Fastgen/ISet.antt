-- ===== src/Fastgen/ISet.antt =====
-- The radix tree of cwm/fastgen/utils/iset.py: the nodes, and the operations on them. `none` is a
-- failed assertion. The source compares nodes by `is`: the two values of Mem are made once, and any
-- other node stands at one place of a tree, so that two children are one object only if both are
-- the same Mem.
mod Bits
mod Mask
mod Tree
mod Union
mod Interval
mod Single
mod Order
pub mod Blocks
mod Laws
mod Listing
mod Take
mod Count
mod Align
mod Sets
use Prim.Native.Nat.{bit_and, bit_or, bit_xor}
use cwm.Prelude.{
  ℕ, zero, suc, ◌+◌, ◌-◌, ◌*◌, ◌/◌, ◌%◌, Bool, true, false, ◌&&◌, ◌||◌, not, List, [], ◌∷◌, ◌++◌,
  Option, none, some, ◌==◌, leb, ltb, if◌then◌else◌,
}

infixl 5 ◌>>=◌
abbrev pub ◌>>=◌ {ℓ ℓ'} : {A : Type ℓ} {B : Type ℓ'} → Option A → (A → Option B) → Option B
none >>= f = none
some a >>= f = f a

pub data Node : Type 0 where
  mem : Bool → Node
  chk : ℕ → ℕ → Node → Node
  bit : ℕ → Node → Node → Node

-- The constants _L and _M.
abbrev pub levels : ℕ
levels = 32

abbrev pub last : ℕ
last = 4294967295

abbrev pub empty : Node
empty = mem false

-- The operators & ~ and & - of the source; the second has a power of two on its right.
abbrev pub and_not : ℕ → ℕ → ℕ
and_not x m = x - bit_and x m

abbrev pub and_minus : ℕ → ℕ → ℕ
and_minus x p = and_not x (p - 1)

-- int.bit_count and int.bit_length, digit by digit; the number itself bounds its digits.
unfoldable pub digit_sum : ℕ → ℕ → ℕ
digit_sum zero n = 0
digit_sum (suc fuel) zero = 0
digit_sum (suc fuel) (suc n) = digit_sum fuel (suc n / 2) + suc n % 2

abbrev pub bit_count : ℕ → ℕ
bit_count n = digit_sum n n

unfoldable pub digit_number : ℕ → ℕ → ℕ
digit_number zero n = 0
digit_number (suc fuel) zero = 0
digit_number (suc fuel) (suc n) = suc (digit_number fuel (suc n / 2))

abbrev pub bit_length : ℕ → ℕ
bit_length n = digit_number n n

abbrev pub all_ones : ℕ → Bool
all_ones m = bit_and m (m + 1) == 0

abbrev pub is_empty : Node → Bool
is_empty (mem b) = not b
is_empty (chk m b c) = false
is_empty (bit m c d) = false

-- The test `c0 is c1`.
abbrev pub same : Node → Node → Bool
same (mem true) (mem true) = true
same (mem false) (mem false) = true
same c d = false

unfoldable pub contains_in : ℕ → Node → Bool
contains_in x (mem b) = b
contains_in x (chk m b c) = bit_and x m == b && contains_in x c
contains_in x (bit m c d) = if bit_and x m == 0 then contains_in x c else contains_in x d

-- Chk._mk
abbrev pub chk_join : ℕ → ℕ → Node → Option Node
chk_join m b (mem e) = some (chk m b (mem e))
chk_join m b (chk m' b' c) =
    if bit_and m m' == 0 then some (chk (bit_or m m') (bit_or b b') c) else none
chk_join m b (bit m' c d) = some (chk m b (bit m' c d))

unfoldable pub mk_chk : ℕ → ℕ → Node → Option Node
mk_chk m b c = if m == 0 || is_empty c then some c else chk_join m (bit_and b m) c

-- Bit._mk
unfoldable pub mk_bit : ℕ → Node → Node → Option Node
mk_bit m c d =
    if bit_count m == 1
    then (if same c d
        then some c
        else (if is_empty c
            then mk_chk m m d
            else (if is_empty d then mk_chk m 0 c else some (bit m c d))))
    else none

-- The loop of Chk._union over `ones`, from the mask of the shorter prefix.
unfoldable pub shift_ones : ℕ → ℕ → ℕ → ℕ
shift_ones zero diff ones = ones
shift_ones (suc fuel) diff ones = elim (bit_and diff ones == 0) [
  | true ↦ ones
  | false ↦ shift_ones fuel diff (ones * 2)
]

-- The prefixes differ in their first bit.
unfoldable pub branch : ℕ → ℕ → ℕ → Node → ℕ → ℕ → Node → Option Node
branch high om ob oc sm sb sc = mk_chk (and_not om high) ob oc >>= λ c0.
    mk_chk (and_not sm high) sb sc >>= λ c1.
    if bit_and sb high == 0 then mk_bit high c1 c0 else mk_bit high c0 c1

module _ (rec : Node → Node → Option Node) where
  -- The rest of Chk._union, for two prefixes that begin with the ones of `mask0`.
  unfoldable pub common : ℕ → ℕ → ℕ → Node → ℕ → ℕ → Node → Option Node
  common mask0 sm sb sc om ob oc =
      mk_chk om ob oc >>= λ so. mk_chk sm sb sc >>= λ ss. rec so ss >>= λ c. mk_chk mask0 sb c

  unfoldable pub union_ones : ℕ → ℕ → ℕ → Node → ℕ → ℕ → Node → Option Node
  union_ones ones sm sb sc om ob oc =
      let mask0 = bit_and ones sm in
      let omask1 = and_not om mask0 in
      let smask1 = and_not sm mask0 in
      if mask0 == 0
      then branch (bit_and (ones / 2) sm) omask1 ob oc smask1 sb sc
      else common mask0 smask1 sb sc omask1 ob oc

  -- Chk._union for two prefixes.
  unfoldable pub union_chk : ℕ → ℕ → Node → ℕ → ℕ → Node → Option Node
  union_chk sm sb sc om ob oc = elim (ltb om sm) [
    | true ↦ rec (chk om ob oc) (chk sm sb sc)
    | false ↦
        if bit_and sm om == sm && ltb om (2 * sm)
        then union_ones (shift_ones (suc levels) (bit_and (bit_xor sb ob) sm) sm) sm sb sc om ob oc
        else none
  ]

  -- Bit._union with a prefix.
  unfoldable pub union_bit_chk : ℕ → Node → Node → ℕ → ℕ → Node → Option Node
  union_bit_chk m c d om ob oc =
      if ltb om (m * 2) && not (bit_and om m == 0)
      then (mk_chk (and_not om m) ob oc >>= λ s. elim (bit_and ob m == 0) [
        | true ↦ rec c s >>= λ c'. mk_bit m c' d
        | false ↦ rec d s >>= λ d'. mk_bit m c d'
      ])
      else none

  -- Bit._union for two branches.
  unfoldable pub union_bit : ℕ → Node → Node → ℕ → Node → Node → Option Node
  union_bit m c d om oc od =
      if m == om then (rec oc c >>= λ c'. rec od d >>= λ d'. mk_bit m c' d') else none

-- SetNode._union, on fuel.
unfoldable pub union_in : ℕ → Node → Node → Option Node
union_in zero s t = none
union_in (suc fuel) (mem b) t = some (if b then mem b else t)
union_in (suc fuel) (chk m b c) (mem e) = union_in fuel (mem e) (chk m b c)
union_in (suc fuel) (chk m b c) (chk m' b' c') = union_chk (union_in fuel) m b c m' b' c'
union_in (suc fuel) (chk m b c) (bit m' c' d') = union_in fuel (bit m' c' d') (chk m b c)
union_in (suc fuel) (bit m c d) (mem e) = union_in fuel (mem e) (bit m c d)
union_in (suc fuel) (bit m c d) (chk m' b' c') = union_bit_chk (union_in fuel) m c d m' b' c'
union_in (suc fuel) (bit m c d) (bit m' c' d') = union_bit (union_in fuel) m c d m' c' d'

unfoldable pub union : Node → Node → Option Node
unfolding union_in
union s t = union_in (suc (2 * levels)) s t
