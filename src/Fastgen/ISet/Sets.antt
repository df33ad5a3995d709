-- ===== src/Fastgen/ISet/Sets.antt =====
-- The intervals, sizes, splits and lists of cwm/fastgen/utils/iset.py, and the class ISet. `none` is
-- a failed assertion; the methods that change a set return the new one.
mod Tests
use Prim.Native.Nat.{bit_and, bit_or}
use cwm.Prelude.{
  ℕ, zero, suc, ◌+◌, ◌-◌, ◌*◌, ◌/◌, ◌^◌, Bool, true, false, ◌&&◌, not, List, [], ◌∷◌, ◌++◌, Option,
  none, some, ◌==◌, leb, ltb, if◌then◌else◌,
}
use cwm.Fastgen.ISet.{
  Node, mem, chk, bit, empty, last, levels, contains_in, mk_chk, mk_bit, and_not, and_minus,
  all_ones, bit_length, digit_number, is_empty, union, union_in, ◌>>=◌,
}

-- The interval around an aligned block of p numbers at aa.
module _ (rec : ℕ → ℕ → Option Node) where
  unfoldable pub interval_around : ℕ → ℕ → ℕ → ℕ → ℕ → Option Node
  interval_around a b mask p aa = rec a aa >>= λ r0.
      mk_chk (and_minus mask p) aa (mem true) >>= λ r1.
      rec (aa + p) b >>= λ r2. union r0 r1 >>= λ r. union r r2

  -- The largest aligned block, of p or half as many.
  unfoldable pub interval_block : ℕ → ℕ → ℕ → ℕ → Option Node
  interval_block a b mask p =
      let aa = and_minus (a + p - 1) p in
      let h = p / 2 in
      let ah = and_minus (a + h - 1) h in
      if leb (aa + p) b
      then interval_around a b mask p aa
      else (if ltb 0 h && leb (ah + h) b then interval_around a b mask h ah else none)

-- On fuel.
unfoldable pub interval_in : ℕ → ℕ → ℕ → ℕ → Option Node
interval_in zero a b mask = none
interval_in (suc fuel) a b mask =
    if leb b (mask + 1)
    then (if leb b a
        then some empty
        else interval_block (λ a' b'. interval_in fuel a' b' mask) a b mask
            (2 ^ (bit_length (b - a) - 1)))
    else none

unfoldable pub interval : ℕ → ℕ → ℕ → Option Node
unfolding interval_in
interval a b mask = interval_in (suc (suc levels)) a b mask

-- SetNode.singleton, on a number that the set can hold.
unfoldable pub singleton : ℕ → Option Node
singleton x = if leb x last then mk_chk last x (mem true) else none

unfoldable pub len_in : ℕ → Node → Option ℕ
len_in mask (mem b) = if all_ones mask then some (if b then mask + 1 else 0) else none
len_in mask (chk m b c) = len_in (and_not mask m) c
len_in mask (bit m c d) =
    len_in (and_not mask m) c >>= λ i. len_in (and_not mask m) d >>= λ j. some (i + j)

-- The rest of Bit._take, once the lower half is split.
unfoldable pub take_upper :
    (ℕ → Option (Node × Node)) → ℕ → ℕ → ℕ → Node → Node × Node → Option (Node × Node)
take_upper upper n mask m d (a0, b0) = len_in mask a0 >>= λ l.
    if ltb 0 (n - l)
    then (upper (n - l) >>= λ r. mk_bit m a0 r.0 >>= λ a.
        if is_empty b0 then (mk_chk m m r.1 >>= λ b. some (a, b)) else none)
    else (mk_chk m 0 a0 >>= λ a. mk_bit m b0 d >>= λ b. some (a, b))

unfoldable pub take_in : ℕ → ℕ → Node → Option (Node × Node)
take_in n mask (mem b) =
    if all_ones mask
    then (if not b
        then some (empty, empty)
        else (if leb (mask + 1) n
            then some (mem b, empty)
            else (interval 0 n mask >>= λ a. interval n (mask + 1) mask >>= λ c. some (a, c))))
    else none
take_in n mask (chk m b c) =
    let rest = take_in n (and_not mask m) c in
    len_in mask (chk m b c) >>= λ l.
    if leb l n
    then some (chk m b c, empty)
    else (rest >>= λ r. mk_chk m b r.0 >>= λ s. mk_chk m b r.1 >>= λ t. some (s, t))
take_in n mask (bit m c d) =
    let lower = take_in n (and_not mask m) c in
    let upper = λ (k : ℕ). take_in k (and_not mask m) d in
    len_in mask (bit m c d) >>= λ l.
    if leb l n
    then some (bit m c d, empty)
    else (lower >>= λ r. take_upper upper n (and_not mask m) m d r)

-- The numbers of range(a, a + n).
abbrev pub range_from : ℕ → ℕ → List ℕ
range_from a zero = []
range_from a (suc n) = a ∷ range_from (suc a) n

unfoldable pub tolist_in : List ℕ → ℕ → ℕ → Node → Option (List ℕ)
tolist_in acc prefix mask (mem b) =
    if all_ones mask then some (if b then acc ++ range_from prefix (mask + 1) else acc) else none
tolist_in acc prefix mask (chk m b c) =
    let rest = tolist_in acc (bit_or prefix b) (and_not mask m) c in
    if ltb 0 mask && all_ones mask then rest else none
tolist_in acc prefix mask (bit m c d) =
    let upper = λ (l : List ℕ). tolist_in l (bit_or prefix m) (and_not mask m) d in
    let rest = tolist_in acc prefix (and_not mask m) c >>= upper in
    if ltb 0 mask && all_ones mask then rest else none

-- SetNode.__contains__ and the methods of SetNode and ISet.
unfoldable pub contains : ℕ → Node → Bool
contains x s = if ltb last x then false else contains_in x s

unfoldable pub len : Node → Option ℕ
len s = len_in last s

unfoldable pub tolist : Node → Option (List ℕ)
tolist s = tolist_in [] 0 last s

unfoldable pub add : ℕ → Node → Option Node
add x s = singleton x >>= λ e. union s e

unfoldable pub merge : Node → Node → Option Node
merge s other = union s other

unfoldable pub take : ℕ → Node → Option (Node × Node)
take n s = take_in n last s

unfoldable pub first_of : Node → Option ℕ
first_of (mem b) = none
first_of (chk m b c) = some b
first_of (bit m c d) = none

unfoldable pub popleft : Node → Option (ℕ × Node)
popleft s = take 1 s >>= λ r. first_of r.0 >>= λ x. some (x, r.1)

abbrev pub clear : Node
clear = empty
