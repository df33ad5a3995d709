-- ===== src/Fastgen/ISet/Sets/Tests.antt =====
-- The sets at small inputs.
use cwm.Prelude.{
  ℕ, zero, suc, ◌≤◌, ◌<◌, ◌≡◌, ◌≢◌, refl, true, false, Bool, ◌&&◌, ◌||◌, List, [], ◌∷◌, Option,
  some, none, arith, ◌==◌, leb, ltb, length,
}
use cwm.Prelude
use cwm.Fastgen.BlockSet.{one, count}
use cwm.Fastgen.ISet.{
  Node, mem, chk, union, union_in, mk_chk, mk_bit, branch, common, union_ones, union_chk,
  union_bit_chk, union_bit, shift_ones, digit_sum, digit_number, last, ◌>>=◌,
}
use cwm.Fastgen.ISet.Bits.{mask, field}
use cwm.Fastgen.ISet.Listing.{Ascending}
use cwm.Fastgen.ISet.Laws.{IsISet, merge_lem, add_lem, tolist_lem, contains-interval}
use cwm.Fastgen.ISet.Order.{take_ordered, popleft_ordered}
use cwm.Fastgen.ISet.Sets.{
  interval, interval_in, interval_block, interval_around, len_in, take_in, take_upper, tolist_in,
  tolist, take, popleft, add, merge, singleton, len, first_of, contains,
}

listed_t : (interval 3 13 last >>= tolist) ≡ some (3 ∷ 4 ∷ 5 ∷ 6 ∷ 7 ∷ 8 ∷ 9 ∷ 10 ∷ 11 ∷ 12 ∷ [])
unfolding interval union interval_in interval_block interval_around union_in mk_chk mk_bit branch
    common union_ones union_chk union_bit_chk union_bit shift_ones digit_sum digit_number tolist
    tolist_in
listed_t = refl

popped_t :
    (interval 3 13 last >>= popleft >>= λ r. add 40 r.1 >>= tolist)
    ≡ some (4 ∷ 5 ∷ 6 ∷ 7 ∷ 8 ∷ 9 ∷ 10 ∷ 11 ∷ 12 ∷ 40 ∷ [])
unfolding interval union interval_in interval_block interval_around union_in mk_chk mk_bit branch
    common union_ones union_chk union_bit_chk union_bit shift_ones digit_sum digit_number tolist
    tolist_in popleft take take_in take_upper len_in first_of add singleton
popped_t = refl

-- The sets of 5, and of the numbers from 8 to 15.
abbrev five : Node
five = chk last 5 (mem true)

abbrev eight : Node
eight = chk 4294967288 8 (mem true)

five-IsISet : IsISet five
unfolding mask field
five-IsISet = (0, record { below = omega arith; ones = refl; fits = refl }, refl, tt)

eight-IsISet : IsISet eight
unfolding mask field
eight-IsISet = (3, record { below = omega arith; ones = refl; fits = refl }, refl, tt)

eight_size : len eight ≢ some 0
unfolding len len_in
eight_size e = absurd (ground arith)

merge_lem_example :
    (r : Node) × (merge five eight ≡ some r)
    × IsISet r
    × ((x : ℕ) → contains x r ≡ (contains x five || contains x eight))
merge_lem_example = merge_lem five eight five-IsISet eight-IsISet

add_lem_example :
    (r : Node) × (add 12 five ≡ some r)
    × IsISet r
    × ((y : ℕ) → contains y r ≡ (y == 12 || contains y five))
add_lem_example = add_lem 12 five (omega arith) five-IsISet

tolist_lem_example :
    (l : List ℕ) × (tolist eight ≡ some l)
    × (len eight ≡ some (length l))
    × Ascending 0 (suc last) l
    × ((x : ℕ) → count x l ≡ one (contains x eight))
tolist_lem_example = tolist_lem eight eight-IsISet

contains-interval_example :
    (r : Node) × (interval 3 13 last ≡ some r)
    × IsISet r
    × ((x : ℕ) → contains x r ≡ (leb 3 x && ltb x 13))
contains-interval_example = contains-interval 3 13 (omega arith)

take_ordered_example :
    (a : Node) × (b : Node) × (l : List ℕ) × (take 3 eight ≡ some (a, b))
    × (tolist eight ≡ some l)
    × (tolist a ≡ some (Prelude.take 3 l))
    × (tolist b ≡ some (Prelude.drop 3 l))
take_ordered_example = take_ordered 3 eight eight-IsISet

popleft_ordered_example :
    (x : ℕ) × (r : Node) × (l : List ℕ) × (popleft eight ≡ some (x, r))
    × (tolist eight ≡ some (x ∷ l))
    × (tolist r ≡ some l)
    × IsISet r
popleft_ordered_example = popleft_ordered eight eight-IsISet eight_size
