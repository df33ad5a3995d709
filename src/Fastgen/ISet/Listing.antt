-- ===== src/Fastgen/ISet/Listing.antt =====
-- The list that tolist of cwm/fastgen/utils/iset.py makes of a tree: its members once, in order.
use Prim.Native.Nat.{bit_or}
use cwm.Prelude.{
  ℕ, zero, suc, ◌+◌, ◌≤◌, ◌<◌, ◌≡◌, refl, ap, sym, ◌∙◌, Bool, true, false, ◌&&◌, arith, leb, ltb,
  some, List, [], ◌∷◌, ◌++◌, length, length-append, append_assoc, append-nil,
}
use cwm.Fastgen.BlockSet.{one, count}
use cwm.Fastgen.ISet.{Node, mem, chk, bit, contains_in}
use cwm.Fastgen.ISet.Bits
use cwm.Fastgen.ISet.Bits.{mask, field, pow, pow_pos, pow_double, mask-pow}
use cwm.Fastgen.ISet.Mask.{
  agree, agree_one, agree_split, agree_under, bit_and-agree, and_not-mask, bit_or-prefix,
  field-bit_or, field_down, mask_own, mask_pos,
}
use cwm.Fastgen.ISet.Tree.{IsTree}
use cwm.Fastgen.ISet.Sets.{tolist_in, range_from}
use cwm.Fastgen.ISet.Align.{agree_block, field_all}
use cwm.Fastgen.ISet.Count.{size, size-mem, size-chk, size-bit, all_ones-mask}

-- A list in strictly ascending order, from lo and below hi.
abbrev pub Ascending : ℕ → ℕ → List ℕ → Type 0
Ascending lo hi [] = Unit
Ascending lo hi (x ∷ l) = (lo ≤ x) × (x < hi) × Ascending (suc x) hi l

pub Ascending-wider :
    (lo lo' hi hi' : ℕ) (l : List ℕ) → lo' ≤ lo → hi ≤ hi' → Ascending lo hi l → Ascending lo' hi' l
Ascending-wider lo lo' hi hi' [] h e a = tt
Ascending-wider lo lo' hi hi' (x ∷ l) h e (p, q, a) =
    (omega arith, omega arith, Ascending-wider (suc x) (suc x) hi hi' l (omega arith) e a)

Ascending-append :
    (lo mid hi : ℕ) (l m : List ℕ)
    → lo ≤ mid
    → mid ≤ hi
    → Ascending lo mid l
    → Ascending mid hi m
    → Ascending lo hi (l ++ m)
Ascending-append lo mid hi [] m h e a b = Ascending-wider mid lo hi hi m h (omega arith) b
Ascending-append lo mid hi (x ∷ l) m h e (p, q, a) b =
    (p, omega arith, Ascending-append (suc x) mid hi l m (omega arith) e a b)

pub count-above : (x lo hi : ℕ) (l : List ℕ) → Ascending lo hi l → hi ≤ x → count x l ≡ 0
unfolding count
count-above x lo hi [] a h = refl
count-above x lo hi (y ∷ l) (p, q, a) h = ground (arith, count-above x (suc y) hi l a h)

pub count-append : (x : ℕ) (l m : List ℕ) → count x (l ++ m) ≡ count x l + count x m
unfolding count
count-append x [] m = omega arith
count-append x (y ∷ l) m = omega (arith, count-append x l m)

range-Ascending : (a n : ℕ) → Ascending a (a + n) (range_from a n)
range-Ascending a zero = tt
range-Ascending a (suc n) = (
  omega arith,
  omega arith,
  Ascending-wider (suc a) (suc a) (suc a + n) (a + suc n) (range_from (suc a) n) (omega arith)
      (omega arith) (range-Ascending (suc a) n),
)

count-range : (x a n : ℕ) → count x (range_from a n) ≡ one (leb a x && ltb x (a + n))
unfolding count
count-range x a zero = ground arith
count-range x a (suc n) = ground (arith, count-range x (suc a) n)

length-range : (a n : ℕ) → length (range_from a n) ≡ n
length-range a zero = refl
length-range a (suc n) = ap suc (length-range (suc a) n)

-- The list of a tree below a prefix, behind what the caller has.
pub record Lists (k top prefix : ℕ) (t : Node) : Type 0 where
  pub items : List ℕ
  pub made : (acc : List ℕ) → tolist_in acc prefix (mask 0 k) t ≡ some (acc ++ items)
  pub size_of : length items ≡ size k t
  pub order : Ascending prefix (prefix + pow k) items
  pub member : (x : ℕ) → x < pow top → count x items ≡ one (agree k top x prefix && contains_in x t)

Lists-mem : (k top prefix : ℕ) (b : Bool) → field k top prefix ≡ prefix → Lists k top prefix (mem b)
unfolding tolist_in contains_in count
Lists-mem k top prefix true own =
    let p = mask-pow k in
    let e : mask 0 k + 1 ≡ pow k = omega arith in
    record {
      items = range_from prefix (pow k);
      made = λ acc. rw e (ground (arith, all_ones-mask k));
      size_of = length-range prefix (pow k) ∙ sym (size-mem k true);
      order = range-Ascending prefix (pow k);
      member = λ x h.
          ground (
            arith,
            count-range x prefix (pow k),
            agree_block k top x prefix own,
            field_all top x h,
          );
    }
Lists-mem k top prefix false own = record {
  items = [];
  made = λ acc. ground (arith, all_ones-mask k, append-nil acc);
  size_of = sym (size-mem k false);
  order = tt;
  member = λ x h. ground arith;
}

-- A second prefix adds to the first, inside its block.
prefix_room :
    (j k top prefix b : ℕ)
    → j ≤ k
    → k ≤ top
    → field k top prefix ≡ prefix
    → field j k b ≡ b
    → (bit_or prefix b ≡ prefix + b) × (b + pow j ≤ pow k)
prefix_room j k top prefix b h u own fits =
    let f = field-bit_or j k top prefix b h u fits in
    let sum = rw own at (f.0) in
    (
      sum,
      omega (
        arith,
        fits,
        Bits.field_le-mask j k b,
        mask-pow k,
        mask-pow j,
        Bits.mask_split 0 j k (omega arith) h,
      ),
    )

Lists-chk :
    (j k top prefix b : ℕ) (c : Node)
    → j < k
    → k ≤ top
    → field k top prefix ≡ prefix
    → field j k b ≡ b
    → IsTree j c
    → Lists j top (bit_or prefix b) c
    → Lists k top prefix (chk (mask j k) b c)
unfolding tolist_in contains_in
Lists-chk j k top prefix b c h u own fits w l =
    let p = bit_or-prefix j k top prefix b (omega arith) u own fits in
    let (sum, room) = prefix_room j k top prefix b (omega arith) u own fits in
    record {
      items = l.items;
      made = λ acc.
          rw (and_not-mask 0 j k (omega arith) (omega arith))
            (ground (arith, all_ones-mask k, mask_pos 0 k (omega arith), l.made acc));
      size_of = l.size_of ∙ sym (size-chk j k b c h fits w);
      order =
          Ascending-wider (bit_or prefix b) prefix (bit_or prefix b + pow j) (prefix + pow k)
            l.items (omega arith) (omega arith) l.order;
      member = λ x e. l.member x e ∙ ground (arith, p.1 x, bit_and-agree j k x b fits);
    }

Lists-bit :
    (n top prefix : ℕ) (c d : Node)
    → suc n ≤ top
    → field (suc n) top prefix ≡ prefix
    → IsTree n d
    → Lists n top prefix c
    → Lists n top (bit_or prefix (mask n (suc n))) d
    → Lists (suc n) top prefix (bit (mask n (suc n)) c d)
unfolding tolist_in contains_in
Lists-bit n top prefix c d u own w lc ld =
    let high = mask n (suc n) in
    let fits = mask_own n (suc n) in
    let p = bit_or-prefix n (suc n) top prefix high (omega arith) u own fits in
    let (sum, room) = prefix_room n (suc n) top prefix high (omega arith) u own fits in
    let double = pow_double n in
    let one_place = Bits.mask_one n in
    record {
      items = lc.items ++ ld.items;
      made = λ acc.
          rw
            (
              and_not-mask 0 n (suc n) (omega arith) (omega arith),
              lc.made acc,
              ld.made (acc ++ lc.items),
            )
            (ground (
              arith,
              all_ones-mask (suc n),
              mask_pos 0 (suc n) (omega arith),
              append_assoc acc lc.items ld.items,
            ));
      size_of =
          omega
            (arith, length-append {0} lc.items ld.items, lc.size_of, ld.size_of, size-bit n c d w);
      order =
          Ascending-append prefix (prefix + pow n) (prefix + pow (suc n)) lc.items ld.items
            (omega arith) (omega arith) lc.order
            (Ascending-wider (bit_or prefix high) (prefix + pow n) (bit_or prefix high + pow n)
              (prefix + pow (suc n)) ld.items (omega arith) (omega arith) ld.order);
      member = λ x e. ground (
        arith,
        count-append x lc.items ld.items,
        lc.member x e,
        ld.member x e,
        p.1 x,
        agree_split n (suc n) top x prefix (omega arith) u,
        agree_under n top x prefix own,
        agree_one n x,
      );
    }

pub tolist_in_lem :
    (k top prefix : ℕ) (t : Node)
    → k ≤ top
    → field k top prefix ≡ prefix
    → IsTree k t
    → Lists k top prefix t
tolist_in_lem k top prefix (mem b) u own w = Lists-mem k top prefix b own
tolist_in_lem k top prefix (chk m b c) u own (j, p, _, w) =
    let h = p.below in
    let own' = (bit_or-prefix j k top prefix b (omega arith) u own p.fits).0 in
    rw p.ones (
      Lists-chk j k top prefix b c h u own p.fits w
        (tolist_in_lem j top (bit_or prefix b) c (omega arith) own' w))
tolist_in_lem k top prefix (bit m c d) u own (n, e, o, _, _, wc, wd) =
    let own_n = rw e at own in
    let u_n = rw e at u in
    let own' =
      (bit_or-prefix n (suc n) top prefix (mask n (suc n)) (omega arith) u_n own_n
        (mask_own n (suc n))).0 in
    rw (o, e)
      (Lists-bit n top prefix c d u_n own_n wd
        (tolist_in_lem n top prefix c (omega arith)
          (field_down n (suc n) top prefix (omega arith) u_n own_n) wc)
        (tolist_in_lem n top (bit_or prefix (mask n (suc n))) d (omega arith) own' wd))
