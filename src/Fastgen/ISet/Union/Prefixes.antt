-- ===== src/Fastgen/ISet/Union/Prefixes.antt =====
-- The union of two prefixes, Chk._union of cwm/fastgen/utils/iset.py.
use cwm.Fastgen.ISet.Union.Shift.{Shifted, shift_ones_lem, diff}
use Prim.Native.Nat.{bit_and}
use cwm.Prelude.{
  ℕ, suc, ◌/◌, ◌≤◌, ◌<◌, ◌≡◌, refl, sym, ◌∙◌, Bool, true, false, ◌&&◌, ◌||◌, ◌⊎◌, inl, inr, arith,
  ◌==◌, Bool-cases, Option,
}
use cwm.Fastgen.ISet.{Node, contains_in, branch, common, union_ones, union_chk, levels, shift_ones}
use cwm.Fastgen.ISet.Bits.{mask_double}
use cwm.Fastgen.ISet.Mask.{
  mask, agree, agree_split, agree_both, agree_place, and_not-mask, mask_same, mask_pos, mask_le,
  mask_lt-double, bit_and-two_masks, bit_and-mask_wide,
}
use cwm.Fastgen.ISet.Tree.{IsTree, Gives, gives, mk_chk_lem, mk_bit_lem}

-- The members of a prefix.
abbrev pub under : ℕ → ℕ → ℕ → Node → ℕ → Bool
under j k b c x = agree j k x b && contains_in x c

abbrev pub both : Node → Node → ℕ → Bool
both s t x = contains_in x s || contains_in x t

pub Gives-same :
    {k : ℕ} {o : Option Node} {P Q : ℕ → Bool} → Gives k o P → ((x : ℕ) → P x ≡ Q x) → Gives k o Q
Gives-same g h = gives g.tree g.made g.well (λ x. g.member x ∙ h x)

branch_lem :
    (i j n ob sb : ℕ) (oc sc : Node)
    → i ≤ n
    → j ≤ n
    → agree n (suc n) sb ob ≡ false
    → IsTree i oc
    → IsTree j sc
    → Gives
        (suc n)
        (branch (mask n (suc n)) (mask i (suc n)) ob oc (mask j (suc n)) sb sc)
        (λ x. under i (suc n) ob oc x || under j (suc n) sb sc x)
unfolding branch
branch_lem i j n ob sb oc sc h e apart t s =
    let g0 = mk_chk_lem i n ob oc h t in
    let g1 = mk_chk_lem j n sb sc e s in
    rw
      (
        and_not-mask i n (suc n) h (omega arith),
        and_not-mask j n (suc n) e (omega arith),
        g0.made,
        g1.made,
      )
      (elim (Bool-cases (bit_and sb (mask n (suc n)) == 0)) [
        | inl z ↦ rw z (
            Gives-same (mk_bit_lem n g1.tree g0.tree g1.well g0.well) (λ x. ground (
              arith,
              g0.member x,
              g1.member x,
              agree_split i n (suc n) x ob h (omega arith),
              agree_split j n (suc n) x sb e (omega arith),
              agree_place n x ob,
              agree_place n x sb,
              agree_place n sb ob,
            )))
        | inr z ↦ rw z (
            Gives-same (mk_bit_lem n g0.tree g1.tree g0.well g1.well) (λ x. ground (
              arith,
              g0.member x,
              g1.member x,
              agree_split i n (suc n) x ob h (omega arith),
              agree_split j n (suc n) x sb e (omega arith),
              agree_place n x ob,
              agree_place n x sb,
              agree_place n sb ob,
            )))
      ])

half_mask : (p q : ℕ) → mask (suc p) (suc q) / 2 ≡ mask p q
half_mask p q = rw (mask_double p q) (omega arith)

apart_ones :
    (rec : Node → Node → Option Node) (i j p q ob sb : ℕ) (oc sc : Node)
    → i ≤ p
    → j ≤ p
    → suc p ≤ q
    → agree p (suc p) sb ob ≡ false
    → IsTree i oc
    → IsTree j sc
    → Gives
        (suc p)
        (union_ones rec (mask (suc p) (suc q)) (mask j (suc p)) sb sc (mask i (suc p)) ob oc)
        (λ x. under i (suc p) ob oc x || under j (suc p) sb sc x)
unfolding union_ones
apart_ones rec i j p q ob sb oc sc h e w apart t s =
    rw
      (
        bit_and-mask_wide j (suc p) (suc p) (suc q) (omega arith) (omega arith),
        half_mask p q,
        bit_and-mask_wide j (suc p) p q e w,
        and_not-mask i (suc p) (suc p) (omega arith) (omega arith),
        and_not-mask j (suc p) (suc p) (omega arith) (omega arith),
        mask_same (suc p),
      )
      (branch_lem i j p ob sb oc sc h e apart t s)

apart_at :
    (rec : Node → Node → Option Node) (i j k p q ones ob sb : ℕ) (oc sc : Node)
    → k ≡ suc p
    → ones ≡ mask (suc p) (suc q)
    → i ≤ p
    → j ≤ p
    → k ≤ q
    → agree p k sb ob ≡ false
    → IsTree i oc
    → IsTree j sc
    → Gives k
        (union_ones rec ones (mask j k) sb sc (mask i k) ob oc)
        (λ x. under i k ob oc x || under j k sb sc x)
apart_at rec i j k p q ones ob sb oc sc k_is ones_is h e w apart t s =
    let a = rw k_is at apart in
    rw (ones_is, k_is) (apart_ones rec i j p q ob sb oc sc h e (omega arith) a t s)

-- The assertions of Chk._union hold.
pub union_chk_run :
    (rec : Node → Node → Option Node) (i j k ob sb : ℕ) (oc sc : Node)
    → i ≤ j
    → j < k
    → union_chk rec (mask j k) sb sc (mask i k) ob oc
      ≡ union_ones rec
          (shift_ones (suc levels) (diff j k sb ob) (mask j k))
          (mask j k)
          sb
          sc
          (mask i k)
          ob
          oc
unfolding union_chk
union_chk_run rec i j k ob sb oc sc h e = ground (
  arith,
  mask_le i j k h (omega arith),
  bit_and-two_masks i j k h,
  mask_lt-double i j k (omega arith) e,
)

pub le_cases : (j k : ℕ) → j ≤ k → (j ≡ k) ⊎ (j < k)
le_cases j k h = ground arith

module _ (rec : Node → Node → Option Node) (k : ℕ)
    (below : (l : ℕ) (s t : Node)
      → l < k
      → IsTree l s
      → IsTree l t
      → Gives l (rec s t) (both s t)) where
  common_lem :
      (i j l ob sb : ℕ) (oc sc : Node)
      → i ≤ l
      → j ≤ l
      → l < k
      → agree l k sb ob ≡ true
      → IsTree i oc
      → IsTree j sc
      → Gives k
          (common rec (mask l k) (mask j l) sb sc (mask i l) ob oc)
          (λ x. under i k ob oc x || under j k sb sc x)
  unfolding common
  common_lem i j l ob sb oc sc h e u same t s =
      let g0 = mk_chk_lem i l ob oc h t in
      let g1 = mk_chk_lem j l sb sc e s in
      let r = below l g0.tree g1.tree u g0.well g1.well in
      rw (g0.made, g1.made, r.made)
        (Gives-same (mk_chk_lem l k sb r.tree (omega arith) r.well) (λ x. ground (
          arith,
          g0.member x,
          g1.member x,
          r.member x,
          agree_split i l k x ob h (omega arith),
          agree_split j l k x sb e (omega arith),
          agree_both l k x sb ob same,
        )))

  common_ones :
      (i j l k' ones ob sb : ℕ) (oc sc : Node)
      → ones ≡ mask l k'
      → i ≤ j
      → j ≤ l
      → l < k
      → k ≤ k'
      → agree l k sb ob ≡ true
      → IsTree i oc
      → IsTree j sc
      → Gives k
          (union_ones rec ones (mask j k) sb sc (mask i k) ob oc)
          (λ x. under i k ob oc x || under j k sb sc x)
  unfolding union_ones
  common_ones i j l k' ones ob sb oc sc ones_is h e u w same t s =
      let c = common_lem i j l ob sb oc sc (omega arith) e u same t s in
      let some_place : (mask l k == 0) ≡ false = ground (arith, mask_pos l k u) in
      rw
        (
          ones_is,
          bit_and-mask_wide j k l k' e w,
          some_place,
          and_not-mask i l k (omega arith) (omega arith),
          and_not-mask j l k e (omega arith),
        )
        c

  union_ones_lem :
      (i j ones ob sb : ℕ) (oc sc : Node)
      → i ≤ j
      → j < k
      → Shifted j k sb ob ones
      → IsTree i oc
      → IsTree j sc
      → Gives k
          (union_ones rec ones (mask j k) sb sc (mask i k) ob oc)
          (λ x. under i k ob oc x || under j k sb sc x)
  union_ones_lem i j ones ob sb oc sc h e sh t s = elim (le_cases sh.l k sh.upto) [
    | inr u ↦
        common_ones i j sh.l sh.k' ones ob sb oc sc sh.is_mask h sh.from u sh.wide sh.common t s
    | inl u ↦ elim sh.back [
      | inl b ↦ absurd (omega arith)
      | inr d ↦
          apart_at rec i j k d.p d.q ones ob sb oc sc (sym u ∙ d.is_l)
            (sh.is_mask ∙ rw (d.is_l, d.is_k) refl) (omega (arith, d.from)) d.from d.wide d.apart t
            s
    ]
  ]

  -- The longer prefix on the right.
  pub union_chk_lem :
      (i j ob sb : ℕ) (oc sc : Node)
      → i ≤ j
      → j < k
      → k ≤ levels
      → IsTree i oc
      → IsTree j sc
      → Gives k
          (union_chk rec (mask j k) sb sc (mask i k) ob oc)
          (λ x. under i k ob oc x || under j k sb sc x)
  union_chk_lem i j ob sb oc sc h e u t s =
      let sh = shift_ones_lem j k sb ob (suc levels) (omega arith) (omega arith) in
      let g =
        union_ones_lem i j (shift_ones (suc levels) (diff j k sb ob) (mask j k)) ob sb oc sc h e sh
          t s in
      rw (union_chk_run rec i j k ob sb oc sc h e) g
